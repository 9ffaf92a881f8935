-- ===== src/Klibc/Hashtable/Set.antt =====
-- hashtable_set against the map that a table stands for.
use goshkik_os.Prelude.Memory.{Ptr, update}
use goshkik_os.Prelude.Run.{done, Returns}
use goshkik_os.Prelude.Int.{ℤ, pos, negsuc}
use goshkik_os.Klibc.Hashtable.{
  World, store, slab_alloc, slab_free, kmalloc_key, fnv1ahash, same_bytes, hashtable_set,
}
use goshkik_os.Klibc.Hashtable.Chain.{Node, Cells}
use goshkik_os.Klibc.Hashtable.Keys.{has_key, find_value, UniqueKeys-split, find_value-replaced}
use goshkik_os.Klibc.Hashtable.Table.{
  IsChain, IsTable, view, IsTable-update, find_at, load-at, bucket_lem, get_entry_lem,
}
use goshkik_os.Klibc.Hashtable.Lookup.{IsSplit, search_lem}
use goshkik_os.Klibc.Hashtable.Update.{view-update, Frame-store, IsChain-replaced}
use goshkik_os.Klibc.Hashtable.Insert.{inserted, insert_entry_lem, own_entry, IsTable-inserted}
use goshkik_os.Prelude.{
  ℕ, ◌%◌, ◌<◌, ◌≡◌, refl, sym, fun_ext, subst, ◌≢◌, ◌⊎◌, inl, inr, false, none, some, List, [], ◌∷◌,
  ◌++◌, arith, ◌==◌, if◌then◌else◌, ==_iff, ne→==, ==_false, Bool-cases, length, get_or,
}

-- the next entry that slab_alloc returns is not in use
abbrev pub IsFresh : World → Type 0
IsFresh w = get_or w.slabs 0 0 ≢ 0 → w.cells (get_or w.slabs 0 0) ≡ none

-- What a call of hashtable_set may come to: the map with the key at the value; or -1, the map as it was,
-- when the key is new and an allocator has nothing.
abbrev pub Stored : World → (ℕ → List Node) → List ℕ → ℕ → ℤ → World → Type 0
Stored w cs key v r w' =
    (cs' : ℕ → List Node) × IsTable w' cs'
    × (w'.table.capacity ≡ w.table.capacity)
    × (((r ≡ pos 0)
          × ((k : List ℕ)
              → view cs' w.table.capacity k
                ≡ (if same_bytes key k then some v else view cs w.table.capacity k)))
        ⊎ ((r ≡ negsuc 0)
            × (view cs w.table.capacity key ≡ none)
            × ((get_or w.slabs 0 0 ≡ 0) ⊎ (get_or w.keys 0 0 ≡ 0))
            × ((k : List ℕ) → view cs' w.table.capacity k ≡ view cs w.table.capacity k)))

rest : List Ptr → List Ptr
rest [] = []
rest (p ∷ ps) = ps

slab_alloc_lem :
    (w : World) → slab_alloc w ≡ done (get_or w.slabs 0 0) (record w { slabs = rest w.slabs })
unfolding slab_alloc rest
slab_alloc_lem w = go w.slabs refl
  where
    go :
        (l : List Ptr)
        → w.slabs ≡ l
        → slab_alloc w ≡ done (get_or w.slabs 0 0) (record w { slabs = rest w.slabs })
    go [] e = rw (e)
    go (p ∷ ps) e = rw (e)

kmalloc_key_lem :
    (w : World) → kmalloc_key w ≡ done (get_or w.keys 0 0) (record w { keys = rest w.keys })
unfolding kmalloc_key rest
kmalloc_key_lem w = go w.keys refl
  where
    go :
        (l : List Ptr)
        → w.keys ≡ l
        → kmalloc_key w ≡ done (get_or w.keys 0 0) (record w { keys = rest w.keys })
    go [] e = rw (e)
    go (p ∷ ps) e = rw (e)

update-none : (h : Cells) (q : Ptr) → h q ≡ none → update h q none ≡ h
update-none h q free = fun_ext (λ a. elim (Bool-cases (q == a)) [
  | inl e ↦ rw (e) (sym (subst (λ x. h x ≡ none) ((==_iff q a).0 e) free))
  | inr e ↦ rw (e) refl
])

module _ (w : World) (cs : ℕ → List Node) (t : IsTable w cs) (fuel : ℕ) (key : List ℕ) (v : ℕ)
    (enough : length (cs (fnv1ahash key % w.table.capacity)) < fuel) where
  -- the key is in the table
  set_present :
      (us : List Node) (n : Node) (vs : List Node)
      → IsSplit key (cs (fnv1ahash key % w.table.capacity)) us n vs
      → Returns (hashtable_set fuel v key w) (Stored w cs key v)
  unfolding hashtable_set store
  set_present us n vs (split, bytes, at, found) =
      let j = fnv1ahash key % w.table.capacity in
      let ch = t.2 j (omega (arith, t.0)) in
      let ch1 =
        subst (λ l. IsChain w.table.capacity j w.cells (get_or w.table.entries j 0) l) split ch in
      let (e, nz, eq, o, ch2) = IsChain-replaced n v vs w.table.capacity j w.cells _ us ch1 in
      let ns = us ++ record n { value = v } ∷ vs in
      let w1 = record w { cells = update w.cells n.at (some (record e { value = v })) } in
      (
        pos 0,
        w1,
        rw (get_entry_lem w cs t fuel key enough, at, ne→== n.at 0 nz, load-at n.at e w nz eq),
        (
          update cs j ns,
          IsTable-update j w w1 cs ns t (Frame-store j w n.at _ (own_entry j w n.at e eq o)) ch2,
          refl,
          inl (
            refl,
            view-update cs w.table.capacity key ns (some v) (λ k.
                subst
                  (λ b. find_value k ns ≡ (if same_bytes b k then some v else find_value k (cs j)))
                  bytes
                  (subst
                    (λ l.
                      find_value k ns ≡ (if same_bytes n.bytes k then some v else find_value k l))
                    (sym split)
                    (find_value-replaced k us n v vs (UniqueKeys-split us n vs ch1.3).0))),
          ),
        ),
      )

  -- the key is new, and both allocators have memory
  set_fresh :
      find_at key (cs (fnv1ahash key % w.table.capacity)) ≡ 0
      → has_key key (cs (fnv1ahash key % w.table.capacity)) ≡ false
      → IsFresh w
      → get_or w.slabs 0 0 ≢ 0
      → get_or w.keys 0 0 ≢ 0
      → Returns (hashtable_set fuel v key w) (Stored w cs key v)
  unfolding hashtable_set
  set_fresh at absent fresh nz nz' =
      let j = fnv1ahash key % w.table.capacity in
      let n : Node = record {
        at = get_or w.slabs 0 0;
        key = get_or w.keys 0 0;
        bytes = key;
        value = v;
      } in
      let w1 = record w { slabs = rest w.slabs; keys = rest w.keys } in
      (
        pos 0,
        inserted w1 n (cs j),
        rw
            (
              get_entry_lem w cs t fuel key enough,
              at,
              slab_alloc_lem w,
              ne→== (get_or w.slabs 0 0) 0 nz,
              kmalloc_key_lem (record w { slabs = rest w.slabs }),
              ne→== (get_or w.keys 0 0) 0 nz',
            )
            (insert_entry_lem w1 n (cs j) (bucket_lem w1 cs t (fnv1ahash key))
              (t.2 j (omega (arith, t.0))) (fresh nz)),
        (
          update cs j (n ∷ cs j),
          IsTable-inserted w1 cs n t (fresh nz) nz absent,
          refl,
          inl (refl, view-update cs w.table.capacity key (n ∷ cs j) (some v) (λ k. refl)),
        ),
      )

  set_failing :
      find_at key (cs (fnv1ahash key % w.table.capacity)) ≡ 0
      → find_value key (cs (fnv1ahash key % w.table.capacity)) ≡ none
      → IsFresh w
      → (get_or w.slabs 0 0 ≡ 0) ⊎ (get_or w.keys 0 0 ≡ 0)
      → Returns (hashtable_set fuel v key w) (Stored w cs key v)
  unfolding hashtable_set slab_free
  set_failing at absent fresh short =
      let q = get_or w.slabs 0 0 in
      elim (Bool-cases (q == 0)) [
        | inl e ↦
            let q0 = (==_iff q 0).0 e in
            (
              negsuc 0,
              record w { slabs = rest w.slabs },
              rw (get_entry_lem w cs t fuel key enough, at, slab_alloc_lem w, q0),
              (cs, t, refl, inr (refl, absent, short, λ k. refl)),
            )
        | inr e ↦
            let nz = ==_false q 0 e in
            let k0 : get_or w.keys 0 0 ≡ 0 = elim short [ inl z ↦ absurd (nz z) | inr z ↦ z ] in
            let w1 = record w {
              slabs = rest w.slabs;
              keys = rest w.keys;
              freed_slabs = q ∷ w.freed_slabs;
            } in
            (
              negsuc 0,
              record w1 { cells = update w.cells q none },
              rw (
                get_entry_lem w cs t fuel key enough,
                at,
                slab_alloc_lem w,
                e,
                kmalloc_key_lem (record w { slabs = rest w.slabs }),
                k0,
              ),
              (
                cs,
                subst (λ c. IsTable (record w1 { cells = c }) cs)
                    (sym (update-none w.cells q (fresh nz))) t,
                refl,
                inr (refl, absent, short, λ k. refl),
              ),
            )
      ]

  -- hashtable_set returns. The map then has the key at the value and every other key as before; or the
  -- call returns -1, when the key is new and an allocator has no memory, with the map as before.
  pub hashtable_set_lem : IsFresh w → Returns (hashtable_set fuel v key w) (Stored w cs key v)
  hashtable_set_lem fresh = elim (search_lem key (cs (fnv1ahash key % w.table.capacity))) [
    | inl (at, absent, missing) ↦ elim (Bool-cases (get_or w.slabs 0 0 == 0)) [
      | inl e ↦ set_failing at missing fresh (inl ((==_iff _ 0).0 e))
      | inr e ↦ elim (Bool-cases (get_or w.keys 0 0 == 0)) [
        | inl e' ↦ set_failing at missing fresh (inr ((==_iff _ 0).0 e'))
        | inr e' ↦ set_fresh at absent fresh (==_false _ 0 e) (==_false _ 0 e')
      ]
    ]
    | inr (us, n, vs, split) ↦ set_present us n vs split
  ]
