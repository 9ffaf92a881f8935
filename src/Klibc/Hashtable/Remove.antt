-- ===== src/Klibc/Hashtable/Remove.antt =====
-- hashtable_remove against the map that a table stands for.
use goshkik_os.Prelude.Memory.{Ptr, update}
use goshkik_os.Prelude.Run.{pure, Returns}
use goshkik_os.Prelude.Int.{ℤ, pos, negsuc}
use goshkik_os.Klibc.Hashtable.{
  Entry, World, set_prev, slab_free, kfree_key, unlink_entry, fnv1ahash, same_bytes,
  hashtable_remove,
}
use goshkik_os.Klibc.Hashtable.Chain.{
  Node, entry_of, first, Links, stands, Distinct, Links-update, Links-join, stands-append,
  Distinct-append,
}
use goshkik_os.Klibc.Hashtable.Keys.{
  same_bytes_iff, find_value, UniqueKeys, Placed, UniqueKeys-split, find_value-removed,
  Placed-append, Placed-join,
}
use goshkik_os.Klibc.Hashtable.Table.{
  IsChain, IsTable, view, Frame, Frame-trans, IsTable-update, find_at, load-at, get_entry_lem,
}
use goshkik_os.Klibc.Hashtable.Lookup.{IsSplit, search_lem, Links-at}
use goshkik_os.Klibc.Hashtable.Update.{view-update, Distinct-at}
use goshkik_os.Klibc.Hashtable.Unlink.{LeftDone, unlink_left, unlink_right, Frame-store_on}
use goshkik_os.Prelude.{
  ℕ, ◌+◌, ◌-◌, ◌%◌, ◌^◌, ◌<◌, ◌≡◌, refl, sym, subst, ◌≢◌, inl, inr, true, false, none, some, List,
  [], ◌∷◌, ◌++◌, arith, ◌==◌, if◌then◌else◌, ne→==, Bool-cases, length, get_or,
}

Distinct-without :
    (us : List Node) (n : Node) (vs : List Node) → Distinct (us ++ n ∷ vs) → Distinct (us ++ vs)
Distinct-without [] n vs d = d.1
Distinct-without (u ∷ us) n vs d = (
  ground (arith, stands-append u.at us (n ∷ vs), stands-append u.at us vs),
  Distinct-without us n vs d.1,
)

apart_behind :
    (us : List Node) (n : Node) (vs : List Node)
    → Distinct (us ++ n ∷ vs)
    → (a : Ptr) → stands a us ≡ true
    → stands a vs ≡ false
apart_behind us n vs d a s = ground (arith, (Distinct-append us (n ∷ vs) d).2 a s)

-- the node is out of its chain, whatever then stands at its address
Unlinked : World → ℕ → List Node → Node → List Node → Unit {0} → World → Type 0
Unlinked w j us n vs u w' =
    Frame j w w'
    × IsChain w.table.capacity j (update w'.cells n.at none) (get_or w'.table.entries j 0)
        (us ++ vs)

module _ (w : World) (hash : ℕ) (us : List Node) (n : Node) (vs : List Node) where
  unlink_right_lem :
      (mid out : Ptr) (w1 : World)
      → Distinct (us ++ n ∷ vs)
      → UniqueKeys (us ++ n ∷ vs)
      → Placed w.table.capacity (hash % w.table.capacity) (us ++ n ∷ vs)
      → LeftDone w hash us vs n.at mid out tt w1
      → Returns
          ((if first vs 0 == 0 then pure tt else set_prev (first vs 0) mid) w1)
          (Unlinked w (hash % w.table.capacity) us n vs)
  unfolding Unlinked
  unlink_right_lem mid out w1 d u pl (fr1, k1, k2) =
      let j = hash % w.table.capacity in
      let (f1, f2) = Distinct-at n 0 vs us d in
      let (pu, pv) = Placed-append w.table.capacity j us (n ∷ vs) pl in
      let pv' = subst (λ m. Placed m j vs) (sym fr1.0) pv.1 in
      let (_, w2, run, (fr2, tab, m1, (out', m2))) =
        unlink_right j w1 _ us vs n.at mid out k1 k2 pv' (Distinct-append us (n ∷ vs) d).1.1
          (apart_behind us n vs d) in
      (
        tt,
        w2,
        run,
        (
          Frame-trans j w w1 w2 fr1 fr2,
          (
            out',
            Links-join (update w2.cells n.at none) 0 _ us vs 0 mid out'
                (Links-update w2.cells n.at none 0 _ us (first vs 0) mid f1 (
                  subst (λ tb. Links w2.cells 0 (get_or tb.entries j 0) us (first vs 0) mid)
                    (sym tab) m1))
                (Links-update w2.cells n.at none mid (first vs 0) vs 0 out' f2 m2),
            Distinct-without us n vs d,
            (UniqueKeys-split us n vs u).2,
            Placed-join w.table.capacity j us vs pu pv.1,
          ),
        ),
      )

  unlink_entry_lem :
      hash % w.table.capacity < length w.table.entries
      → IsChain w.table.capacity
          (hash % w.table.capacity)
          w.cells
          (get_or w.table.entries (hash % w.table.capacity) 0)
          (us ++ n ∷ vs)
      → (e : Entry) × (n.at ≢ 0)
        × (w.cells n.at ≡ some e)
        × (e.hash % w.table.capacity ≡ hash % w.table.capacity)
        × Returns (unlink_entry hash e w) (Unlinked w (hash % w.table.capacity) us n vs)
  unfolding unlink_entry
  unlink_entry_lem small (out, l, d, u, pl) =
      let j = hash % w.table.capacity in
      let (mid, l1, nz, eq, l2) = Links-at w.cells _ us n vs out l in
      let (pu, pv) = Placed-append w.table.capacity j us (n ∷ vs) pl in
      let (_, w1, run1, left) =
        unlink_left w hash us vs n.at mid out small l1 l2 pu (Distinct-append us (n ∷ vs) d).0
          (apart_behind us n vs d) in
      let (_, w2, run2, right) = unlink_right_lem mid out w1 d u pl left in
      (entry_of (first vs 0) mid n, nz, eq, pv.0, (tt, w2, rw (run1) run2, right))

-- What a call of hashtable_remove comes to: 0 when the key was there and -1 when not; in both cases the
-- map is as before less the key.
abbrev pub Removed : World → (ℕ → List Node) → List ℕ → ℤ → World → Type 0
Removed w cs key r w' =
    (cs' : ℕ → List Node) × IsTable w' cs'
    × (w'.table.capacity ≡ w.table.capacity)
    × (r ≡ elim (view cs w.table.capacity key) [ none ↦ negsuc 0 | some v ↦ pos 0 ])
    × ((k : List ℕ)
        → view cs' w.table.capacity k
          ≡ (if same_bytes key k then none else view cs w.table.capacity k))

module _ (w : World) (cs : ℕ → List Node) (t : IsTable w cs) (fuel : ℕ) (key : List ℕ)
    (enough : length (cs (fnv1ahash key % w.table.capacity)) < fuel) where
  remove_absent :
      find_at key (cs (fnv1ahash key % w.table.capacity)) ≡ 0
      → find_value key (cs (fnv1ahash key % w.table.capacity)) ≡ none
      → Returns (hashtable_remove fuel key w) (Removed w cs key)
  unfolding hashtable_remove
  remove_absent at absent = (
    negsuc 0,
    w,
    rw (get_entry_lem w cs t fuel key enough, at),
    (
      cs,
      t,
      refl,
      rw (absent),
      λ k. elim (Bool-cases (same_bytes key k)) [
        | inl e ↦
            rw (e)
              (subst (λ x. view cs w.table.capacity x ≡ none) ((same_bytes_iff key k).0 e) absent)
        | inr e ↦ rw (e) refl
      ],
    ),
  )

  remove_present :
      (us : List Node) (n : Node) (vs : List Node)
      → IsSplit key (cs (fnv1ahash key % w.table.capacity)) us n vs
      → Returns (hashtable_remove fuel key w) (Removed w cs key)
  unfolding hashtable_remove kfree_key slab_free Unlinked
  remove_present us n vs (split, bytes, at, found) =
      let j = fnv1ahash key % w.table.capacity in
      let ch =
        subst (λ l. IsChain w.table.capacity j w.cells (get_or w.table.entries j 0) l) split
          (t.2 j (omega (arith, t.0))) in
      let (e, nz, eq, own, (_, w2, run, (fr, ch2))) =
        unlink_entry_lem w (fnv1ahash key) us n vs (omega (arith, t.0, t.1)) ch in
      let w3 = record w2 {
        cells = update w2.cells n.at none;
        freed_keys = e.key ∷ w2.freed_keys;
        freed_slabs = n.at ∷ w2.freed_slabs;
        table = record w2.table { entry_count = (w2.table.entry_count + 2 ^ 64 - 1) % 2 ^ 64 };
      } in
      let (f1, f2, _) = UniqueKeys-split us n vs ch.3 in
      (
        pos 0,
        w3,
        rw (get_entry_lem w cs t fuel key enough, at, ne→== n.at 0 nz, load-at n.at e w nz eq, run),
        (
          update cs j (us ++ vs),
          IsTable-update j w w3 cs (us ++ vs) t (Frame-store_on j w w2 n.at none e fr eq own) (
              subst (λ m. IsChain m j w3.cells (get_or w3.table.entries j 0) (us ++ vs)) (sym fr.0)
                ch2),
          fr.0,
          rw (found),
          view-update cs w.table.capacity key (us ++ vs) none (λ k.
              subst
                (λ b.
                  find_value k (us ++ vs) ≡ (if same_bytes b k then none else find_value k (cs j)))
                bytes
                (subst
                  (λ l.
                    find_value k (us ++ vs)
                    ≡ (if same_bytes n.bytes k then none else find_value k l))
                  (sym split) (find_value-removed k us n vs f1 f2))),
        ),
      )

  -- hashtable_remove returns: 0 when the key was in the table and -1 when not. The map is then as before
  -- less the key.
  pub hashtable_remove_lem : Returns (hashtable_remove fuel key w) (Removed w cs key)
  hashtable_remove_lem = elim (search_lem key (cs (fnv1ahash key % w.table.capacity))) [
    | inl (at, absent, missing) ↦ remove_absent at missing
    | inr (us, n, vs, split) ↦ remove_present us n vs split
  ]
