-- ===== src/Klibc/Hashtable/Table.antt =====
-- A table as one list of nodes for each bucket, what a change of one bucket leaves alone, and the search.
use goshkik_os.Prelude.Memory.{Ptr, update, update_same, update_other}
use goshkik_os.Prelude.Run.{done}
use goshkik_os.Klibc.Hashtable.{
  Entry, World, load, fnv1ahash, same_bytes, is_entry, find_entry, bucket, get_entry,
}
use goshkik_os.Klibc.Hashtable.Chain.{Node, Cells, entry_of, first, Links, Distinct}
use goshkik_os.Klibc.Hashtable.Keys.{
  same_bytes_iff, same_bytes_refl, find_value, UniqueKeys, Placed,
}
use goshkik_os.Prelude.{
  get_elem?-get_or, ℕ, zero, suc, ◌%◌, ◌<◌, ◌≡◌, refl, sym, ap, ◌∙◌, subst, subst₂, ◌≢◌, inl, inr,
  Option, some, List, [], ◌∷◌, arith, ◌==◌, if◌then◌else◌, ==_iff, ==_refl, ne→==, ==_false,
  Bool-cases, length, get_or,
}

-- the nodes of bucket j, whose list begins at `p`
abbrev pub IsChain : ℕ → ℕ → Cells → Ptr → List Node → Type 0
IsChain cap j h p ns =
    (out : Ptr) × Links h 0 p ns 0 out × Distinct ns × UniqueKeys ns × Placed cap j ns

abbrev pub IsTable : World → (ℕ → List Node) → Type 0
IsTable w cs =
    (0 < w.table.capacity)
    × (length w.table.entries ≡ w.table.capacity)
    × ((j : ℕ)
        → j < w.table.capacity
        → IsChain w.table.capacity j w.cells (get_or w.table.entries j 0) (cs j))

-- the map that a table stands for
abbrev pub view : (ℕ → List Node) → ℕ → List ℕ → Option ℕ
view cs cap key = find_value key (cs (fnv1ahash key % cap))

-- only bucket j and entries of bucket j change
abbrev pub Frame : ℕ → World → World → Type 0
Frame j w w' =
    (w'.table.capacity ≡ w.table.capacity)
    × (length w'.table.entries ≡ length w.table.entries)
    × ((i : ℕ) → i ≢ j → get_or w'.table.entries i 0 ≡ get_or w.table.entries i 0)
    × ((a : Ptr) (e : Entry)
        → w.cells a ≡ some e
        → e.hash % w.table.capacity ≢ j
        → w'.cells a ≡ w.cells a)

pub Frame-refl : (j : ℕ) (w : World) → Frame j w w
Frame-refl j w = (refl, refl, λ i ne. refl, λ a e h ne. refl)

pub Frame-trans : (j : ℕ) (w w' w'' : World) → Frame j w w' → Frame j w' w'' → Frame j w w''
Frame-trans j w w' w'' (c, l, o, s) (c', l', o', s') = (
  c' ∙ c,
  l' ∙ l,
  λ i ne. o' i ne ∙ o i ne,
  λ a e h ne. s' a e (s a e h ne ∙ h) (λ z. ne (ap (λ m. e.hash % m) (sym c) ∙ z)) ∙ s a e h ne,
)

pub Links-kept :
    (cap i j : ℕ) (h h' : Cells)
    → i ≢ j
    → ((a : Ptr) (e : Entry) → h a ≡ some e → e.hash % cap ≢ j → h' a ≡ h a)
    → (prev p : Ptr) (ns : List Node) (q out : Ptr) → Placed cap i ns
    → Links h prev p ns q out
    → Links h' prev p ns q out
Links-kept cap i j h h' ne s prev p [] q out pl l = l
Links-kept cap i j h h' ne s prev p (n ∷ ns) q out (pn, pl) (e, nz, eq, l) = (
  e,
  nz,
  s n.at _ eq (λ z. ne (sym pn ∙ z)) ∙ eq,
  Links-kept cap i j h h' ne s n.at (first ns q) ns q out pl l,
)

-- a change of bucket j leaves a table when bucket j is a chain again
pub IsTable-update :
    (j : ℕ) (w w' : World) (cs : ℕ → List Node) (ns : List Node)
    → IsTable w cs
    → Frame j w w'
    → IsChain w'.table.capacity j w'.cells (get_or w'.table.entries j 0) ns
    → IsTable w' (update cs j ns)
IsTable-update j w w' cs ns (pos_cap, len, chains) (c, l, o, s) new = (
  subst (λ m. 0 < m) (sym c) pos_cap,
  l ∙ len ∙ sym c,
  λ i small. elim (Bool-cases (j == i)) [
    | inl e ↦
        subst
          (λ k.
            IsChain w'.table.capacity k w'.cells (get_or w'.table.entries k 0) (update cs j ns k))
          ((==_iff j i).0 e)
          (subst (λ x. IsChain w'.table.capacity j w'.cells (get_or w'.table.entries j 0) x)
            (sym (update_same cs j ns)) new)
    | inr e ↦
        let (out, k, d, u, pl) = chains i (subst (λ m. i < m) c small) in
        subst (λ m. IsChain m i w'.cells (get_or w'.table.entries i 0) (update cs j ns i)) (sym c)
          (subst₂ (λ p x. IsChain w.table.capacity i w'.cells p x)
            (sym (o i (λ z. ==_false j i e (sym z))))
            (sym (update_other cs j ns i (==_false j i e)))
            (
              out,
              Links-kept w.table.capacity i j w.cells w'.cells (λ z. ==_false j i e (sym z)) s 0 _
                  (cs i) 0 out pl k,
              d,
              u,
              pl,
            ))
  ],
)

-- where the first node with the key stands, or 0
abbrev pub find_at : List ℕ → List Node → Ptr
find_at key [] = 0
find_at key (n ∷ ns) = if same_bytes n.bytes key then n.at else find_at key ns

pub is_entry-entry_of :
    (next prev : Ptr) (n : Node) (key : List ℕ)
    → is_entry (entry_of next prev n) key (fnv1ahash key) ≡ same_bytes n.bytes key
is_entry-entry_of next prev n key = elim (Bool-cases (same_bytes n.bytes key)) [
  | inl e ↦
      let same = (same_bytes_iff n.bytes key).0 e in
      subst (λ k. is_entry (entry_of next prev n) k (fnv1ahash k) ≡ same_bytes n.bytes k) same
        (rw (==_refl (length n.bytes), ==_refl (fnv1ahash n.bytes), same_bytes_refl n.bytes))
  | inr e ↦ ground arith
]

pub load-at : (p : Ptr) (e : Entry) (w : World) → p ≢ 0 → w.cells p ≡ some e → load p w ≡ done e w
unfolding load
load-at p e w nz eq = rw (ne→== p 0 nz, eq)

pub find_entry_lem :
    (fuel : ℕ) (key : List ℕ) (w : World) (prev p : Ptr) (ns : List Node) (out : Ptr)
    → Links w.cells prev p ns 0 out
    → length ns < fuel
    → find_entry fuel key (fnv1ahash key) p w ≡ done (find_at key ns) w
unfolding find_entry load
find_entry_lem zero key w prev p ns out l small = absurd (omega arith)
find_entry_lem (suc f) key w prev p [] out (e, e') small = rw (e)
find_entry_lem (suc f) key w prev p (n ∷ ns) out (e, nz, eq, l) small =
    elim (Bool-cases (same_bytes n.bytes key)) [
      | inl same ↦ rw (
        e,
        ne→== n.at 0 nz,
        load-at n.at _ w nz eq,
        is_entry-entry_of (first ns 0) prev n key,
        same,
      )
      | inr other ↦
          rw
            (
              e,
              ne→== n.at 0 nz,
              load-at n.at _ w nz eq,
              is_entry-entry_of (first ns 0) prev n key,
              other,
            )
            (find_entry_lem f key w n.at (first ns 0) ns out l (omega arith))
    ]

module _ (w : World) (cs : ℕ → List Node) (t : IsTable w cs) where
  pub bucket_lem :
      (hash : ℕ) → bucket hash w ≡ done (get_or w.table.entries (hash % w.table.capacity) 0) w
  unfolding bucket
  bucket_lem hash =
      let (pos_cap, len, chains) = t in
      rw (
        ne→== w.table.capacity 0 (λ e. ground arith),
        get_elem?-get_or w.table.entries (hash % w.table.capacity) 0 (omega (arith, len)),
      )

  pub get_entry_lem :
      (fuel : ℕ) (key : List ℕ)
      → length (cs (fnv1ahash key % w.table.capacity)) < fuel
      → get_entry fuel key (fnv1ahash key) w
        ≡ done (find_at key (cs (fnv1ahash key % w.table.capacity))) w
  unfolding get_entry
  get_entry_lem fuel key enough =
      let (pos_cap, len, chains) = t in
      let (out, l, d, u, pl) = chains (fnv1ahash key % w.table.capacity) (omega arith) in
      rw (bucket_lem (fnv1ahash key)) (find_entry_lem fuel key w 0 _ _ out l enough)
