-- ===== src/Klibc/Hashtable/Lookup.antt =====
-- What hashtable_get returns, and the node that a search finds.
use goshkik_os.Prelude.Memory.{Ptr}
use goshkik_os.Prelude.Run.{done}
use goshkik_os.Prelude.Int.{pos, negsuc}
use goshkik_os.Klibc.Hashtable.{World, fnv1ahash, same_bytes, hashtable_get}
use goshkik_os.Klibc.Hashtable.Chain.{Node, Cells, entry_of, first, Links, Links-split}
use goshkik_os.Klibc.Hashtable.Keys.{same_bytes_iff, has_key, find_value}
use goshkik_os.Klibc.Hashtable.Table.{IsTable, view, find_at, load-at, get_entry_lem}
use goshkik_os.Prelude.{
  ℕ, ◌%◌, ◌<◌, ◌≡◌, refl, ap, subst, ◌≢◌, ◌⊎◌, inl, inr, false, none, some, List, [], ◌∷◌, ◌++◌,
  arith, ne→==, Bool-cases, length, get_or,
}

-- the node with the key stands between `us` and `vs`
abbrev pub IsSplit : List ℕ → List Node → List Node → Node → List Node → Type 0
IsSplit key ns us n vs =
    (ns ≡ us ++ n ∷ vs)
    × (n.bytes ≡ key)
    × (find_at key ns ≡ n.at)
    × (find_value key ns ≡ some n.value)

abbrev pub Search : List ℕ → List Node → Type 0
Search key ns =
    ((find_at key ns ≡ 0) × (has_key key ns ≡ false) × (find_value key ns ≡ none))
    ⊎ ((us : List Node) × (n : Node) × (vs : List Node) × IsSplit key ns us n vs)

pub search_lem : (key : List ℕ) (ns : List Node) → Search key ns
search_lem key [] = inl (refl, refl, refl)
search_lem key (n ∷ ns) = elim (Bool-cases (same_bytes n.bytes key)) [
  | inl e ↦ inr ([], n, ns, (refl, (same_bytes_iff n.bytes key).0 e, rw (e), rw (e)))
  | inr e ↦ elim (search_lem key ns) [
    | inl (a, b, c) ↦ inl (rw (e) a, rw (e) b, rw (e) c)
    | inr (us, m, vs, (a, b, c, d)) ↦
        inr (n ∷ us, m, vs, (ap (λ l. n ∷ l) a, b, rw (e) c, rw (e) d))
  ]
]

-- the cell of one node, and the links on both sides of it
pub Links-at :
    (h : Cells) (p : Ptr) (us : List Node) (n : Node) (vs : List Node) (out : Ptr)
    → Links h 0 p (us ++ n ∷ vs) 0 out
    → (mid : Ptr) × Links h 0 p us n.at mid
      × (n.at ≢ 0)
      × (h n.at ≡ some (entry_of (first vs 0) mid n))
      × Links h n.at (first vs 0) vs 0 out
Links-at h p us n vs out l =
    let (mid, l1, (e, nz, eq, l2)) = Links-split h 0 p us (n ∷ vs) 0 out l in (mid, l1, nz, eq, l2)

-- hashtable_get returns what the table maps the key to, and changes nothing.
pub hashtable_get_lem :
    (w : World) (cs : ℕ → List Node)
    → IsTable w cs
    → (fuel : ℕ) (key : List ℕ) → length (cs (fnv1ahash key % w.table.capacity)) < fuel
    → hashtable_get fuel key w
      ≡ done
          (elim (view cs w.table.capacity key) [
            | none ↦ (negsuc 0, none)
            | some v ↦ (pos 0, some v)
          ])
          w
unfolding hashtable_get
hashtable_get_lem w cs t fuel key enough =
    let (out, l, d, u, pl) = t.2 (fnv1ahash key % w.table.capacity) (omega (arith, t.0)) in
    elim (search_lem key (cs (fnv1ahash key % w.table.capacity))) [
      | inl (a, b, c) ↦ rw (get_entry_lem w cs t fuel key enough, a, c)
      | inr (us, n, vs, (a, b, c, v)) ↦
          let (mid, l1, nz, eq, l2) = Links-at w.cells _ us n vs out (
            subst
              (λ x.
                Links w.cells 0 (get_or w.table.entries (fnv1ahash key % w.table.capacity) 0) x 0
                  out)
              a l) in
          rw (get_entry_lem w cs t fuel key enough, c, ne→== n.at 0 nz, load-at n.at _ w nz eq, v)
    ]
