-- ===== src/Klibc/Hashtable/Update.antt =====
-- A change of the map at one key, and the value of an entry that is there.
use goshkik_os.Prelude.Memory.{Ptr, update, update_other}
use goshkik_os.Klibc.Hashtable.{Entry, World, fnv1ahash, same_bytes}
use goshkik_os.Klibc.Hashtable.Chain.{
  Node, Cells, entry_of, first, stands, Distinct, Links-update, Links-join, stands-append,
}
use goshkik_os.Klibc.Hashtable.Keys.{
  same_bytes_iff, has_key, find_value, UniqueKeys, Placed, has_key-append, Placed-append,
}
use goshkik_os.Klibc.Hashtable.Table.{IsChain, view, Frame}
use goshkik_os.Klibc.Hashtable.Lookup.{Links-at}
use goshkik_os.Prelude.{
  ℕ, ◌%◌, ◌≡◌, refl, sym, ap, ◌∙◌, ◌≢◌, inl, inr, false, Option, some, List, [], ◌∷◌, ◌++◌, arith,
  ◌==◌, if◌then◌else◌, ==_iff, ==_refl, ==_false, Bool-cases,
}

-- bucket j takes other nodes: the view changes at one key when the bucket does
pub view-update :
    (cs : ℕ → List Node) (cap : ℕ) (key : List ℕ) (ns : List Node) (r : Option ℕ)
    → ((k : List ℕ)
        → find_value k ns
          ≡ (if same_bytes key k then r else find_value k (cs (fnv1ahash key % cap))))
    → (k : List ℕ)
    → view (update cs (fnv1ahash key % cap) ns) cap k
      ≡ (if same_bytes key k then r else view cs cap k)
view-update cs cap key ns r change k =
    elim (Bool-cases (fnv1ahash key % cap == fnv1ahash k % cap)) [
      | inl e ↦ rw (e) (
          change k
          ∙ ap (λ j. if same_bytes key k then r else find_value k (cs j)) ((==_iff _ _).0 e))
      | inr e ↦ elim (Bool-cases (same_bytes key k)) [
        | inl s ↦ absurd (==_false _ _ e (ap (λ x. fnv1ahash x % cap) ((same_bytes_iff key k).0 s)))
        | inr s ↦ rw (e, s)
      ]
    ]

-- a write into a cell of bucket j, or into one where no entry stands
pub Frame-store :
    (j : ℕ) (w : World) (p : Ptr) (v : Option Entry)
    → ((e : Entry) → w.cells p ≡ some e → e.hash % w.table.capacity ≡ j)
    → Frame j w (record w { cells = update w.cells p v })
Frame-store j w p v own = (
  refl,
  refl,
  λ i ne. refl,
  λ a e h ne. update_other w.cells p v a (λ z. ne (own e (ap w.cells z ∙ h))),
)

module _ (n : Node) (v : ℕ) (vs : List Node) where
  stands-replaced :
      (a : Ptr) (us : List Node)
      → stands a (us ++ record n { value = v } ∷ vs) ≡ stands a (us ++ n ∷ vs)
  stands-replaced a us = stands-append a us _ ∙ sym (stands-append a us _)

  has_key-replaced :
      (k : List ℕ) (us : List Node)
      → has_key k (us ++ record n { value = v } ∷ vs) ≡ has_key k (us ++ n ∷ vs)
  has_key-replaced k us = has_key-append k us _ ∙ sym (has_key-append k us _)

  Distinct-replaced :
      (us : List Node) → Distinct (us ++ n ∷ vs) → Distinct (us ++ record n { value = v } ∷ vs)
  Distinct-replaced [] d = d
  Distinct-replaced (u ∷ us) d = (stands-replaced u.at us ∙ d.0, Distinct-replaced us d.1)

  UniqueKeys-replaced :
      (us : List Node) → UniqueKeys (us ++ n ∷ vs) → UniqueKeys (us ++ record n { value = v } ∷ vs)
  UniqueKeys-replaced [] d = d
  UniqueKeys-replaced (u ∷ us) d = (has_key-replaced u.bytes us ∙ d.0, UniqueKeys-replaced us d.1)

  Placed-replaced :
      (cap j : ℕ) (us : List Node)
      → Placed cap j (us ++ n ∷ vs)
      → Placed cap j (us ++ record n { value = v } ∷ vs)
  Placed-replaced cap j [] d = d
  Placed-replaced cap j (u ∷ us) d = (d.0, Placed-replaced cap j us d.1)

  -- the node stands in no other place of its chain
  pub Distinct-at :
      (us : List Node)
      → Distinct (us ++ n ∷ vs)
      → (stands n.at us ≡ false) × (stands n.at vs ≡ false)
  Distinct-at [] d = (refl, d.0)
  Distinct-at (u ∷ us) d =
      let (a, b) = Distinct-at us d.1 in (ground (arith, stands-append u.at us (n ∷ vs)), b)

  pub IsChain-replaced :
      (cap j : ℕ) (h : Cells) (p : Ptr) (us : List Node)
      → IsChain cap j h p (us ++ n ∷ vs)
      → (e : Entry) × (n.at ≢ 0)
        × (h n.at ≡ some e)
        × (e.hash % cap ≡ j)
        × IsChain cap j
            (update h n.at (some (record e { value = v })))
            p
            (us ++ record n { value = v } ∷ vs)
  IsChain-replaced cap j h p us (out, l, d, u, pl) =
      let (mid, l1, nz, eq, l2) = Links-at h p us n vs out l in
      let (f1, f2) = Distinct-at us d in
      (
        entry_of (first vs 0) mid n,
        nz,
        eq,
        (Placed-append cap j us (n ∷ vs) pl).1.0,
        (
          out,
          Links-join _ 0 p us (record n { value = v } ∷ vs) 0 mid out
              (Links-update h n.at _ 0 p us n.at mid f1 l1)
              (refl, nz, rw (==_refl n.at), Links-update h n.at _ n.at (first vs 0) vs 0 out f2 l2),
          Distinct-replaced us d,
          UniqueKeys-replaced us u,
          Placed-replaced cap j us pl,
        ),
      )
