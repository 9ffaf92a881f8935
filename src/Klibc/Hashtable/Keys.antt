-- ===== src/Klibc/Hashtable/Keys.antt =====
-- Keys in the nodes of one bucket.
use goshkik_os.Klibc.Hashtable.{same_bytes, fnv1ahash}
use goshkik_os.Klibc.Hashtable.Chain.{Node}
use goshkik_os.Prelude.{
  ℕ, ◌%◌, ◌≡◌, refl, ◌↔◌, Bool, true, false, ◌||◌, Option, none, some, List, [], ◌∷◌, ◌++◌, arith,
  if◌then◌else◌,
}

pub same_bytes_iff : (xs ys : List ℕ) → (same_bytes xs ys ≡ true) ↔ (xs ≡ ys)
same_bytes_iff [] [] = (λ _. refl, λ _. refl)
same_bytes_iff [] (y ∷ ys) = (λ e. cc, λ e. cc)
same_bytes_iff (x ∷ xs) [] = (λ e. cc, λ e. cc)
same_bytes_iff (x ∷ xs) (y ∷ ys) = ground (arith, same_bytes_iff xs ys)

pub same_bytes_refl : (xs : List ℕ) → same_bytes xs xs ≡ true
same_bytes_refl xs = (same_bytes_iff xs xs).1 refl

abbrev pub has_key : List ℕ → List Node → Bool
has_key k [] = false
has_key k (n ∷ ns) = same_bytes n.bytes k || has_key k ns

abbrev pub find_value : List ℕ → List Node → Option ℕ
find_value k [] = none
find_value k (n ∷ ns) = if same_bytes n.bytes k then some n.value else find_value k ns

-- no two nodes have the same key
abbrev pub UniqueKeys : List Node → Type 0
UniqueKeys [] = Unit
UniqueKeys (n ∷ ns) = (has_key n.bytes ns ≡ false) × UniqueKeys ns

-- every key belongs to bucket j of `cap`
abbrev pub Placed : ℕ → ℕ → List Node → Type 0
Placed cap j [] = Unit
Placed cap j (n ∷ ns) = (fnv1ahash n.bytes % cap ≡ j) × Placed cap j ns

pub find_value-absent :
    (k : List ℕ) (ns : List Node) → has_key k ns ≡ false → find_value k ns ≡ none
find_value-absent k [] h = refl
find_value-absent k (n ∷ ns) h = ground (arith, find_value-absent k ns)

pub has_key-append :
    (k : List ℕ) (us vs : List Node) → has_key k (us ++ vs) ≡ (has_key k us || has_key k vs)
has_key-append k [] vs = refl
has_key-append k (u ∷ us) vs = ground (arith, has_key-append k us vs)

pub UniqueKeys-split :
    (us : List Node) (n : Node) (vs : List Node)
    → UniqueKeys (us ++ n ∷ vs)
    → (has_key n.bytes us ≡ false) × (has_key n.bytes vs ≡ false) × UniqueKeys (us ++ vs)
UniqueKeys-split [] n vs u = (refl, u.0, u.1)
UniqueKeys-split (m ∷ us) n vs u =
    let (a, b, c) = UniqueKeys-split us n vs u.1 in
    (
      ground (
        arith,
        has_key-append m.bytes us (n ∷ vs),
        same_bytes_iff n.bytes m.bytes,
        same_bytes_iff m.bytes n.bytes,
      ),
      b,
      (ground (arith, has_key-append m.bytes us (n ∷ vs), has_key-append m.bytes us vs), c),
    )

-- the value of one key is replaced
pub find_value-replaced :
    (k : List ℕ) (us : List Node) (n : Node) (v : ℕ) (vs : List Node)
    → has_key n.bytes us ≡ false
    → find_value k (us ++ record n { value = v } ∷ vs)
      ≡ (if same_bytes n.bytes k then some v else find_value k (us ++ n ∷ vs))
find_value-replaced k [] n v vs h = ground arith
find_value-replaced k (m ∷ us) n v vs h = ground (
  arith,
  find_value-replaced k us n v vs,
  same_bytes_iff m.bytes k,
  same_bytes_iff n.bytes k,
  same_bytes_iff m.bytes n.bytes,
)

-- one key is taken out
pub find_value-removed :
    (k : List ℕ) (us : List Node) (n : Node) (vs : List Node)
    → has_key n.bytes us ≡ false
    → has_key n.bytes vs ≡ false
    → find_value k (us ++ vs) ≡ (if same_bytes n.bytes k then none else find_value k (us ++ n ∷ vs))
find_value-removed k [] n vs h h' =
    ground (arith, find_value-absent n.bytes vs, same_bytes_iff n.bytes k)
find_value-removed k (m ∷ us) n vs h h' = ground (
  arith,
  find_value-removed k us n vs,
  same_bytes_iff m.bytes k,
  same_bytes_iff n.bytes k,
  same_bytes_iff m.bytes n.bytes,
)

pub Placed-append :
    (cap j : ℕ) (us vs : List Node) → Placed cap j (us ++ vs) → Placed cap j us × Placed cap j vs
Placed-append cap j [] vs p = (tt, p)
Placed-append cap j (u ∷ us) vs p = let (a, b) = Placed-append cap j us vs p.1 in ((p.0, a), b)

pub Placed-join :
    (cap j : ℕ) (us vs : List Node) → Placed cap j us → Placed cap j vs → Placed cap j (us ++ vs)
Placed-join cap j [] vs p q = q
Placed-join cap j (u ∷ us) vs p q = (p.0, Placed-join cap j us vs p.1 q)
