-- ===== src/Klibc/Hashtable/Chain.antt =====
-- The entries of one bucket as a list of nodes that are linked both ways.
use goshkik_os.Prelude.Memory.{Ptr, update, update_other}
use goshkik_os.Klibc.Hashtable.{Entry, fnv1ahash}
use goshkik_os.Prelude.{
  ℕ, ◌≡◌, refl, sym, ap, ◌∙◌, subst, subst₂, ◌≢◌, Bool, true, false, ◌||◌, Option, some, List, [],
  ◌∷◌, ◌++◌, arith, ◌==◌, ==_refl, length,
}

-- an entry without its links: where it stands, the copy of its key, the key and the value
pub record Node : Type 0 where
  pub at : Ptr
  pub key : Ptr
  pub bytes : List ℕ
  pub value : ℕ

abbrev pub Cells : Type 0
Cells = Ptr → Option Entry

abbrev pub entry_of : Ptr → Ptr → Node → Entry
entry_of next prev n = record {
  next = next;
  prev = prev;
  hash = fnv1ahash n.bytes;
  key_size = length n.bytes;
  key = n.key;
  bytes = n.bytes;
  value = n.value;
}

abbrev pub first : List Node → Ptr → Ptr
first [] q = q
first (n ∷ ns) q = n.at

-- from `p` the nodes follow, linked both ways, behind an entry at `prev`; the last links to `q` and
-- stands at `out`
abbrev pub Links : Cells → Ptr → Ptr → List Node → Ptr → Ptr → Type 0
Links h prev p [] q out = (p ≡ q) × (prev ≡ out)
Links h prev p (n ∷ ns) q out =
    (p ≡ n.at)
    × (n.at ≢ 0)
    × (h n.at ≡ some (entry_of (first ns q) prev n))
    × Links h n.at (first ns q) ns q out

-- some node stands at the address
abbrev pub stands : Ptr → List Node → Bool
stands a [] = false
stands a (n ∷ ns) = (a == n.at) || stands a ns

abbrev pub Distinct : List Node → Type 0
Distinct [] = Unit
Distinct (n ∷ ns) = (stands n.at ns ≡ false) × Distinct ns

pub Links-update :
    (h : Cells) (a : Ptr) (v : Option Entry) (prev p : Ptr) (ns : List Node) (q out : Ptr)
    → stands a ns ≡ false
    → Links h prev p ns q out
    → Links (update h a v) prev p ns q out
Links-update h a v prev p [] q out fresh l = l
Links-update h a v prev p (n ∷ ns) q out fresh (e, ne, eq, rest) =
    (e, ne, ground arith, Links-update h a v n.at (first ns q) ns q out (ground arith) rest)

pub first-append : (us vs : List Node) (q : Ptr) → first (us ++ vs) q ≡ first us (first vs q)
first-append [] vs q = refl
first-append (u ∷ us) vs q = refl

pub Links-split :
    (h : Cells) (prev p : Ptr) (us vs : List Node) (q out : Ptr)
    → Links h prev p (us ++ vs) q out
    → (mid : Ptr) × Links h prev p us (first vs q) mid × Links h mid (first vs q) vs q out
Links-split h prev p [] [] q out l = (prev, (l.0, refl), (refl, l.1))
Links-split h prev p [] (v ∷ vs) q out l = (prev, (l.0, refl), (refl, l.1, l.2, l.3))
Links-split h prev p (u ∷ us) vs q out (e, ne, eq, rest) =
    let (mid, l1, l2) = Links-split h u.at (first (us ++ vs) q) us vs q out rest in
    (
      mid,
      (
        e,
        ne,
        eq ∙ ap (λ m. some (entry_of m prev u)) (first-append us vs q),
        subst (λ m. Links h u.at m us (first vs q) mid) (first-append us vs q) l1,
      ),
      l2,
    )

pub Links-join :
    (h : Cells) (prev p : Ptr) (us vs : List Node) (q mid out : Ptr)
    → Links h prev p us (first vs q) mid
    → Links h mid (first vs q) vs q out
    → Links h prev p (us ++ vs) q out
Links-join h prev p [] vs q mid out (e, e') l =
    subst₂ (λ a b. Links h a b vs q out) (sym e') (sym e) l
Links-join h prev p (u ∷ us) vs q mid out (e, ne, eq, rest) l = (
  e,
  ne,
  eq ∙ ap (λ m. some (entry_of m prev u)) (sym (first-append us vs q)),
  subst (λ m. Links h u.at m (us ++ vs) q out) (sym (first-append us vs q))
      (Links-join h u.at (first us (first vs q)) us vs q mid out rest l),
)

true-ne-false : ◌≡◌ {A = Bool} true false → ⊥
true-ne-false e = cc

pub stands-ne : (a b : Ptr) (ns : List Node) → stands a ns ≡ true → stands b ns ≡ false → a ≢ b
stands-ne a b ns i out e = true-ne-false (sym i ∙ ap (λ x. stands x ns) e ∙ out)

-- the last node takes another `next`
pub Links-set_last :
    (h : Cells) (prev p : Ptr) (u : Node) (us : List Node) (q q' out : Ptr)
    → Links h prev p (u ∷ us) q out
    → Distinct (u ∷ us)
    → (e : Entry) × (h out ≡ some e)
      × (out ≢ 0)
      × (stands out (u ∷ us) ≡ true)
      × Links (update h out (some (record e { next = q' }))) prev p (u ∷ us) q' out
Links-set_last h prev p u [] q q' out (e, ne, eq, (e1, e2)) d = (
  entry_of q prev u,
  ap h (sym e2) ∙ eq,
  λ z. ne (e2 ∙ z),
  ground arith,
  (
    e,
    ne,
    subst (λ a. update h a (some (entry_of q' prev u)) u.at ≡ some (entry_of q' prev u)) e2
        (rw (==_refl u.at)),
    (refl, e2),
  ),
)
Links-set_last h prev p u (v ∷ vs) q q' out (e, ne, eq, rest) d =
    let (x, hx, nx, i, l) = Links-set_last h u.at v.at v vs q q' out rest d.1 in
    (
      x,
      hx,
      nx,
      ground arith,
      (e, ne, update_other h out _ u.at (stands-ne out u.at (v ∷ vs) i d.0) ∙ eq, l),
    )

-- the first node takes another `prev`
pub Links-set_first :
    (h : Cells) (prev prev' p : Ptr) (v : Node) (vs : List Node) (q out : Ptr)
    → Links h prev p (v ∷ vs) q out
    → Distinct (v ∷ vs)
    → Links (update h v.at (some (entry_of (first vs q) prev' v))) prev' p (v ∷ vs) q out
Links-set_first h prev prev' p v vs q out (e, ne, eq, rest) d =
    (e, ne, rw (==_refl v.at), Links-update h v.at _ v.at (first vs q) vs q out d.0 rest)

pub stands-append :
    (a : Ptr) (us vs : List Node) → stands a (us ++ vs) ≡ (stands a us || stands a vs)
stands-append a [] vs = refl
stands-append a (u ∷ us) vs = ground (arith, stands-append a us vs)

apart_cons :
    (a : Ptr) (u : Node) (us vs : List Node)
    → stands u.at (us ++ vs) ≡ false
    → ((b : Ptr) → stands b us ≡ true → stands b vs ≡ false)
    → stands a (u ∷ us) ≡ true
    → stands a vs ≡ false
apart_cons a u us vs fresh apart i = ground (arith, stands-append u.at us vs, apart a)

pub Distinct-append :
    (us vs : List Node)
    → Distinct (us ++ vs)
    → Distinct us × Distinct vs × ((a : Ptr) → stands a us ≡ true → stands a vs ≡ false)
Distinct-append [] vs d = (tt, d, λ a i. absurd (cc))
Distinct-append (u ∷ us) vs d =
    let (d1, d2, apart) = Distinct-append us vs d.1 in
    ((ground (arith, stands-append u.at us vs), d1), d2, λ a i. apart_cons a u us vs d.0 apart i)
