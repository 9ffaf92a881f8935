-- ===== src/Fs/Vnode/Keys.antt =====
-- The keys of the vnode cache.
use goshkik_os.Prelude.Memory.{Ptr}
use goshkik_os.Fs.Vnode.{take, bytes_of, create_vnode_key}
use goshkik_os.Prelude.{
  ℕ, zero, suc, ◌/◌, ◌%◌, ◌^◌, ◌≤◌, ◌<◌, ◌≡◌, refl, sym, ap, ap₂, ◌∙◌, List, [], ◌∷◌, ◌++◌, arith,
  length,
}

-- a number of n bytes
abbrev Fits : ℕ → ℕ → Type 0
Fits zero x = x ≡ 0
Fits (suc n) x = Fits n (x / 256)

pub head-eq : (x y : ℕ) (xs ys : List ℕ) → x ∷ xs ≡ y ∷ ys → (x ≡ y) × (xs ≡ ys)
head-eq x y xs ys e = (cc, cc)

bytes_of_injective : (n x y : ℕ) → Fits n x → Fits n y → bytes_of n x ≡ bytes_of n y → x ≡ y
unfolding bytes_of
bytes_of_injective zero x y fx fy e = fx ∙ sym fy
bytes_of_injective (suc n) x y fx fy e =
    let (low, rest) = head-eq (x % 256) (y % 256) (bytes_of n (x / 256)) (bytes_of n (y / 256)) e in
    let high = bytes_of_injective n (x / 256) (y / 256) fx fy rest in omega (arith, low, high)

length-bytes_of : (n x : ℕ) → length (bytes_of n x) ≡ n
unfolding bytes_of
length-bytes_of zero x = refl
length-bytes_of (suc n) x = ap suc (length-bytes_of n (x / 256))

pub append_injective :
    (us bs cs ds : List ℕ) → length us ≡ length cs → us ++ bs ≡ cs ++ ds → (us ≡ cs) × (bs ≡ ds)
append_injective [] bs [] ds l e = (refl, e)
append_injective [] bs (c ∷ cs) ds l e = absurd (omega (arith, l))
append_injective (a ∷ us) bs [] ds l e = absurd (omega (arith, l))
append_injective (a ∷ us) bs (c ∷ cs) ds l e =
    let (here, rest) = head-eq a c (us ++ bs) (cs ++ ds) e in
    let (firsts, lasts) = append_injective us bs cs ds (omega (arith, l)) rest in
    (ap₂ (λ x xs. x ∷ xs) here firsts, lasts)

-- Two nodes have the same key only when they are the same node of the same file system, for pointers and
-- node numbers of 64 bits.
pub create_vnode_key_injective :
    (vfsp vfsp' : Ptr) (nodeid nodeid' : ℕ)
    → vfsp < 2 ^ 64
    → vfsp' < 2 ^ 64
    → nodeid < 2 ^ 64
    → nodeid' < 2 ^ 64
    → create_vnode_key vfsp nodeid ≡ create_vnode_key vfsp' nodeid'
    → (vfsp ≡ vfsp') × (nodeid ≡ nodeid')
unfolding create_vnode_key
create_vnode_key_injective vfsp vfsp' nodeid nodeid' b b' c c' e =
    let (p, q) =
      append_injective (bytes_of 8 vfsp) (bytes_of 8 nodeid) (bytes_of 8 vfsp') (bytes_of 8 nodeid')
        (length-bytes_of 8 vfsp ∙ sym (length-bytes_of 8 vfsp')) e in
    (
      bytes_of_injective 8 vfsp vfsp' (omega arith) (omega arith) p,
      bytes_of_injective 8 nodeid nodeid' (omega arith) (omega arith) q,
    )

pub take-short : (n : ℕ) (cs : List ℕ) → length cs ≤ n → take n cs ≡ cs
take-short zero [] small = refl
take-short zero (c ∷ cs) small = absurd (omega arith)
take-short (suc n) [] small = refl
take-short (suc n) (c ∷ cs) small = ap (λ x. c ∷ x) (take-short n cs (omega arith))
