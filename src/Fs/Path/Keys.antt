-- ===== src/Fs/Path/Keys.antt =====
-- The keys of the name cache.
use goshkik_os.Prelude.Memory.{Ptr}
use goshkik_os.Fs.Vnode.{take, bytes_of}
use goshkik_os.Fs.Vnode.Keys.{take-short}
use goshkik_os.Fs.Vnode.Keys.{head-eq, append_injective}
use goshkik_os.Fs.Path.{leftover, name_field, make_namecache_key}
use goshkik_os.Prelude.{
  ℕ, zero, suc, ◌+◌, ◌-◌, ◌≤◌, ◌<◌, ◌≡◌, refl, ap, subst, inl, inr, List, arith, ◌==◌, ==_iff,
  ==_false, Bool-cases, length,
}

leftover-same :
    (stack stack' : ℕ → ℕ) (n from i : ℕ)
    → leftover stack n from ≡ leftover stack' n from
    → from ≤ i
    → i < from + n
    → stack i ≡ stack' i
unfolding leftover
leftover-same stack stack' zero from i e low high = absurd (omega arith)
leftover-same stack stack' (suc n) from i e low high =
    let (here, rest) = head-eq (stack from) (stack' from) _ _ e in
    elim (Bool-cases (from == i)) [
      | inl y ↦ subst (λ k. stack k ≡ stack' k) ((==_iff from i).0 y) here
      | inr y ↦
          leftover-same stack stack' n (suc from) i rest (omega (arith, ==_false from i y))
            (omega arith)
    ]

-- Two keys for one directory and one name are the same only when the bytes of the stack behind the name's
-- NUL are: each of them, up to the end of the array, is a part of the key.
pub make_namecache_key-leftover :
    (stack stack' : ℕ → ℕ) (dvp : Ptr) (name : List ℕ)
    → length name ≤ 255
    → make_namecache_key stack dvp name ≡ make_namecache_key stack' dvp name
    → (i : ℕ) → length name < i
    → i < 256
    → stack i ≡ stack' i
unfolding make_namecache_key name_field
make_namecache_key-leftover stack stack' dvp name short e i low high =
    let cut = take-short 255 name short in
    let (_, fields) = append_injective (bytes_of 8 dvp) _ (bytes_of 8 dvp) _ refl e in
    let (_, tails) = append_injective (take 255 name) _ (take 255 name) _ refl fields in
    let (_, same) = head-eq 0 0 _ _ tails in
    leftover-same stack stack' (255 - length (take 255 name)) (suc (length (take 255 name))) i same
      (omega (arith, ap length cut)) (omega (arith, ap length cut))
