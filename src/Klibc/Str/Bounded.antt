-- ===== src/Klibc/Str/Bounded.antt =====
-- The bounded copies of string.c, strlcpy and strlcat: never more than `size` bytes, always a NUL.
use goshkik_os.Prelude.Memory.{Ptr, Memory, write}
use goshkik_os.Klibc.Mem.Laws.{copied, memcpy_lem}
use goshkik_os.Klibc.Str.{strnlen, strlcpy_copy, strlcpy, strlcat}
use goshkik_os.Klibc.Str.Lengths.{
  IsString, strlen_lem, strnlen_lem, strnlen-IsString, skip_string_lem, tail-IsString,
  head-IsString, end-IsString,
}
use goshkik_os.Klibc.Str.Copies.{write-copied}
use goshkik_os.Prelude.{
  ℕ, zero, suc, ◌+◌, ◌-◌, ◌≤◌, ◌<◌, ◌≡◌, refl, sym, ap, ◌∙◌, fun_ext, subst, ◌≢◌, ◌⊎◌, inl, inr,
  Option, some, arith, ltb, if◌then◌else◌, ltb→lt, lt→ltb, ltb-false, ==_iff, ==_refl, ne→==,
  Bool-cases,
}

-- copying one byte and then n is copying n + 1
copied-step :
    (n : ℕ) (dest src : Ptr) (m : Memory)
    → (dest + (n + 1) ≤ src) ⊎ (src + (n + 1) ≤ dest)
    → copied n (dest + 1) (src + 1) (write m dest (m src)) ≡ copied (n + 1) dest src m
copied-step n dest src m apart = fun_ext λ a. ground arith

write-IsString :
    (m : Memory) (p : Ptr) (v : ℕ) (s : Ptr) (n : ℕ)
    → (p < s) ⊎ (s + n < p)
    → IsString m s n
    → IsString (write m p v) s n
write-IsString m p v s n out str = record {
  full = λ i h. ground (arith, str.full i h);
  ends = ground (arith, str.ends);
}

copied_none : (dest src : Ptr) (m : Memory) → copied 0 dest src m ≡ m
copied_none dest src m = fun_ext λ a. ground arith

quad :
    {a a' b b' c c' : ℕ} {d d' : Memory}
    → a ≡ a'
    → b ≡ b'
    → c ≡ c'
    → d ≡ d'
    → ◌≡◌ {A = Ptr × Ptr × ℕ × Memory} (a, b, c, d) (a', b', c', d')
quad p q r s = λ i. (p i, q i, r i, s i)

-- The copying loop of strlcpy with room for k bytes, on a string of n < k: it stops behind the NUL
-- that it copied.
strlcpy_copy_short :
    (k : ℕ) (dst s : Ptr) (n : ℕ) (m : Memory)
    → IsString m s n
    → n < k
    → (dst + (n + 1) ≤ s) ⊎ (s + (n + 1) ≤ dst)
    → strlcpy_copy k dst s m ≡ (dst + n + 1, s + n + 1, k - n, copied (n + 1) dst s m)
unfolding strlcpy_copy
strlcpy_copy_short zero dst s n m str h apart = absurd (omega arith)
strlcpy_copy_short (suc k) dst s zero m str h apart =
    let nul = end-IsString m s str in
    rw ((==_iff _ _).1 nul)
      (quad (omega arith) (omega arith) (omega arith) (fun_ext λ a. ground arith))
strlcpy_copy_short (suc k) dst s (suc n) m str h apart = rw (ne→== _ _ (head-IsString m s n str)) (
    strlcpy_copy_short k (dst + 1) (s + 1) n (write m dst (m s))
      (write-IsString m dst (m s) (s + 1) n (omega arith) (tail-IsString m s n str)) (omega arith)
      (omega arith)
    ∙ quad (omega arith) (omega arith) (omega arith)
        (copied-step (n + 1) dst s m (omega arith) ∙ ap (λ k. copied k dst s m) (omega arith)))

-- With room for k <= n bytes it stops after k bytes, with none left.
strlcpy_copy_long :
    (k : ℕ) (dst s : Ptr) (n : ℕ) (m : Memory)
    → IsString m s n
    → k ≤ n
    → (dst + k ≤ s) ⊎ (s + (n + 1) ≤ dst)
    → strlcpy_copy k dst s m ≡ (dst + k, s + k, 0, copied k dst s m)
unfolding strlcpy_copy
strlcpy_copy_long zero dst s n m str h apart =
    quad (omega arith) (omega arith) refl (sym (copied_none dst s m))
strlcpy_copy_long (suc k) dst s zero m str h apart = absurd (omega arith)
strlcpy_copy_long (suc k) dst s (suc n) m str h apart = rw (ne→== _ _ (head-IsString m s n str)) (
    strlcpy_copy_long k (dst + 1) (s + 1) n (write m dst (m s))
      (write-IsString m dst (m s) (s + 1) n (omega arith) (tail-IsString m s n str)) (omega arith)
      (omega arith)
    ∙ quad (omega arith) (omega arith) refl
        (copied-step k dst s m (omega arith) ∙ ap (λ k. copied k dst s m) (omega arith)))

-- how many of n bytes fit in `room`
abbrev pub fitting : ℕ → ℕ → ℕ
fitting n room = if ltb n room then n else room

fitting_le : (n room : ℕ) → (fitting n room ≤ n) × (fitting n room ≤ room)
fitting_le n room = ground arith

-- The memory after a bounded copy of a string of n bytes into `size` bytes: the bytes that fit before
-- a NUL, and the NUL.
abbrev pub bounded_copy : ℕ → ℕ → Ptr → Ptr → Memory → Memory
bounded_copy n zero dst src m = m
bounded_copy n (suc room) dst src m =
    write (copied (fitting n room) dst src m) (dst + fitting n room) 0

-- a string that starts k bytes further
drop-IsString :
    (k : ℕ) (m : Memory) (s : Ptr) (n : ℕ) → k ≤ n → IsString m s n → IsString m (s + k) (n - k)
drop-IsString k m s n h str = record {
  full = λ i lt. subst (λ a. m a ≢ 0) (omega arith) (str.full (k + i) (omega arith));
  ends = ap m (omega arith) ∙ str.ends;
}

copied-IsString_source :
    (k : ℕ) (dst src s : Ptr) (n : ℕ) (m : Memory)
    → IsString m s n
    → (dst + k ≤ s) ⊎ (s + n + 1 ≤ dst)
    → IsString (copied k dst src m) s n
copied-IsString_source k dst src s n m str apart = record {
  full = λ i h. ground (arith, str.full i h);
  ends = ground (arith, str.ends);
}

-- with room for the NUL the bounded copy is the copy of the whole string
bounded_copy_whole :
    (n room : ℕ) (dst src : Ptr) (m : Memory)
    → IsString m src n
    → n < room
    → bounded_copy n (suc room) dst src m ≡ copied (n + 1) dst src m
bounded_copy_whole n room dst src m str h = rw (lt→ltb n room h) (write-copied n dst src m str.ends)

result :
    {a a' : ℕ} {d d' : Memory}
    → a ≡ a'
    → d ≡ d'
    → ◌≡◌ {A = Option (ℕ × Memory)} (some (a, d)) (some (a', d'))
result p q = λ i. some (p i, q i)

-- strlcpy returns the length n of the source and changes the destination alone: with size 0 nothing,
-- and otherwise the first min(n, size - 1) bytes and a NUL behind them, given fuel beyond n and
-- regions (of size bytes, and of n + 1) that do not overlap.
pub strlcpy_lem :
    (fuel : ℕ) (dst src : Ptr) (size n : ℕ) (m : Memory)
    → IsString m src n
    → n < fuel
    → (dst + size ≤ src) ⊎ (src + (n + 1) ≤ dst)
    → strlcpy fuel dst src size m ≡ some (n, bounded_copy n size dst src m)
unfolding strlcpy
strlcpy_lem fuel dst src zero n m str h apart =
    rw (skip_string_lem fuel src n m str h) (ap (λ r. some (r, m)) (omega arith))
strlcpy_lem fuel dst src (suc size) n m str h apart = elim (Bool-cases (ltb n size)) [
  | inl short ↦
      let lt = ltb→lt n size short in
      rw
        (
          strlcpy_copy_short size dst src n m str lt (omega arith),
          ne→== (size - n) 0 (λ e. omega arith),
        )
        (result (omega arith) (sym (bounded_copy_whole n size dst src m str lt)))
  | inr long ↦
      let ge = ltb-false n size long in
      rw (strlcpy_copy_long size dst src n m str ge (omega arith)) (
        rw
          (skip_string_lem fuel (src + size) (n - size)
            (write (copied size dst src m) (dst + size) 0)
            (write-IsString _ _ 0 _ _ (omega arith) (
              drop-IsString size _ src n ge
                (copied-IsString_source size dst src src n m str (omega arith))))
            (omega arith))
          (result (omega arith) (rw long refl)))
]

suc_pred : (n : ℕ) → 0 < n → n ≡ suc (n - 1)
suc_pred n h = omega arith

-- strlcat returns k + n for a string of k < size bytes at dst and one of n bytes at src, and appends
-- the source's first min(n, size - k - 1) bytes and a NUL behind them, changing nothing else.
pub strlcat_lem :
    (fuel : ℕ) (dst src : Ptr) (size k n : ℕ) (m : Memory)
    → IsString m dst k
    → IsString m src n
    → k < size
    → n < fuel
    → (dst + size ≤ src) ⊎ (src + (n + 1) ≤ dst)
    → strlcat fuel dst src size m ≡ some (k + n, bounded_copy n (size - k) (dst + k) src m)
unfolding strlcat
strlcat_lem fuel dst src size k n m front back hk hn apart =
    rw
      (
        strnlen-IsString dst k size m front,
        lt→ltb k size hk,
        strlen_lem fuel src n m back hn,
        ne→== k size (λ e. omega arith),
      )
      (result refl (
        let c = fitting n (size - k - 1) in
        let (le, room) = fitting_le n (size - k - 1) in
        rw (memcpy_lem (dst + k) src c m (omega arith))
          (ap (λ z. bounded_copy n z (dst + k) src m) (sym (suc_pred (size - k) (omega arith))))))

-- If no NUL stands among the size bytes at dst, strlcat changes nothing and returns size + n.
pub strlcat_full :
    (fuel : ℕ) (dst src : Ptr) (size n : ℕ) (m : Memory)
    → ((i : ℕ) → i < size → m (dst + i) ≢ 0)
    → IsString m src n
    → n < fuel
    → strlcat fuel dst src size m ≡ some (size + n, m)
unfolding strlcat
strlcat_full fuel dst src size n m full back h =
    let (le, before, stop) = strnlen_lem dst size m in
    let e : strnlen dst size m ≡ size = elim stop [
      | inl e ↦ e
      | inr nul ↦ elim (Bool-cases (ltb (strnlen dst size m) size)) [
        | inl lt ↦ absurd (full _ (ltb→lt _ _ lt) nul)
        | inr ge ↦ let g = ltb-false _ _ ge in omega arith
      ]
    ] in
    rw (strlen_lem fuel src n m back h, e, ==_refl size)
