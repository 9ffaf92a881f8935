-- ===== src/Klibc/Str/Copies.antt =====
-- The copying functions of string.c: the bytes of the source, with their NUL, stand at the
-- destination, and nothing else changes.
use goshkik_os.Prelude.Memory.{Ptr, Memory, write}
use goshkik_os.Klibc.Mem.Laws.{copied, filled, memcpy_lem, memset_lem, mempcpy_lem}
use goshkik_os.Klibc.Str.{stpcpy, strcpy, stpncpy, strncpy, strcat}
use goshkik_os.Klibc.Str.Lengths.{IsString, strlen_lem, strnlen-IsString}
use goshkik_os.Prelude.{
  ℕ, ◌+◌, ◌-◌, ◌≤◌, ◌<◌, ◌≡◌, ap, fun_ext, subst, ◌≢◌, ◌⊎◌, inl, inr, some, arith, ltb, ltb→lt,
  lt→ltb, ltb-false, Bool-cases,
}

-- `restrict`: the string of n bytes at src, with its NUL, and its copy at dest do not overlap
abbrev pub Apart : ℕ → Ptr → Ptr → Type 0
Apart n dest src = (dest + n + 1 ≤ src) ⊎ (src + n + 1 ≤ dest)

-- the copied bytes, and then the NUL, are the copy of n + 1 bytes
pub write-copied :
    (n : ℕ) (dest src : Ptr) (m : Memory)
    → m (src + n) ≡ 0
    → write (copied n dest src m) (dest + n) 0 ≡ copied (n + 1) dest src m
write-copied n dest src m nul = fun_ext λ a. ground arith

-- what a copy of a string leaves at its destination is that string
pub copied-IsString :
    (n : ℕ) (dest src : Ptr) (m : Memory)
    → IsString m src n
    → IsString (copied (n + 1) dest src m) dest n
copied-IsString n dest src m str = record {
  full = λ i h. ground (arith, str.full i h);
  ends = ground (arith, str.ends);
}

-- the premise that memcpy needs
narrow : (n : ℕ) {dest src : Ptr} → Apart n dest src → (dest + n ≤ src) ⊎ (src + n ≤ dest)
narrow n (inl h) = inl (omega arith)
narrow n (inr h) = inr (omega arith)

-- stpcpy copies the string at src and its NUL to dest, changes nothing else, and returns the
-- address of the copied NUL, given enough fuel and regions that do not overlap.
pub stpcpy_lem :
    (fuel : ℕ) (dest src : Ptr) (n : ℕ) (m : Memory)
    → IsString m src n
    → n < fuel
    → Apart n dest src
    → stpcpy fuel dest src m ≡ some (dest + n, copied (n + 1) dest src m)
unfolding stpcpy
stpcpy_lem fuel dest src n m str h apart =
    rw (strlen_lem fuel src n m str h, mempcpy_lem dest src n m (narrow n apart))
      (ap (λ m'. some (dest + n, m')) (write-copied n dest src m str.ends))

-- strcpy makes dest hold the string at src: it returns dest, the memory changes by the copy of the
-- string and its NUL alone, and the string of n bytes stands at dest afterwards.
pub strcpy_lem :
    (fuel : ℕ) (dest src : Ptr) (n : ℕ) (m : Memory)
    → IsString m src n
    → n < fuel
    → Apart n dest src
    → (strcpy fuel dest src m ≡ some (dest, copied (n + 1) dest src m))
      × IsString (copied (n + 1) dest src m) dest n
unfolding strcpy
strcpy_lem fuel dest src n m str h apart =
    (rw (stpcpy_lem fuel dest src n m str h apart), copied-IsString n dest src m str)

joined-IsString :
    (k n : ℕ) (dest src : Ptr) (m : Memory)
    → IsString m dest k
    → IsString m src n
    → IsString (copied (n + 1) (dest + k) src m) dest (k + n)
joined-IsString k n dest src m front back = record {
  full = λ i h. elim (Bool-cases (ltb i k)) [
    | inl lt ↦ let l = ltb→lt i k lt in ground (arith, front.full i l)
    | inr ge ↦
        let g = ltb-false i k ge in
        subst (λ b. b ≢ 0) (ground arith) (back.full (i - k) (omega arith))
  ];
  ends = ground (arith, back.ends);
}

-- strcat appends the string of n bytes at src to the string of k bytes at dest: dest holds a string
-- of k + n bytes afterwards, its first k bytes and everything outside the appended bytes and their
-- NUL are unchanged, if the source does not overlap the place where it is appended.
pub strcat_lem :
    (fuel : ℕ) (dest src : Ptr) (k n : ℕ) (m : Memory)
    → IsString m dest k
    → IsString m src n
    → k < fuel
    → n < fuel
    → Apart n (dest + k) src
    → (strcat fuel dest src m ≡ some (dest, copied (n + 1) (dest + k) src m))
      × IsString (copied (n + 1) (dest + k) src m) dest (k + n)
unfolding strcat
strcat_lem fuel dest src k n m front back hk hn apart = (
  rw (strlen_lem fuel dest k m front hk, stpcpy_lem fuel (dest + k) src n m back hn apart),
  joined-IsString k n dest src m front back,
)

-- strncpy with a source of len < n bytes: the padding of n - len zeros is written from dest on, over
-- the copy, so the memory is the copy of the len bytes with the first n - len bytes of dest zeroed.
strncpy_padded :
    (dest src : Ptr) (len n : ℕ) (m : Memory)
    → IsString m src len
    → len < n
    → Apart len dest src
    → strncpy dest src n m ≡ (dest, filled (n - len) dest 0 (copied len dest src m))
unfolding strncpy stpncpy
strncpy_padded dest src len n m str h apart = rw (
  strnlen-IsString src len n m str,
  lt→ltb len n h,
  memcpy_lem dest src len m (narrow len apart),
  memset_lem,
)

-- strncpy loses the string that it copies: whenever the source is shorter than n, the destination
-- holds the empty string afterwards.
pub strncpy-IsString_empty :
    (dest src : Ptr) (len n : ℕ) (m : Memory)
    → IsString m src len
    → len < n
    → Apart len dest src
    → IsString (strncpy dest src n m).1 dest 0
strncpy-IsString_empty dest src len n m str h apart =
    rw (strncpy_padded dest src len n m str h apart)
      (record { full = λ i z. elim z [ ]; ends = ground arith })
