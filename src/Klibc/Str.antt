-- ===== src/Klibc/Str.antt =====
-- src/klibc/kmem/string.c: the string functions, on a byte-addressed memory. A loop that ends at a NUL
-- runs on fuel, and `none` means that the fuel ran out before a NUL. NULL is 0.
pub mod Lengths
pub mod Copies
pub mod Bounded
pub mod Compare
pub mod Search
mod Tests
use goshkik_os.Prelude.Memory.{Ptr, Memory, write}
use goshkik_os.Prelude.Int.{ℤ, pos, negsuc, sub_ℕ}
use goshkik_os.Klibc.Mem.{memcpy, mempcpy, memset}
use goshkik_os.Prelude.{
  ℕ, zero, suc, ◌+◌, ◌-◌, ◌*◌, ◌/◌, ◌%◌, ◌^◌, ◌≤◌, ◌<◌, bit_and, bit_or, ◌≡◌, refl, sym, ap, ◌∙◌,
  fun_ext, ◌≢◌, ◌↔◌, ◌⊎◌, inl, inr, Bool, true, false, not, ◌&&◌, ◌||◌, Option, none, some, List,
  [], ◌∷◌, ◌++◌, map, arith, ltb, leb, ◌==◌, if◌then◌else◌, ltb→lt, lt→ltb, le→ltb, ltb-false,
  leb→le, ==_iff, ==_refl, ne→==, ==_false, Bool-cases, Option-cases, length, get_elem?, get_or,
  set, replicate, length-append, length-set, length-replicate, get_or-replicate, get_or-set,
}

-- chains of runs that may use up the fuel
infixl 5 ◌>>=◌
abbrev pub ◌>>=◌ {ℓ κ} : {A : Type ℓ} {B : Type κ} → Option A → (A → Option B) → Option B
none >>= f = none
some a >>= f = f a

-- `while (s[len]) len++`
pub strlen_from : ℕ → Ptr → ℕ → Memory → Option ℕ
strlen_from zero s len m = none
strlen_from (suc f) s len m =
    let rest = strlen_from f s (len + 1) m in if m (s + len) == 0 then some len else rest

pub strlen : ℕ → Ptr → Memory → Option ℕ
strlen fuel s m = strlen_from fuel s 0 m

-- `while (len < max && s[len]) len++`, with `left` = max - len
pub strnlen_from : ℕ → Ptr → ℕ → Memory → ℕ
strnlen_from zero s len m = len
strnlen_from (suc left) s len m =
    let rest = strnlen_from left s (len + 1) m in if m (s + len) == 0 then len else rest

pub strnlen : Ptr → ℕ → Memory → ℕ
strnlen s max m = strnlen_from max s 0 m

pub stpcpy : ℕ → Ptr → Ptr → Memory → Option (Ptr × Memory)
stpcpy fuel dest src m = do
  n ← strlen fuel src m
  let r = mempcpy dest src n m
  some (r.0, write r.1 r.0 0)

-- The padding starts at what `memcpy` returns, which is `dest`.
pub stpncpy : Ptr → Ptr → ℕ → Memory → Ptr × Memory
stpncpy dest src n m =
    let len = strnlen src n m in let r = memcpy dest src len m in memset r.0 0 (n - len) r.1

pub strcpy : ℕ → Ptr → Ptr → Memory → Option (Ptr × Memory)
strcpy fuel dest src m = do r ← stpcpy fuel dest src m; some (dest, r.1)

pub strncpy : Ptr → Ptr → ℕ → Memory → Ptr × Memory
strncpy dest src n m = (dest, (stpncpy dest src n m).1)

pub strcat : ℕ → Ptr → Ptr → Memory → Option (Ptr × Memory)
strcat fuel dest src m = do
  n ← strlen fuel dest m
  r ← stpcpy fuel (dest + n) src m
  some (dest, r.1)

-- `while (*a && *a == *b) { a++; b++; }`, then the difference of the two bytes
pub strcmp : ℕ → Ptr → Ptr → Memory → Option ℤ
strcmp zero a b m = none
strcmp (suc f) a b m =
    let rest = strcmp f (a + 1) (b + 1) m in
    if not (m a == 0) && (m a == m b) then rest else some (sub_ℕ (m a) (m b))

pub strncmp : Ptr → Ptr → ℕ → Memory → ℤ
strncmp a b zero m = pos 0
strncmp a b (suc n) m =
    let rest = strncmp (a + 1) (b + 1) n m in
    if not (m a == 0) && (m a == m b) then rest else sub_ℕ (m a) (m b)

-- The test for NUL stands before the comparison. `(char)c` is the low byte of c.
pub strchr : ℕ → Ptr → ℕ → Memory → Option Ptr
strchr zero s c m = none
strchr (suc f) s c m =
    let rest = strchr f (s + 1) c m in
    if m s == 0 then some 0 else (if m s == c % 256 then some s else rest)

pub strrchr_from : ℕ → Ptr → Ptr → ℕ → Memory → Option Ptr
strrchr_from zero last s c m = none
strrchr_from (suc f) last s c m =
    let rest = strrchr_from f (if m s == c % 256 then s else last) (s + 1) c m in
    if m s == 0 then some last else rest

pub strrchr : ℕ → Ptr → ℕ → Memory → Option Ptr
strrchr fuel s c m = strrchr_from fuel 0 s c m

-- `while (*h && *n && *h == *n) { h++; n++; }`, then whether `*n` is NUL
pub prefix_at : ℕ → Ptr → Ptr → Memory → Option Bool
prefix_at zero h n m = none
prefix_at (suc f) h n m =
    let rest = prefix_at f (h + 1) (n + 1) m in
    if not (m h == 0) && not (m n == 0) && (m h == m n) then rest else some (m n == 0)

pub strstr_from : ℕ → ℕ → Ptr → Ptr → Memory → Option Ptr
strstr_from zero inner haystack needle m = none
strstr_from (suc f) inner haystack needle m =
    let rest = strstr_from f inner (haystack + 1) needle m in
    if m haystack == 0
    then some 0
    else (prefix_at inner haystack needle m >>= λ found. if found then some haystack else rest)

pub strstr : ℕ → Ptr → Ptr → Memory → Option Ptr
strstr fuel haystack needle m =
    if m needle == 0 then some haystack else strstr_from fuel fuel haystack needle m

-- `new_str` is what `kmalloc(strlen(str) + 1)` returned; it is not tested against NULL.
pub strdup : ℕ → (ℕ → Ptr) → Ptr → Memory → Option (Ptr × Memory)
strdup fuel kmalloc str m = do n ← strlen fuel str m; strcpy fuel (kmalloc (n + 1)) str m

-- `while (strchr(delim, **save_ptr)) (*save_ptr)++`
pub skip_delims : ℕ → ℕ → Ptr → Ptr → Memory → Option Ptr
skip_delims zero inner delim save m = none
skip_delims (suc f) inner delim save m =
    let rest = skip_delims f inner delim (save + 1) m in
    strchr inner delim (m save) m >>= λ hit. if hit == 0 then some save else rest

-- `while (!strchr(delim, **save_ptr) && **save_ptr) (*save_ptr)++`
pub skip_token : ℕ → ℕ → Ptr → Ptr → Memory → Option Ptr
skip_token zero inner delim save m = none
skip_token (suc f) inner delim save m =
    let rest = skip_token f inner delim (save + 1) m in
    strchr inner delim (m save) m >>= λ hit.
    if (hit == 0) && not (m save == 0) then rest else some save

-- The result and the new value of `*save_ptr`. `save_ptr` itself is not NULL.
pub strtok_r : ℕ → Ptr → Ptr → Ptr → Memory → Option (Ptr × Ptr)
strtok_r fuel str delim save m = if not (str == 0) then some (0, str) else do
  ret ← skip_delims fuel fuel delim save m
  end ← skip_token fuel fuel delim ret m
  some (if m ret == 0 then 0 else ret, end)

-- The state of strtok is its static pointer.
unfoldable pub strtok : ℕ → Ptr → Ptr → Ptr → Memory → Option (Ptr × Ptr)
strtok fuel str delim ptr m = strtok_r fuel str delim ptr m

-- `while (--n != 0) if ((*dst++ = *s++) == 0) break`: the new dst, s, n and memory
pub strlcpy_copy : ℕ → Ptr → Ptr → Memory → Ptr × Ptr × ℕ × Memory
strlcpy_copy zero dst s m = (dst, s, 0, m)
strlcpy_copy (suc n) dst s m =
    let rest = strlcpy_copy n (dst + 1) (s + 1) (write m dst (m s)) in
    if m s == 0 then (dst + 1, s + 1, suc n, write m dst (m s)) else rest

-- `while (*s++)`: s past the NUL
pub skip_string : ℕ → Ptr → Memory → Option Ptr
skip_string zero s m = none
skip_string (suc f) s m =
    let rest = skip_string f (s + 1) m in if m s == 0 then some (s + 1) else rest

pub strlcpy : ℕ → Ptr → Ptr → ℕ → Memory → Option (ℕ × Memory)
strlcpy fuel dst src zero m = do s ← skip_string fuel src m; some (s - src - 1, m)
strlcpy fuel dst src (suc size) m =
    let (d, s, n, m') = strlcpy_copy size dst src m in
    if n == 0
    then (do let m'' = write m' d 0; s' ← skip_string fuel s m''; some (s' - src - 1, m''))
    else some (s - src - 1, m')

pub strlcat : ℕ → Ptr → Ptr → ℕ → Memory → Option (ℕ × Memory)
strlcat fuel dst src size m = do
  let dlen = strnlen dst size m
  slen ← strlen fuel src m
  let room = size - dlen - 1
  let copy = if ltb slen room then slen else room
  let m' = (memcpy (dst + dlen) src copy m).1
  some (if dlen == size then (size + slen, m) else (dlen + slen, write m' (dst + dlen + copy) 0))
