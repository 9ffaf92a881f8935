-- ===== src/Klibc/Mem.antt =====
-- src/klibc/kmem/mem.c: the memory functions, on a byte-addressed memory. Pointers are addresses, and
-- pointer arithmetic does not wrap. Each function returns its pointer and the new memory.
pub mod Laws
mod Tests
use goshkik_os.Prelude.Memory.{Ptr, Memory, write}
use goshkik_os.Prelude.Int.{ℤ, pos, negsuc}
use goshkik_os.Prelude.{
  ℕ, zero, suc, ◌+◌, ◌-◌, ◌*◌, ◌/◌, ◌%◌, ◌^◌, ◌≤◌, ◌<◌, bit_and, bit_or, ◌≡◌, refl, sym, ap, ◌∙◌,
  fun_ext, ◌≢◌, ◌↔◌, ◌⊎◌, inl, inr, Bool, true, false, not, ◌&&◌, ◌||◌, Option, none, some, List,
  [], ◌∷◌, ◌++◌, map, arith, ltb, leb, ◌==◌, if◌then◌else◌, ltb→lt, lt→ltb, le→ltb, ltb-false,
  leb→le, ==_iff, ==_refl, ne→==, ==_false, Bool-cases, Option-cases, length, get_elem?, get_or,
  set, replicate, length-append, length-set, length-replicate, get_or-replicate, get_or-set,
}

-- `for (i; i < i + n; i++) pdest[i] = psrc[i]`, with n rounds left
pub copy_up : ℕ → ℕ → Ptr → Ptr → Memory → Memory
copy_up zero i dest src m = m
copy_up (suc n) i dest src m = copy_up n (i + 1) dest src (write m (dest + i) (m (src + i)))

-- `for (i = n; i > 0; i--) pdest[i - 1] = psrc[i - 1]`
pub copy_down : ℕ → Ptr → Ptr → Memory → Memory
copy_down zero dest src m = m
copy_down (suc n) dest src m = copy_down n dest src (write m (dest + n) (m (src + n)))

pub memcpy : Ptr → Ptr → ℕ → Memory → Ptr × Memory
unfolding copy_up
memcpy dest src n m = (dest, copy_up n 0 dest src m)

pub mempcpy : Ptr → Ptr → ℕ → Memory → Ptr × Memory
unfolding memcpy
mempcpy dest src len m = let (p, m') = memcpy dest src len m in (p + len, m')

pub fill : ℕ → ℕ → Ptr → ℕ → Memory → Memory
fill zero i p c m = m
fill (suc n) i p c m = fill n (i + 1) p c (write m (p + i) (c % 256))

pub memset : Ptr → ℕ → ℕ → Memory → Ptr × Memory
unfolding fill
memset s c n m = (s, fill n 0 s c m)

pub memmove : Ptr → Ptr → ℕ → Memory → Ptr × Memory
unfolding copy_up copy_down
memmove dest src n m =
    if ltb dest src
    then (dest, copy_up n 0 dest src m)
    else (if ltb src dest then (dest, copy_down n dest src m) else (dest, m))

-- the loop of memcmp, with n rounds left
pub compare_from : ℕ → ℕ → Ptr → Ptr → Memory → ℤ
compare_from zero i s1 s2 m = pos 0
compare_from (suc n) i s1 s2 m =
    let rest = compare_from n (i + 1) s1 s2 m in
    if not (m (s1 + i) == m (s2 + i))
    then (if ltb (m (s1 + i)) (m (s2 + i)) then negsuc 0 else pos 1)
    else rest

pub memcmp : Ptr → Ptr → ℕ → Memory → ℤ
unfolding compare_from
memcmp s1 s2 n m = compare_from n 0 s1 s2 m
