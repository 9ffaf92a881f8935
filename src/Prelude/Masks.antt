-- ===== src/Prelude/Masks.antt =====
-- `&` and `|` of numbers of any width, from the law for the lowest digit.
use Prim.Native.Nat.{
  ℕ, zero, suc, ◌+◌, ◌*◌, ◌/◌, ◌%◌, ◌^◌, ◌≤◌, ◌<◌, min, max, bit_and, bit_or, digits,
  bit_and-bitwise, bit_or-bitwise,
}
use mathlib.Core.Path.{◌≡◌, refl, sym, ap, ap₂, ◌∙◌, subst}
use native.Mathlib.Omega.{arith}

-- What is left of the first number bounds the digits, so that more rounds change nothing.
rounds :
    (z : ℕ → ℕ) (f : ℕ → ℕ → ℕ) (k l a b : ℕ) → a ≤ k → a ≤ l → digits z f k a b ≡ digits z f l a b
rounds z f k l zero b small small' = settled z f k b ∙ sym (settled z f l b)
  where
    settled : (z : ℕ → ℕ) (f : ℕ → ℕ → ℕ) (k b : ℕ) → digits z f k 0 b ≡ z b
    settled z f zero b = refl
    settled z f (suc k) b = refl
rounds z f zero l (suc a) b small small' = absurd (omega arith)
rounds z f (suc k) zero (suc a) b small small' = absurd (omega arith)
rounds z f (suc k) (suc l) (suc a) b small small' =
    ap (λ rest. rest * 2 + f (suc a % 2) (b % 2))
      (rounds z f k l (suc a / 2) (b / 2) (omega arith) (omega arith))

nothing-bit_and : (y : ℕ) → bit_and 0 y ≡ 0
nothing-bit_and = bit_and-bitwise 0

nothing-bit_or : (y : ℕ) → bit_or 0 y ≡ y
nothing-bit_or = bit_or-bitwise 0

module _ (x y : ℕ) where
  and_lowest : bit_and (suc x) y ≡ min (suc x % 2) (y % 2) + 2 * bit_and (suc x / 2) (y / 2)
  and_lowest =
      let fewer =
        rounds (λ _. 0) min x (suc x / 2) (suc x / 2) (y / 2) (omega arith) (omega arith) in
      omega (arith, bit_and-bitwise (suc x) y, fewer, bit_and-bitwise (suc x / 2) (y / 2))

  or_lowest : bit_or (suc x) y ≡ max (suc x % 2) (y % 2) + 2 * bit_or (suc x / 2) (y / 2)
  or_lowest =
      let fewer =
        rounds (λ y. y) max x (suc x / 2) (suc x / 2) (y / 2) (omega arith) (omega arith) in
      omega (arith, bit_or-bitwise (suc x) y, fewer, bit_or-bitwise (suc x / 2) (y / 2))

and_split : (x y : ℕ) → bit_and x y ≡ min (x % 2) (y % 2) + 2 * bit_and (x / 2) (y / 2)
and_split zero y = omega (arith, nothing-bit_and y, nothing-bit_and (y / 2))
and_split (suc x) y = and_lowest x y

or_split : (x y : ℕ) → bit_or x y ≡ max (x % 2) (y % 2) + 2 * bit_or (x / 2) (y / 2)
or_split zero y = omega (arith, nothing-bit_or y, nothing-bit_or (y / 2))
or_split (suc x) y = or_lowest x y

zero_of : (a : ℕ) → a ≤ 0 → a ≡ 0
zero_of a h = omega arith

-- the recursions are on a bound of the first number
or_zero : (n a : ℕ) → a ≤ n → bit_or a 0 ≡ a
or_zero zero a h = omega (arith, nothing-bit_or 0, ap (λ x. bit_or x 0) (zero_of a h))
or_zero (suc n) a h = omega (arith, or_split a 0, or_zero n (a / 2) (omega arith))

pub bit_or-zero : (a : ℕ) → bit_or a 0 ≡ a
bit_or-zero a = or_zero a a (omega arith)

or_half :
    (a b : ℕ) → (bit_or a b / 2 ≡ bit_or (a / 2) (b / 2)) × (bit_or a b % 2 ≡ max (a % 2) (b % 2))
or_half a b = (omega (arith, or_split a b), omega (arith, or_split a b))

and_half :
    (a b : ℕ)
    → (bit_and a b / 2 ≡ bit_and (a / 2) (b / 2)) × (bit_and a b % 2 ≡ min (a % 2) (b % 2))
and_half a b = (omega (arith, and_split a b), omega (arith, and_split a b))

same_halves : (x y : ℕ) → x / 2 ≡ y / 2 → x % 2 ≡ y % 2 → x ≡ y
same_halves x y e e' = omega (arith, e, e')

min-max : (p q r : ℕ) → min (max p q) r ≡ max (min p r) (min q r)
min-max p q r = omega arith

and_or : (n a b m : ℕ) → a ≤ n → b ≤ n → bit_and (bit_or a b) m ≡ bit_or (bit_and a m) (bit_and b m)
and_or zero a b m p q =
    rw (zero_of a p, zero_of b q, nothing-bit_or 0, nothing-bit_and m, nothing-bit_or 0) refl
and_or (suc n) a b m p q =
    let (o, o') = or_half a b in
    let (x, x') = and_half (bit_or a b) m in
    let (y, y') = and_half a m in
    let (z, z') = and_half b m in
    let (w, w') = or_half (bit_and a m) (bit_and b m) in
    same_halves (bit_and (bit_or a b) m) (bit_or (bit_and a m) (bit_and b m))
      (x
        ∙ ap (λ t. bit_and t (m / 2)) o
        ∙ and_or n (a / 2) (b / 2) (m / 2) (omega arith) (omega arith)
        ∙ sym (w ∙ ap₂ bit_or y z))
      (x' ∙ ap (λ t. min t (m % 2)) o' ∙ min-max (a % 2) (b % 2) (m % 2) ∙ sym (w' ∙ ap₂ max y' z'))

-- a mask goes into `|`
pub bit_and-bit_or : (a b m : ℕ) → bit_and (bit_or a b) m ≡ bit_or (bit_and a m) (bit_and b m)
bit_and-bit_or a b m = and_or (a + b) a b m (omega arith) (omega arith)

min_twice : (p r : ℕ) → min (min p r) r ≡ min p r
min_twice p r = omega arith

and_twice : (n a m : ℕ) → a ≤ n → bit_and (bit_and a m) m ≡ bit_and a m
and_twice zero a m p = rw (zero_of a p, nothing-bit_and m, nothing-bit_and m) refl
and_twice (suc n) a m p =
    let (x, x') = and_half (bit_and a m) m in
    let (y, y') = and_half a m in
    same_halves (bit_and (bit_and a m) m) (bit_and a m)
      (x ∙ ap (λ t. bit_and t (m / 2)) y ∙ and_twice n (a / 2) (m / 2) (omega arith) ∙ sym y)
      (x' ∙ ap (λ t. min t (m % 2)) y' ∙ min_twice (a % 2) (m % 2) ∙ sym y')

-- a mask taken twice
pub bit_and_twice : (a m : ℕ) → bit_and (bit_and a m) m ≡ bit_and a m
bit_and_twice a m = and_twice a a m (omega arith)

masked_out : (bound x : ℕ) → x ≤ bound → bit_and x 0 ≡ 0
masked_out zero x small = rw (zero_of x small) (nothing-bit_and 0)
masked_out (suc bound) x small =
    let half = masked_out bound (x / 2) (omega arith) in omega (arith, and_split x 0, half)

pub bit_and-zero : (x : ℕ) → bit_and x 0 ≡ 0
bit_and-zero x = masked_out x x (omega arith)

pub bit_and-one : (x : ℕ) → bit_and x 1 ≡ x % 2
bit_and-one x = let upper = bit_and-zero (x / 2) in let split = and_split x 1 in omega arith

-- the lowest bit of `|`
pub bit_or-one : (a : ℕ) → bit_or a 1 % 2 ≡ 1
bit_or-one a = omega (arith, or_split a 1)

-- y, twice as much for each of n steps
doubled : ℕ → ℕ → ℕ
doubled zero y = y
doubled (suc n) y = 2 * doubled n y

-- n ones, the n lowest bits of a number, and what stands above them
ones : ℕ → ℕ
ones zero = 0
ones (suc n) = 1 + 2 * ones n

low_bits : ℕ → ℕ → ℕ
low_bits zero x = 0
low_bits (suc n) x = x % 2 + 2 * low_bits n (x / 2)

high_bits : ℕ → ℕ → ℕ
high_bits zero x = x
high_bits (suc n) x = high_bits n (x / 2)

bits_split :
    (n x : ℕ) → (x ≡ low_bits n x + doubled n (high_bits n x)) × (low_bits n x < doubled n 1)
unfolding low_bits high_bits doubled
bits_split zero x = (omega arith, omega arith)
bits_split (suc n) x = let (e, b) = bits_split n (x / 2) in (omega (arith, e), omega (arith, b))

-- a mask of n ones keeps the n lowest bits
bit_and-ones : (n x : ℕ) → bit_and x (ones n) ≡ low_bits n x
unfolding ones low_bits
bit_and-ones zero x = bit_and-zero x
bit_and-ones (suc n) x =
    let rest = bit_and-ones n (x / 2) in
    let split = and_split x (1 + 2 * ones n) in
    let half : (1 + 2 * ones n) / 2 ≡ ones n = omega arith in
    omega (arith, split, ap (bit_and (x / 2)) half, rest)

-- a mask whose k lowest bits are not set
bit_and-doubled : (k x m : ℕ) → bit_and x (doubled k m) ≡ doubled k (bit_and (high_bits k x) m)
unfolding doubled high_bits
bit_and-doubled zero x m = refl
bit_and-doubled (suc k) x m =
    let rest = bit_and-doubled k (x / 2) m in
    let split = and_split x (2 * doubled k m) in
    let half : 2 * doubled k m / 2 ≡ doubled k m = omega arith in
    omega (arith, split, ap (bit_and (x / 2)) half, rest)

-- `|` of numbers without a common bit is their sum
bit_or-doubled : (k a b : ℕ) → b < doubled k 1 → bit_or (doubled k a) b ≡ doubled k a + b
unfolding doubled
bit_or-doubled zero a b small =
    ap (bit_or a) (zero_of b (omega arith)) ∙ bit_or-zero a ∙ (omega arith)
bit_or-doubled (suc k) a b small =
    let rest = bit_or-doubled k a (b / 2) (omega arith) in
    let split = or_split (2 * doubled k a) b in
    let half : 2 * doubled k a / 2 ≡ doubled k a = omega arith in
    omega (arith, split, ap (λ t. bit_or t (b / 2)) half, rest)

doubled_page : (y : ℕ) → doubled 12 y ≡ y * 4096
unfolding doubled
doubled_page y = omega arith

doubled_frames : (y : ℕ) → doubled 40 y ≡ y * 2 ^ 40
unfolding doubled
doubled_frames y = omega arith

page_bits : doubled 12 (ones 40) ≡ 0x000FFFFFFFFFF000
unfolding doubled ones
page_bits = refl

quotient : (x l h : ℕ) → x ≡ l + h * 4096 → l < 4096 → h ≡ x / 4096
quotient x l h e small = omega arith

remainder : (x l h : ℕ) → x ≡ l + h * 2 ^ 40 → l < 2 ^ 40 → l ≡ x % 2 ^ 40
remainder x l h e small = omega arith

high_page : (x : ℕ) → high_bits 12 x ≡ x / 4096
high_page x =
    let (e, small) = bits_split 12 x in
    quotient x (low_bits 12 x) (high_bits 12 x)
      (e ∙ ap (◌+◌ (low_bits 12 x)) (doubled_page (high_bits 12 x)))
      (subst (λ m. low_bits 12 x < m) (doubled_page 1) small)

low_frames : (x : ℕ) → low_bits 40 x ≡ x % 2 ^ 40
low_frames x =
    let (e, small) = bits_split 40 x in
    remainder x (low_bits 40 x) (high_bits 40 x)
      (e ∙ ap (◌+◌ (low_bits 40 x)) (doubled_frames (high_bits 40 x)))
      (subst (λ m. low_bits 40 x < m) (doubled_frames 1) small)

-- the mask of the address bits of a page table entry
pub bit_and-page : (e : ℕ) → bit_and e 0x000FFFFFFFFFF000 ≡ e / 4096 % 2 ^ 40 * 4096
bit_and-page e =
    ap (bit_and e) (sym page_bits)
    ∙ bit_and-doubled 12 e (ones 40)
    ∙ doubled_page (bit_and (high_bits 12 e) (ones 40))
    ∙ ap (λ m. m * 4096)
        (bit_and-ones 40 (high_bits 12 e)
          ∙ low_frames (high_bits 12 e)
          ∙ ap (λ m. m % 2 ^ 40) (high_page e))

-- the offset in a page put behind the page's address
pub bit_or-page : (a b : ℕ) → b < 4096 → bit_or (a * 4096) b ≡ a * 4096 + b
bit_or-page a b small =
    ap (λ m. bit_or m b) (sym (doubled_page a))
    ∙ bit_or-doubled 12 a b (subst (λ m. b < m) (sym (doubled_page 1)) small)
    ∙ ap (λ m. m + b) (doubled_page a)
