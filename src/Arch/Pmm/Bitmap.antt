-- ===== src/Arch/Pmm/Bitmap.antt =====
-- BIT_SET, BIT_CLEAR and BIT_TEST of pmm.c on a list of bytes.
use goshkik_os.Prelude.Bits.{
  byte_set, byte_clear, byte_test, byte_test-set, byte_test-clear, byte_set-lt, byte_clear-lt,
  byte_test_full,
}
use goshkik_os.Prelude.{
  ℕ, zero, suc, ◌/◌, ◌%◌, ◌<◌, ◌≡◌, Bool, true, false, List, [], ◌∷◌, arith, ◌==◌, if◌then◌else◌,
  length, get_or, set, replicate, length-set, get_or-replicate, get_or-set,
}

unfoldable pub bit_set : List ℕ → ℕ → List ℕ
unfolding byte_set
bit_set b i = set b (i / 8) (byte_set (get_or b (i / 8) 0) (i % 8))

unfoldable pub bit_clear : List ℕ → ℕ → List ℕ
unfolding byte_clear
bit_clear b i = set b (i / 8) (byte_clear (get_or b (i / 8) 0) (i % 8))

unfoldable pub bit_test : List ℕ → ℕ → Bool
unfolding byte_test
bit_test b i = byte_test (get_or b (i / 8) 0) (i % 8)

-- every element is a `uint8_t`
abbrev pub AllBytes : List ℕ → Type 0
AllBytes [] = Unit
AllBytes (x ∷ xs) = (x < 256) × AllBytes xs

pub get_or-AllBytes : (b : List ℕ) (i : ℕ) → AllBytes b → get_or b i 0 < 256
get_or-AllBytes [] i h = omega arith
get_or-AllBytes (x ∷ xs) zero h = h.0
get_or-AllBytes (x ∷ xs) (suc i) h = get_or-AllBytes xs i h.1

set-AllBytes : (b : List ℕ) (i v : ℕ) → AllBytes b → v < 256 → AllBytes (set b i v)
set-AllBytes [] i v h lt = h
set-AllBytes (x ∷ xs) zero v h lt = (lt, h.1)
set-AllBytes (x ∷ xs) (suc i) v h lt = (h.0, set-AllBytes xs i v h.1 lt)

module _ (b : List ℕ) (bytes : AllBytes b) (i : ℕ) where
  pub bit_set-AllBytes : AllBytes (bit_set b i)
  unfolding bit_set
  bit_set-AllBytes =
      set-AllBytes b (i / 8) _ bytes
        (byte_set-lt _ (i % 8) (get_or-AllBytes b (i / 8) bytes) (omega arith))

  pub bit_clear-AllBytes : AllBytes (bit_clear b i)
  unfolding bit_clear
  bit_clear-AllBytes =
      set-AllBytes b (i / 8) _ bytes
        (byte_clear-lt _ (i % 8) (get_or-AllBytes b (i / 8) bytes) (omega arith))

  module _ (fits : i / 8 < length b) (j : ℕ) where
    pub bit_test-bit_set : bit_test (bit_set b i) j ≡ (if i == j then true else bit_test b j)
    unfolding bit_set bit_test
    bit_test-bit_set = ground (
      arith,
      get_or-set b (i / 8) (j / 8) (byte_set (get_or b (i / 8) 0) (i % 8)) 0,
      byte_test-set (get_or b (i / 8) 0) (i % 8) (j % 8),
      get_or-AllBytes b (i / 8) bytes,
    )

    pub bit_test-bit_clear : bit_test (bit_clear b i) j ≡ (if i == j then false else bit_test b j)
    unfolding bit_clear bit_test
    bit_test-bit_clear = ground (
      arith,
      get_or-set b (i / 8) (j / 8) (byte_clear (get_or b (i / 8) 0) (i % 8)) 0,
      byte_test-clear (get_or b (i / 8) 0) (i % 8) (j % 8),
      get_or-AllBytes b (i / 8) bytes,
    )

pub length-bit_set : (b : List ℕ) (i : ℕ) → length (bit_set b i) ≡ length b
unfolding bit_set
length-bit_set b i = length-set b (i / 8) _

pub length-bit_clear : (b : List ℕ) (i : ℕ) → length (bit_clear b i) ≡ length b
unfolding bit_clear
length-bit_clear b i = length-set b (i / 8) _

pub bit_test_full : (n j : ℕ) → j / 8 < n → bit_test (replicate n 0xFF) j ≡ true
unfolding bit_test
bit_test_full n j h =
    rw (get_or-replicate {A = ℕ} n (j / 8) 0xFF 0 h) (byte_test_full (j % 8) (omega arith))

pub replicate-AllBytes : (n : ℕ) → AllBytes (replicate n 0xFF)
replicate-AllBytes zero = tt
replicate-AllBytes (suc n) = (omega arith, replicate-AllBytes n)
