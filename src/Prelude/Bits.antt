-- ===== src/Prelude/Bits.antt =====
-- Bits of a byte: the laws of setting, clearing and testing one bit, checked at every value.
use Prim.Native.Nat.{◌%◌, ℕ, zero, suc, ◌-◌, ◌^◌, ◌<◌, bit_and, bit_or}
use mathlib.Core.Path.{◌≡◌, refl}
use mathlib.Core.Bool.{Bool, true, false, not, ◌&&◌}
use native.Mathlib.Omega.{arith}
use goshkik_os.Prelude.Tests.{==_iff, ◌==◌, ltb, if◌then◌else◌, ltb→lt}

-- a test at every number under a bound, by evaluation
pub holds_below : (ℕ → Bool) → ℕ → Bool
holds_below test zero = true
holds_below test (suc bound) = holds_below test bound && test bound

pub holds_below-at :
    (bound k : ℕ) (test : ℕ → Bool) → k < bound → holds_below test bound ≡ true → test k ≡ true
unfolding holds_below
holds_below-at zero k test small all = absurd (omega arith)
holds_below-at (suc bound) k test small all = ground (holds_below-at bound k test, arith)

-- `b | (1 << k)`, `b & ~(1 << k)` and `(b & (1 << k)) != 0` on a `uint8_t`.
unfoldable pub byte_set : ℕ → ℕ → ℕ
byte_set b k = bit_or b (2 ^ k)

unfoldable pub byte_clear : ℕ → ℕ → ℕ
byte_clear b k = bit_and b (255 - 2 ^ k)

unfoldable pub byte_test : ℕ → ℕ → Bool
byte_test b k = not (bit_and b (2 ^ k) == 0)

bool_eq : Bool → Bool → Bool
bool_eq true b = b
bool_eq false b = not b

bool_eq_sound : (a b : Bool) → bool_eq a b ≡ true → a ≡ b
unfolding bool_eq
bool_eq_sound a b h = ground arith

set_row : ℕ → ℕ → ℕ → Bool
set_row b k j =
    bool_eq (byte_test (byte_set b k) j) (if k == j then true else byte_test b j)
    && (ltb (byte_set b k) 256)

clear_row : ℕ → ℕ → ℕ → Bool
clear_row b k j =
    bool_eq (byte_test (byte_clear b k) j) (if k == j then false else byte_test b j)
    && (ltb (byte_clear b k) 256)

table : (ℕ → ℕ → ℕ → Bool) → Bool
table row = holds_below (λ b. holds_below (λ k. holds_below (λ j. row b k j) 8) 8) 256

set_table : table set_row ≡ true
unfolding table holds_below set_row bool_eq byte_test byte_set
set_table = refl

clear_table : table clear_row ≡ true
unfolding table holds_below clear_row bool_eq byte_test byte_clear
clear_table = refl

table_sound :
    (row : ℕ → ℕ → ℕ → Bool)
    → table row ≡ true
    → (b k j : ℕ) → b < 256
    → k < 8
    → j < 8
    → row b k j ≡ true
unfolding table
table_sound row h b k j hb hk hj =
    holds_below-at 8 j _ hj (holds_below-at 8 k _ hk (holds_below-at 256 b _ hb h))

and_true : (a b : Bool) → (a && b) ≡ true → (a ≡ true) × (b ≡ true)
and_true a b h = ground arith

module _ (b k j : ℕ) (hb : b < 256) (hk : k < 8) (hj : j < 8) where
  pub byte_test-set : byte_test (byte_set b k) j ≡ (if k == j then true else byte_test b j)
  unfolding set_row
  byte_test-set = bool_eq_sound _ _ (and_true _ _ (table_sound set_row set_table b k j hb hk hj)).0

  pub byte_test-clear : byte_test (byte_clear b k) j ≡ (if k == j then false else byte_test b j)
  unfolding clear_row
  byte_test-clear =
      bool_eq_sound _ _ (and_true _ _ (table_sound clear_row clear_table b k j hb hk hj)).0

pub byte_set-lt : (b k : ℕ) → b < 256 → k < 8 → byte_set b k < 256
unfolding set_row
byte_set-lt b k hb hk =
    ltb→lt _ _ (and_true _ _ (table_sound set_row set_table b k 0 hb hk (omega arith))).1

pub byte_clear-lt : (b k : ℕ) → b < 256 → k < 8 → byte_clear b k < 256
unfolding clear_row
byte_clear-lt b k hb hk =
    ltb→lt _ _ (and_true _ _ (table_sound clear_row clear_table b k 0 hb hk (omega arith))).1

pow_table : holds_below (λ k. 2 ^ k % 256 == 2 ^ k) 8 ≡ true
unfolding holds_below
pow_table = refl

pub pow-mod_byte : (k : ℕ) → k < 8 → 2 ^ k % 256 ≡ 2 ^ k
pow-mod_byte k h = (==_iff _ _).0 (holds_below-at 8 k (λ k. 2 ^ k % 256 == 2 ^ k) h pow_table)

full_table : holds_below (λ k. byte_test 255 k) 8 ≡ true
unfolding holds_below byte_test
full_table = refl

pub byte_test_full : (k : ℕ) → k < 8 → byte_test 255 k ≡ true
byte_test_full k h = holds_below-at 8 k (λ k. byte_test 255 k) h full_table
