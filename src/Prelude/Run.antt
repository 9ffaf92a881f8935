-- ===== src/Prelude/Run.antt =====
-- A run over a state of any type: it returns, faults at a bad pointer, or uses up the fuel of a loop.
use mathlib.Core.Path.{◌≡◌}

pub data Run (S A : Type 0) : Type 0 where
  done : A → S → Run S A
  fault : Run S A
  out_of_fuel : Run S A

abbrev pub Prog : Type 0 → Type 0 → Type 0
Prog S A = S → Run S A

abbrev pub pure : {S A : Type 0} → A → Prog S A
pure = done

module _ {S A B : Type 0} where
  abbrev pub and_then : Run S A → (A → Prog S B) → Run S B
  and_then (done a s) f = f a s
  and_then fault f = fault
  and_then out_of_fuel f = out_of_fuel

  infixl 5 ◌>>=◌ ◌>>◌
  abbrev pub ◌>>=◌ : Prog S A → (A → Prog S B) → Prog S B
  m >>= f = λ s. and_then (m s) f

  abbrev pub ◌>>◌ : Prog S A → Prog S B → Prog S B
  m >> n = m >>= λ _. n

module _ {S : Type 0} where
  abbrev pub get : Prog S S
  get s = done s s

  abbrev pub modify : (S → S) → Prog S (Unit {0})
  modify f s = done tt (f s)

-- the run returns, with a result and in a state that satisfy P
abbrev pub Returns : {S A : Type 0} → Run S A → (A → S → Type 0) → Type 0
Returns {S} {A} r P = (a : A) × (s : S) × (r ≡ done a s) × P a s
