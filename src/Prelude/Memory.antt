-- ===== src/Prelude/Memory.antt =====
-- Byte-addressed memory. A pointer is its address; every byte has a value below 256.
use Prim.Native.Nat.{ℕ, ◌<◌}
use mathlib.Core.Path.{◌≡◌}
use mathlib.Core.Logic.{◌≢◌}
use goshkik_os.Prelude.Tests.{◌==◌, if◌then◌else◌, ==_refl, ne→==}

abbrev pub Ptr : Type 0
Ptr = ℕ

abbrev pub Memory : Type 0
Memory = Ptr → ℕ

abbrev pub write : Memory → Ptr → ℕ → Memory
write m p v a = if p == a then v else m a

-- every cell holds a `uint8_t`
abbrev pub IsBytes : Memory → Type 0
IsBytes m = (a : Ptr) → m a < 256

-- a store of cells of any type, with another value in one of them
abbrev pub update {ℓ} : {V : Type ℓ} → (Ptr → V) → Ptr → V → Ptr → V
update cells here new p = if here == p then new else cells p

module _ {ℓ} {V : Type ℓ} (cells : Ptr → V) (p : Ptr) (v : V) where
  pub update_same : update cells p v p ≡ v
  update_same = rw (==_refl p)

  pub update_other : (x : Ptr) → p ≢ x → update cells p v x ≡ cells x
  update_other x ne = rw (ne→== p x ne)
