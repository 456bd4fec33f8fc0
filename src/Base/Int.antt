-- ===== src/Base/Int.antt =====
-- Integers, in the form of the library.
use Prim.Native.Nat.{ℕ, ◌-◌}
use pybmpmon.Base.Tests.{leb, if◌then◌else◌}

pub data ℤ : Type 0 where
  pos negsuc : ℕ → ℤ

-- `a - b`
abbrev pub sub_ℕ : ℕ → ℕ → ℤ
sub_ℕ a b = if leb b a then pos (a - b) else negsuc (b - a - 1)
