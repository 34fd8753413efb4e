-- ===== src/Prelude/Int.antt =====
-- Signed integers over the native numbers, under the library's names, and C's `int` conversion.
use Prim.Native.Nat.{ℕ, ◌-◌, ◌%◌, ◌^◌}
use pm_lab_tools.Prelude.Tests.{ltb, if◌then◌else◌}

-- `negsuc n` is -(n + 1).
pub data ℤ : Type 0 where
  pos : ℕ → ℤ
  negsuc : ℕ → ℤ

-- The value of a 32 bit pattern read as a signed `int`.
abbrev pub to_int32 : ℕ → ℤ
to_int32 n = let low = n % 2 ^ 32 in if ltb low (2 ^ 31) then pos low else negsuc (2 ^ 32 - 1 - low)
