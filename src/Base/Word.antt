-- ===== src/Base/Word.antt =====
-- Checked arithmetic on machine words: `u32` and `u64` values are numbers below `2 ^ w`.
use Prim.Native.Nat.{ℕ, ◌+◌, ◌*◌}
use mathlib.Core.Option.{Option, none, some}
use runen_gpu.Base.Tests.{ltb, if◌then◌else◌}

abbrev pub u32_mod : ℕ
u32_mod = 4294967296

abbrev pub u64_mod : ℕ
u64_mod = 18446744073709551616

-- `checked_add` and `checked_mul` at the modulus of the word.
abbrev pub checked_add : ℕ → ℕ → ℕ → Option ℕ
checked_add m a b = if ltb (a + b) m then some (a + b) else none

abbrev pub checked_mul : ℕ → ℕ → ℕ → Option ℕ
checked_mul m a b = if ltb (a * b) m then some (a * b) else none
