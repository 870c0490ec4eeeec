-- ===== src/Base/Words.antt =====
-- Rust's unsigned integers as native numbers: the operations wrap, saturate or are checked as the
-- source's are.
use Prim.Native.Nat.{ℕ, ◌+◌, ◌%◌, ◌^◌, min}
use mathlib.Core.Option.{Option, none, some}
use nexusguild.Base.Tests.{ltb, if◌then◌else◌}

abbrev pub u32_max : ℕ
u32_max = 4294967295

abbrev pub u64_max : ℕ
u64_max = 18446744073709551615

abbrev pub u128_max : ℕ
u128_max = 340282366920938463463374607431768211455

-- `a.checked_add(b)` at `u32`
abbrev pub checked_add_u32 : ℕ → ℕ → Option ℕ
checked_add_u32 a b = if ltb u32_max (a + b) then none else some (a + b)

-- `a.saturating_add(b)` at `u64`
abbrev pub saturating_add_u64 : ℕ → ℕ → ℕ
saturating_add_u64 a b = min (a + b) u64_max

-- `a as u32`
abbrev pub as_u32 : ℕ → ℕ
as_u32 a = a % (u32_max + 1)

-- `1u128 << n`
abbrev pub one_shl_u128 : ℕ → ℕ
one_shl_u128 n = 2 ^ n % (u128_max + 1)
