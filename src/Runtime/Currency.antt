-- ===== src/Runtime/Currency.antt =====
-- runtime/src/lib.rs: the units of the currency, as `u128`.
use nexusguild.Base.{ℕ}

abbrev pub unit : ℕ
unit = 1_000_000_000_000

abbrev pub milli_unit : ℕ
milli_unit = 1_000_000_000

abbrev pub micro_unit : ℕ
micro_unit = 1_000_000

abbrev pub existential_deposit : ℕ
existential_deposit = milli_unit
