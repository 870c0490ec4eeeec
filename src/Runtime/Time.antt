-- ===== src/Runtime/Time.antt =====
-- runtime/src/lib.rs and runtime/src/configs/mod.rs: the constants of time. The source has one
-- constant to adjust, the block time in milliseconds; here the others are functions of it.
use nexusguild.Base.{ℕ, ◌+◌, ◌*◌, ◌/◌, ◌%◌, ◌≤◌, ◌<◌, ◌≡◌, ◌↔◌, min, arith}
use nexusguild.Base.Words.{u32_max, u64_max, as_u32}

-- The block time that the source sets.
abbrev pub milli_secs_per_block : ℕ
milli_secs_per_block = 6000

module _ (block_time : ℕ) where
  abbrev pub slot_duration : ℕ
  slot_duration = block_time

  -- Time in numbers of blocks. A block time that `as u32` takes to 0 does not compile.
  unfoldable pub minutes : ℕ
  minutes = 60_000 / as_u32 block_time

  unfoldable pub hours : ℕ
  unfolding minutes
  hours = minutes * 60

  unfoldable pub days : ℕ
  unfolding hours
  days = hours * 24

  -- `MinimumPeriod` of `pallet_timestamp::Config`.
  unfoldable pub minimum_period : ℕ
  minimum_period = slot_duration / 2

  -- `SlotDuration` of `pallet_aura::Config`, where `MinimumPeriodTimesTwo` is the argument.
  unfoldable pub aura_slot_duration : (ℕ → ℕ) → ℕ
  unfolding minimum_period
  aura_slot_duration minimum_period_times_two = minimum_period_times_two minimum_period

abbrev pub block_hash_count : ℕ
block_hash_count = 2400

quotient_bounds : (b : ℕ) → 0 < b → (60_000 / b * b ≤ 60_000) × (60_000 < 60_000 / b * b + b)
quotient_bounds b h = grind arith

scaled_bounds :
    (q b : ℕ)
    → 0 < b
    → q * b ≤ 60_000
    → 60_000 < q * b + b
    → (q * 60 * 24 * b ≤ 86_400_000)
      × (86_400_000 < q * 60 * 24 * b + 1440 * b)
      × (q * 60 * 24 ≤ u32_max)
scaled_bounds q b p lo hi =
    let at_most : q ≤ q * b = grind arith in (omega arith, omega arith, omega arith)

-- For a block time between 1 and `u32::MAX` milliseconds, `DAYS` blocks take at most a day, fall
-- short of it by less than 1440 block times (one for each minute), and are a `u32`.
pub days_bounds :
    (b : ℕ)
    → 0 < b
    → b ≤ u32_max
    → (days b * b ≤ 86_400_000) × (86_400_000 < days b * b + 1440 * b) × (days b ≤ u32_max)
unfolding days
days_bounds b p q =
    let same : b % 4294967296 ≡ b = omega arith in
    rw same (scaled_bounds (60_000 / b) b p (quotient_bounds b p).0 (quotient_bounds b p).1)

-- The slot duration of Aura is the `SLOT_DURATION` of the runtime exactly when that is even, given
-- that `MinimumPeriodTimesTwo` doubles with saturation.
aura_slot_duration-even_iff :
    (b : ℕ) (times_two : ℕ → ℕ)
    → ((n : ℕ) → times_two n ≡ min (n * 2) u64_max)
    → b ≤ u64_max
    → (aura_slot_duration b times_two ≡ slot_duration b) ↔ (b % 2 ≡ 0)
unfolding aura_slot_duration
aura_slot_duration-even_iff b times_two h r = rw h (λ e. omega arith, λ e. omega arith)
