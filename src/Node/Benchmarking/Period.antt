-- ===== src/Node/Benchmarking/Period.antt =====
-- node/src/benchmarking.rs: the period of the era against `BlockHashCount`.
use native.Mathlib.Nat.{pow-suc}
use nexusguild.Base.{
  ℕ, zero, suc, ◌+◌, ◌*◌, ◌/◌, ◌^◌, ◌≤◌, ◌<◌, ◌≡◌, Bool-cases, leb, leb→le, not-leb→lt, inl, inr,
  some, ap, ◌∙◌, arith,
}
use nexusguild.Node.Benchmarking.{half_or_two, power_from, checked_next_power_of_two, era_period}

-- From an exponent whose power is too small, with enough fuel, the search ends at the least power
-- that is large enough.
power_from_finds :
    (fuel e c : ℕ)
    → 2 ^ e < c
    → c ≤ 2 ^ (e + fuel)
    → (k : ℕ) × (power_from fuel (suc e) c ≡ some (2 * 2 ^ k)) × (2 ^ k < c) × (c ≤ 2 * 2 ^ k)
unfolding power_from
power_from_finds zero e c lo hi =
    let same : e + 0 ≡ e = omega arith in
    let less : c ≤ 2 ^ e = rw same at hi in absurd (omega arith)
power_from_finds (suc fuel) e c lo hi =
    let double : 2 ^ suc e ≡ 2 * 2 ^ e = omega (arith, pow-suc 2 e) in
    elim (Bool-cases (leb c (2 ^ suc e))) [
      | inl found ↦
          let enough : c ≤ 2 ^ suc e = leb→le c (2 ^ suc e) found in
          (e, rw found (ap some double), lo, omega arith)
      | inr missed ↦
          let more : 2 ^ suc e < c = not-leb→lt c (2 ^ suc e) missed in
          let shifted : e + suc fuel ≡ suc e + fuel = omega arith in
          let bound : c ≤ 2 ^ (suc e + fuel) = rw shifted at hi in
          rw missed (power_from_finds fuel (suc e) c more bound)
    ]

power_from_skip : (fuel e c : ℕ) → 2 ^ e < c → power_from (suc fuel) e c ≡ power_from fuel (suc e) c
unfolding power_from
power_from_skip fuel e c h = ground arith

-- For a count of kept block hashes between 2 and 2^31, the period is a power of two, is less than
-- the count, and is at least half of it.
pub era_period_bounds :
    (c : ℕ)
    → 2 ≤ c
    → c ≤ 2 ^ 31
    → (k : ℕ) × (era_period c ≡ 2 ^ k) × (era_period c < c) × (c ≤ 2 * era_period c)
unfolding era_period checked_next_power_of_two
era_period_bounds c lo hi =
    let (k, found, below, above) = power_from_finds 31 0 c (omega arith) hi in
    let halved : 2 * 2 ^ k / 2 ≡ 2 ^ k = omega arith in
    let period : era_period c ≡ 2 ^ k =
      ap half_or_two (power_from_skip 31 0 c (omega arith) ∙ found) ∙ halved in
    (k, period, omega arith, omega arith)
