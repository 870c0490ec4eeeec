-- ===== src/Node/Tests.antt =====
-- node/src/benchmarking.rs: runs, and the theorems at
-- concrete inputs.
use mathlib.Core.Logic.{if_pos, if_neg}
use nexusguild.Base.{
  ap, false, ◌==◌, ◌&&◌, ℕ, ◌+◌, ◌*◌, ◌^◌, ◌≤◌, ◌<◌, ◌≡◌, ◌↔◌, refl, true, none, returned, [],
  arith,
}
use nexusguild.Node.Benchmarking.{
  power_from, checked_next_power_of_two, era_period, Client, UncheckedExtrinsic,
  create_benchmark_extrinsic,
}
use nexusguild.Node.Benchmarking.Example.{
  Payload, Payload-discrete, tx_api, client, birth, implicit, implicit-IsImplicit, verify,
}
use nexusguild.Node.Benchmarking.Period.{era_period_bounds}
use nexusguild.Node.Benchmarking.Stale.{IsSound, create_benchmark_extrinsic-Verifies_iff}
use nexusguild.Node.Benchmarking.Signing.{Verifies}
use nexusguild.Runtime.Time.{block_hash_count}

period_of_2400 : era_period block_hash_count ≡ 2048
unfolding era_period checked_next_power_of_two power_from
period_of_2400 = refl

-- No power of two in a `u32` is greater than 2^31.
no_power : checked_next_power_of_two (2 ^ 31 + 1) ≡ none
unfolding checked_next_power_of_two power_from
no_power = refl

era_period_bounds_example :
    (k : ℕ) × (era_period 2400 ≡ 2 ^ k) × (era_period 2400 < 2400) × (2400 ≤ 2 * era_period 2400)
era_period_bounds_example = era_period_bounds 2400 (omega arith) (omega arith)

refuted : (p : ℕ) → ¬ (((p == p) && false) ≡ true)
refuted p v = ground arith

verify_iff : (p : ℕ) (m n : Payload) → (verify p m (p, n) ≡ true) ↔ (m ≡ n)
unfolding verify
verify_iff p m n = elim (Payload-discrete m n) [
  | yes e ↦ (λ v. e, λ d. rw (if_pos _ e) (ground arith))
  | no d ↦ (λ v. absurd (refuted p (rw (if_neg _ d) at v)), λ e. absurd (d e))
]

verify-IsSound : IsSound tx_api verify
verify-IsSound = record {
  signed = verify_iff;
  told = λ call extensions a b e. ap (λ (c, x, y). y) e;
}

-- A block was imported between the two answers: the hash is that of block 5, the number is 6.
abbrev late : Client tx_api
late = record client { best_number = 6 }

create_benchmark_extrinsic-Verifies_iff_example :
    (x : UncheckedExtrinsic tx_api) × (create_benchmark_extrinsic tx_api late 2 [] 9 ≡ returned x)
    × (Verifies tx_api implicit verify x ↔ (◌≡◌ {A = ℕ} 106 105))
create_benchmark_extrinsic-Verifies_iff_example =
    create_benchmark_extrinsic-Verifies_iff tx_api implicit verify 100 birth late 2 [] 9
      implicit-IsImplicit verify-IsSound refl
