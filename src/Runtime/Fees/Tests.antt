-- ===== src/Runtime/Fees/Tests.antt =====
-- The theorem on fees, for a formula that is the documented one.
use nexusguild.Base.Words.{u128_max}
use nexusguild.Base.{min, ℕ, ◌+◌, ◌*◌, ◌≤◌, ◌≡◌, refl, [], ◌∷◌, All, arith}
use nexusguild.Template.Dispatch.{cause_error}
use nexusguild.Template.Weights.Example.{weights, weights-IsLawful}
use nexusguild.Runtime.Currency.{existential_deposit}
use nexusguild.Runtime.Example.{Key, alice, bob, keyring}
use nexusguild.Runtime.Genesis.{testnet_patch}
use nexusguild.Runtime.Fees.{FeeApi, IsFeeApi, template_fee, testnet_patch-can_pay}

-- A multiplier is a number.
abbrev fees : FeeApi weights
fees = record {
  Multiplier = ℕ;
  one = 1;
  saturating_mul_int = λ m fee. min (m * fee) u128_max;
  identity_fee_of_weight = λ (time, proof). time;
  identity_fee = λ length. length;
  compute_fee = λ c base length weight tip.
      min
        (c.weight_to_fee base
          + c.length_to_fee length
          + min (c.fee_multiplier * c.weight_to_fee weight) u128_max
          + tip)
        u128_max;
}

one_times : (fee : ℕ) → fee ≤ u128_max → min (1 * fee) u128_max ≡ fee
one_times fee h = omega arith

fees-IsFeeApi : IsFeeApi weights fees
fees-IsFeeApi = record {
  compute_fee-formula = λ c base length weight tip b w. refl;
  one-saturating_mul_int = one_times;
  identity_fee_of_weight-time = λ w. refl;
  identity_fee-length = λ length. refl;
}

testnet_patch-can_pay_example :
    All {A = Key × ℕ}
      (λ (account, balance).
        1_000_000_000
            * template_fee weights fees
                (25_000_000, 100_000_000)
                (108_157_000, 0)
                120
                cause_error
                (20_000_000, 0)
                0
          + existential_deposit
        ≤ balance)
      (testnet_patch keyring [] (alice ∷ bob ∷ []) alice).balances
testnet_patch-can_pay_example =
    testnet_patch-can_pay weights weights-IsLawful fees fees-IsFeeApi (25_000_000, 100_000_000)
      (108_157_000, 0) 120 cause_error (20_000_000, 0) keyring [] (alice ∷ bob ∷ []) alice
      (omega arith) (omega arith) (omega arith) (omega arith) (omega arith)
