-- ===== src/Runtime/Fees.antt =====
-- runtime/src/configs/mod.rs, pallets/template/src/weights.rs and the genesis presets: what a call
-- of the template pallet costs, and who can pay for it.
use nexusguild.Base.{min, ℕ, ◌+◌, ◌*◌, ◌^◌, ◌≤◌, ◌≡◌, List, [], ◌∷◌, All, arith}
use nexusguild.Base.Words.{u128_max}
use nexusguild.Template.Dispatch.{Call}
use nexusguild.Template.Weights.{WeightApi, IsLawful, substrate_weight, call_weight}
use nexusguild.Runtime.Currency.{existential_deposit}
use nexusguild.Runtime.Genesis.{Keyring, testnet_patch}
use nexusguild.Runtime.Blocks.{call_weight-le}
use nexusguild.Runtime.Config.{PaymentConfig, payment_config, system_config}
mod Tests

-- `sp_runtime` and `pallet_transaction_payment`: the fee of an extrinsic by the configuration, the
-- weight of any extrinsic, its length, the weight of its call and of its extensions, and its tip.
pub record FeeApi (W : WeightApi) : Type 1 where
  pub Multiplier : Type 0
  pub one : Multiplier
  pub saturating_mul_int : Multiplier → ℕ → ℕ
  pub identity_fee_of_weight : W.Weight → ℕ
  pub identity_fee : ℕ → ℕ
  pub compute_fee : PaymentConfig W.Weight Multiplier → W.Weight → ℕ → W.Weight → ℕ → ℕ

-- The documented formula, where no weight is above that of a block: the fee of the base weight,
-- that of the length, that of the extrinsic's own weight times the multiplier, and the tip, in a
-- `u128` that saturates. The identity takes the time of a weight, or a length, for the fee, and the
-- multiplier one leaves a `u128`.
pub record IsFeeApi (W : WeightApi) (A : FeeApi W) : Type 0 where
  pub compute_fee-formula :
      (c : PaymentConfig W.Weight A.Multiplier) (base : W.Weight) (length : ℕ) (weight : W.Weight)
      (tip : ℕ)
      → W.ref_time base ≤ 2_000_000_000_000
      → W.ref_time weight ≤ 2_000_000_000_000
      → A.compute_fee c base length weight tip
        ≡ min
            (c.weight_to_fee base
              + c.length_to_fee length
              + A.saturating_mul_int c.fee_multiplier (c.weight_to_fee weight)
              + tip)
            u128_max
  pub one-saturating_mul_int : (fee : ℕ) → fee ≤ u128_max → A.saturating_mul_int A.one fee ≡ fee
  pub identity_fee_of_weight-time : (w : W.Weight) → A.identity_fee_of_weight w ≡ W.ref_time w
  pub identity_fee-length : (length : ℕ) → A.identity_fee length ≡ length

module _ (W : WeightApi) (A : FeeApi W) (db : W.RuntimeDbWeight) where
  -- The fee of an extrinsic with a template call, by the configuration of the runtime: its weight
  -- is that of the call and of its extensions.
  abbrev pub template_fee : W.Weight → ℕ → Call → W.Weight → ℕ → ℕ
  template_fee base length call extensions tip =
      A.compute_fee (payment_config A.identity_fee_of_weight A.identity_fee A.one) base length
        (W.saturating_add (call_weight W (substrate_weight W db) call) extensions) tip

module _ (W : WeightApi) (L : IsLawful W) (A : FeeApi W) (F : IsFeeApi W A)
    (db : W.RuntimeDbWeight) where
  open W use {Weight, ref_time, read_cost, write_cost}

  template_fee-le :
      (base : Weight) (length : ℕ) (call : Call) (extensions : Weight)
      → read_cost db ≤ 25_000_000
      → write_cost db ≤ 100_000_000
      → ref_time base ≤ 500_000_000
      → ref_time extensions ≤ 500_000_000
      → template_fee W A db base length call extensions 0
        ≤ ref_time base + length + 131_000_000 + ref_time extensions
  unfolding payment_config
  template_fee-le base length call extensions r w b e =
      let weight = W.saturating_add (call_weight W (substrate_weight W db) call) extensions in
      let small : ref_time weight ≤ 131_000_000 + ref_time extensions = omega (
        arith,
        L.ref_time-saturating_add (call_weight W (substrate_weight W db) call) extensions,
        call_weight-le W L db r w call,
      ) in
      omega (
        arith,
        F.compute_fee-formula (payment_config A.identity_fee_of_weight A.identity_fee A.one) base
            length weight 0 (omega arith) (omega (arith, small)),
        F.one-saturating_mul_int (A.identity_fee_of_weight weight)
            (omega (arith, small, F.identity_fee_of_weight-time weight)),
        F.identity_fee_of_weight-time base,
        F.identity_fee_of_weight-time weight,
        F.identity_fee-length length,
        small,
      )

  affordable :
      (base : Weight) (length : ℕ) (call : Call) (extensions : Weight)
      → read_cost db ≤ 25_000_000
      → write_cost db ≤ 100_000_000
      → ref_time base ≤ 500_000_000
      → ref_time extensions ≤ 500_000_000
      → length ≤ system_config.block_length_max
      → 1_000_000_000 * template_fee W A db base length call extensions 0 + existential_deposit
        ≤ 2 ^ 60
  affordable base length call extensions r w b e l =
      omega (arith, template_fee-le base length call extensions r w b e)

-- Every account that `testnet_genesis` endows can pay at genesis for 10^9 extrinsics with calls of
-- the pallet without a tip, and keeps the existential deposit: the fee is that of the base weight,
-- of the length, and of the weight of the call and of the extensions, by the documented formula of
-- `pallet_transaction_payment`. The base weight and that of the extensions are at most 5 * 10^8
-- each, the length is that of a block at most, and the database reads and writes cost at most those
-- of RocksDB.
pub testnet_patch-can_pay :
    (W : WeightApi) (L : IsLawful W) (A : FeeApi W) (F : IsFeeApi W A) (db : W.RuntimeDbWeight)
    (base : W.Weight) (length : ℕ) (call : Call) (extensions : W.Weight) (K : Keyring)
    (authorities : List (K.AuraId × K.GrandpaId)) (accounts : List K.AccountId) (root : K.AccountId)
    → W.read_cost db ≤ 25_000_000
    → W.write_cost db ≤ 100_000_000
    → W.ref_time base ≤ 500_000_000
    → W.ref_time extensions ≤ 500_000_000
    → length ≤ system_config.block_length_max
    → All {A = K.AccountId × ℕ}
        (λ (account, balance).
          1_000_000_000 * template_fee W A db base length call extensions 0 + existential_deposit
          ≤ balance)
        (testnet_patch K authorities accounts root).balances
unfolding testnet_patch
testnet_patch-can_pay W L A F db base length call extensions K authorities [] root r w b e l = tt
testnet_patch-can_pay W L A F db base length call extensions K authorities (k ∷ accounts) root r w b
      e l =
    (
      affordable W L A F db base length call extensions r w b e l,
      testnet_patch-can_pay W L A F db base length call extensions K authorities accounts root r w b
          e l,
    )
