-- ===== src/Runtime/Config.antt =====
-- runtime/src/configs/mod.rs: the numbers and functions that the runtime chooses for the pallets of
-- FRAME, but for those of time and of the block weights.
use nexusguild.Base.{ℕ, ◌*◌, Bool, false}
use nexusguild.Runtime.Time.{block_hash_count}
use nexusguild.Runtime.Genesis.Patches.{max_authorities}
use nexusguild.Runtime.Currency.{existential_deposit}
pub mod Pallets

-- `frame_system::Config`
pub record SystemConfig : Type 0 where
  pub block_hash_count_config : ℕ
  pub block_length_max : ℕ
  pub ss58_prefix : ℕ
  pub max_consumers : ℕ

-- `RuntimeBlockLength` is made of the length and the ratio of the block weights.
abbrev pub system_config : SystemConfig
system_config = record {
  block_hash_count_config = block_hash_count;
  block_length_max = 5 * 1024 * 1024;
  ss58_prefix = 42;
  max_consumers = 16;
}

-- `pallet_aura::Config` and `pallet_grandpa::Config`
pub record ConsensusConfig : Type 0 where
  pub aura_max_authorities : ℕ
  pub allow_multiple_blocks_per_slot : Bool
  pub grandpa_max_authorities : ℕ
  pub max_nominators : ℕ
  pub max_set_id_session_entries : ℕ

abbrev pub consensus_config : ConsensusConfig
consensus_config = record {
  aura_max_authorities = max_authorities;
  allow_multiple_blocks_per_slot = false;
  grandpa_max_authorities = max_authorities;
  max_nominators = 0;
  max_set_id_session_entries = 0;
}

-- `pallet_balances::Config`
pub record BalancesConfig : Type 0 where
  pub max_locks : ℕ
  pub existential_deposit_config : ℕ

abbrev pub balances_config : BalancesConfig
balances_config = record { max_locks = 50; existential_deposit_config = existential_deposit }

-- `pallet_transaction_payment::Config`, over the weights and the multipliers of `sp_runtime`.
pub record PaymentConfig (Weight Multiplier : Type 0) : Type 0 where
  pub operational_fee_multiplier : ℕ
  pub weight_to_fee : Weight → ℕ
  pub length_to_fee : ℕ → ℕ
  pub fee_multiplier : Multiplier

-- `IdentityFee` of a weight and of a length, and `Multiplier::one()`, are the arguments.
unfoldable pub payment_config :
    {Weight Multiplier : Type 0}
    → (Weight → ℕ)
    → (ℕ → ℕ)
    → Multiplier
    → PaymentConfig Weight Multiplier
payment_config identity_fee_of_weight identity_fee one = record {
  operational_fee_multiplier = 5;
  weight_to_fee = identity_fee_of_weight;
  length_to_fee = identity_fee;
  fee_multiplier = one;
}
