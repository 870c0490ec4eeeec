-- ===== src/Runtime/Config/Pallets.antt =====
-- runtime/src/configs/mod.rs: the types that the runtime chooses for the pallets, and its
-- configuration of the template pallet.
use nexusguild.Base.{ℕ, ◌≡◌, List, length}
use nexusguild.Template.Frame.{Event}
use nexusguild.Template.Config.{Config}
use nexusguild.Template.Weights.{WeightApi, substrate_weight}
use nexusguild.Runtime.Time.{milli_secs_per_block, minimum_period}
use nexusguild.Runtime.Types.{SpTypes, Nonce, Balance, AccountId, Hash, Block}

-- `frame_system::Config`: its types, and the weight of database operations.
pub record SystemTypes (DbWeight : Type 0) : Type 1 where
  pub BlockOf : Type 0
  pub AccountIdOf : Type 0
  pub NonceOf : Type 0
  pub HashOf : Type 0
  pub AccountData : Type 0
  pub db_weight : DbWeight

abbrev pub system_types :
    (S : SpTypes) (W : WeightApi) → Type 0 → (Type 0 → Type 0) → SystemTypes W.RuntimeDbWeight
system_types S W RuntimeCall AccountDataOf = record {
  BlockOf = Block S RuntimeCall;
  AccountIdOf = AccountId S;
  NonceOf = Nonce;
  HashOf = Hash S;
  AccountData = AccountDataOf Balance;
  db_weight = W.rocks_db_weight;
}

-- The types of the runtime that the macros of FRAME generate, and those of other crates, that the
-- configurations name: the pallets, the weights that come with them, an adapter for fees, and the
-- number of variants of an enum.
pub record ConfigTypes : Type 1 where
  pub RuntimeEvent : Type 0
  pub RuntimeCall : Type 0
  pub RuntimeHoldReason : Type 0
  pub RuntimeFreezeReason : Type 0
  pub System : Type 0
  pub Aura : Type 0
  pub Balances : Type 0
  pub AuraId : Type 0
  pub MinimumPeriodTimesTwo : Type 0
  pub BalancesWeight : Type 0
  pub PaymentWeight : Type 0
  pub SudoWeight : Type 0
  pub FungibleAdapter : Type 0 → Type 0 → Type 0
  pub variant_count : Type 0 → ℕ

-- `pallet_aura::Config`: no validator is ever disabled.
pub record AuraTypes : Type 1 where
  pub AuthorityId : Type 0
  pub DisabledValidators : Type 0
  pub SlotDuration : Type 0

abbrev pub aura_types : ConfigTypes → AuraTypes
aura_types T = record {
  AuthorityId = T.AuraId;
  DisabledValidators = Unit {0};
  SlotDuration = T.MinimumPeriodTimesTwo;
}

-- `pallet_grandpa::Config`: the proofs of ownership of a key are of the type `sp_core::Void`, which
-- has no value, and equivocations are reported to nobody.
pub record GrandpaTypes : Type 1 where
  pub EventOf : Type 0
  pub WeightInfo : Type 0
  pub KeyOwnerProof : Type 0
  pub EquivocationReportSystem : Type 0

abbrev pub grandpa_types : Type 0 → GrandpaTypes
grandpa_types RuntimeEvent = record {
  EventOf = RuntimeEvent;
  WeightInfo = Unit {0};
  KeyOwnerProof = ⊥;
  EquivocationReportSystem = Unit {0};
}

-- `pallet_timestamp::Config`: milliseconds in a `u64`, which Aura is told of.
pub record TimestampConfig : Type 1 where
  pub Moment : Type 0
  pub OnTimestampSet : Type 0
  pub WeightInfo : Type 0
  pub minimum_period_config : ℕ

abbrev pub timestamp_config : ConfigTypes → TimestampConfig
timestamp_config T = record {
  Moment = ℕ;
  OnTimestampSet = T.Aura;
  WeightInfo = Unit {0};
  minimum_period_config = minimum_period milli_secs_per_block;
}

-- `pallet_balances::Config`: a name of a reserve has eight bytes, and dust and slashes go nowhere.
pub record BalancesTypes : Type 1 where
  pub MaxReserves : Type 0
  pub ReserveIdentifier : Type 0
  pub BalanceOf : Type 0
  pub EventOf : Type 0
  pub DustRemoval : Type 0
  pub AccountStore : Type 0
  pub WeightInfo : Type 0
  pub FreezeIdentifier : Type 0
  pub max_freezes : ℕ
  pub HoldReason : Type 0
  pub FreezeReason : Type 0
  pub DoneSlashHandler : Type 0

abbrev pub balances_types : ConfigTypes → BalancesTypes
balances_types T = record {
  MaxReserves = Unit {0};
  ReserveIdentifier = (bytes : List ℕ) × (length bytes ≡ 8);
  BalanceOf = Balance;
  EventOf = T.RuntimeEvent;
  DustRemoval = Unit {0};
  AccountStore = T.System;
  WeightInfo = T.BalancesWeight;
  FreezeIdentifier = T.RuntimeFreezeReason;
  max_freezes = T.variant_count T.RuntimeFreezeReason;
  HoldReason = T.RuntimeHoldReason;
  FreezeReason = T.RuntimeFreezeReason;
  DoneSlashHandler = Unit {0};
}

-- `pallet_transaction_payment::Config`: fees are taken from the balances, and nobody gets them.
pub record PaymentTypes : Type 1 where
  pub EventOf : Type 0
  pub OnChargeTransaction : Type 0
  pub WeightInfo : Type 0

abbrev pub payment_types : ConfigTypes → PaymentTypes
payment_types T = record {
  EventOf = T.RuntimeEvent;
  OnChargeTransaction = T.FungibleAdapter T.Balances (Unit {0});
  WeightInfo = T.PaymentWeight;
}

-- `pallet_sudo::Config`
pub record SudoTypes : Type 1 where
  pub EventOf : Type 0
  pub CallOf : Type 0
  pub WeightInfo : Type 0

abbrev pub sudo_types : ConfigTypes → SudoTypes
sudo_types T = record {
  EventOf = T.RuntimeEvent;
  CallOf = T.RuntimeCall;
  WeightInfo = T.SudoWeight;
}

-- `pallet_template::Config`: the event is that of the runtime, made by a variant of it, and the
-- weights are those of `SubstrateWeight` with the database weight of the system.
abbrev pub template_config :
    (W : WeightApi) {AccountId RuntimeEvent : Type 0}
    → (Event AccountId → RuntimeEvent)
    → Config W AccountId
template_config W {RuntimeEvent = RuntimeEvent} variant = record {
  RuntimeEvent = RuntimeEvent;
  from_event = variant;
  weight_info = substrate_weight W W.rocks_db_weight;
}
