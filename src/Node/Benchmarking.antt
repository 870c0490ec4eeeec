-- ===== src/Node/Benchmarking.antt =====
-- node/src/benchmarking.rs: the extrinsics and the inherent data that the benchmarks use.
use nexusguild.Base.{
  ℕ, zero, suc, ◌+◌, ◌*◌, ◌/◌, ◌^◌, leb, if◌then◌else◌, String, Bool, true, false, Option, none,
  some, Result, ok, err, map_err, to_option, flatten_option, Outcome, returned, panicked,
  expect_option, map_outcome, List, [], ◌∷◌,
}
use nexusguild.Runtime.Version.{RuntimeVersion, runtime_version}
use nexusguild.Runtime.Time.{block_hash_count}
use nexusguild.Runtime.Currency.{existential_deposit}
pub mod Period
pub mod Signing
pub mod Example
pub mod Stale
pub mod Builders

-- `c.checked_next_power_of_two()` at `u32`: the least power of two that is at least c, sought among
-- 2^e, 2^(e + 1), … with as many tries as the fuel.
unfoldable pub power_from : ℕ → ℕ → ℕ → Option ℕ
power_from zero e c = none
power_from (suc fuel) e c =
    let next = power_from fuel (suc e) c in if leb c (2 ^ e) then some (2 ^ e) else next

-- The powers of two in a `u32` are those below 2^32.
unfoldable pub checked_next_power_of_two : ℕ → Option ℕ
checked_next_power_of_two c = power_from 32 0 c

abbrev half_or_two : Option ℕ → ℕ
half_or_two (some c) = c / 2
half_or_two none = 2

-- The period of the era, from the value of `BlockHashCount::get()`.
unfoldable pub era_period : ℕ → ℕ
era_period count = half_or_two (checked_next_power_of_two count)

-- The extensions of `TxExtension` (runtime/src/lib.rs); the era is of a type of `sp_runtime`.
pub data Extension (Era : Type 0) : Type 0 where
  check_non_zero_sender check_spec_version check_tx_version check_genesis : Extension Era
  check_era : Era → Extension Era
  check_nonce : ℕ → Extension Era
  check_weight : Extension Era
  charge_transaction_payment : ℕ → Extension Era
  check_metadata_hash : Bool → Extension Era
  weight_reclaim : Extension Era

-- What an extension adds to the signed payload: nothing, a version, a hash, or an optional
-- hash of the metadata.
pub data Implicit (Hash : Type 0) : Type 0 where
  nothing : Implicit Hash
  version : ℕ → Implicit Hash
  hash : Hash → Implicit Hash
  metadata_hash : Option Hash → Implicit Hash

-- What the extrinsics take from other crates: the calls of the system and the balances pallet, the
-- construction of eras, keys and signatures, and the encoding of what is signed.
pub record TxApi : Type 1 where
  pub Hash : Type 0
  pub Era : Type 0
  pub AccountId : Type 0
  pub RuntimeCall : Type 0
  pub Pair : Type 0
  pub Signature : Type 0
  pub Bytes : Type 0
  pub ClientError : Type 0
  pub mortal : ℕ → ℕ → Era
  pub remark : List ℕ → RuntimeCall
  pub transfer_keep_alive : AccountId → ℕ → RuntimeCall
  pub encode_payload : RuntimeCall → List (Extension Era) → List (Implicit Hash) → Bytes
  pub sign : Pair → Bytes → Signature
  pub account_of : Pair → AccountId
  pub bob : Pair

-- The versions of the runtime that the payload names.
abbrev pub spec_version : ℕ
spec_version = (runtime_version (tt {0})).spec_version

abbrev pub transaction_version : ℕ
transaction_version = (runtime_version (tt {0})).transaction_version

module _ (T : TxApi) where
  open T use {Hash, Era, AccountId, RuntimeCall, Pair, Signature, ClientError}

  -- What the client answers. `chain_info` is called twice, and another block may be imported
  -- between the calls: the best hash is that of the first answer, the best number of the second.
  pub record Client : Type 0 where
    pub block_hash : ℕ → Result ClientError (Option Hash)
    pub best_hash : Hash
    pub best_number : ℕ

  -- `generic::UncheckedExtrinsic`, signed.
  pub record UncheckedExtrinsic : Type 0 where
    pub function : RuntimeCall
    pub signer : AccountId
    pub signature : Signature
    pub extensions : List (Extension Era)

  -- The tuple `tx_ext`. The number of the best block, a `u32`, is within the `u64` of an era.
  unfoldable pub tx_extensions : ℕ → ℕ → List (Extension Era)
  tx_extensions best_block nonce =
      check_non_zero_sender
      ∷ check_spec_version
      ∷ check_tx_version
      ∷ check_genesis
      ∷ check_era (T.mortal (era_period block_hash_count) best_block)
      ∷ check_nonce nonce
      ∷ check_weight
      ∷ charge_transaction_payment 0
      ∷ check_metadata_hash false
      ∷ weight_reclaim
      ∷ []

  -- The third argument of `SignedPayload::from_raw`.
  unfoldable pub additional_signed : Hash → Hash → List (Implicit Hash)
  additional_signed genesis_hash best_hash =
      nothing
      ∷ version spec_version
      ∷ version transaction_version
      ∷ hash genesis_hash
      ∷ hash best_hash
      ∷ nothing
      ∷ nothing
      ∷ nothing
      ∷ metadata_hash none
      ∷ nothing
      ∷ []

  signed_extrinsic : Client → Pair → RuntimeCall → ℕ → Hash → UncheckedExtrinsic
  signed_extrinsic client sender call nonce genesis_hash =
      let tx_ext = tx_extensions client.best_number nonce in
      let payload =
        T.encode_payload call tx_ext (additional_signed genesis_hash client.best_hash) in
      record {
        function = call;
        signer = T.account_of sender;
        signature = T.sign sender payload;
        extensions = tx_ext;
      }

  unfoldable pub create_benchmark_extrinsic :
      Client → Pair → RuntimeCall → ℕ → Outcome UncheckedExtrinsic
  unfolding signed_extrinsic
  create_benchmark_extrinsic client sender call nonce =
      map_outcome (signed_extrinsic client sender call nonce) (
        expect_option (flatten_option (to_option (client.block_hash 0)))
          "Genesis block exists; qed")

  -- `RemarkBuilder`
  pub record RemarkBuilder : Type 0 where
    pub client : Client

  -- `RemarkBuilder::build`, which returns `Ok` unless it panics.
  unfoldable pub build_remark : RemarkBuilder → ℕ → Outcome UncheckedExtrinsic
  unfolding create_benchmark_extrinsic
  build_remark b nonce = create_benchmark_extrinsic b.client T.bob (T.remark []) nonce

  -- `TransferKeepAliveBuilder`
  pub record TransferKeepAliveBuilder : Type 0 where
    pub client : Client
    pub dest : AccountId
    pub value : ℕ

  unfoldable pub build_transfer : TransferKeepAliveBuilder → ℕ → Outcome UncheckedExtrinsic
  unfolding create_benchmark_extrinsic
  build_transfer b nonce =
      create_benchmark_extrinsic b.client T.bob (T.transfer_keep_alive b.dest b.value) nonce
