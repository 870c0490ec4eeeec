-- ===== src/Runtime/Types.antt =====
-- runtime/src/lib.rs: the types of the runtime, over those of the crates of Substrate.
use nexusguild.Base.{ℕ, Bool, List, [], ◌∷◌}

-- The types and type constructors of `sp_runtime`, `sp_core` and `frame_executive`. `Signer` and
-- `IdentifiedAccount` are the associated types of the traits `Verify` and `IdentifyAccount`, and
-- `Output` that of `Hash`.
pub record SpTypes : Type 1 where
  pub MultiSignature : Type 0
  pub Signer : Type 0 → Type 0
  pub IdentifiedAccount : Type 0 → Type 0
  pub MultiAddress : Type 0 → Type 0 → Type 0
  pub H256 : Type 0
  pub BlakeTwo256 : Type 0
  pub Output : Type 0 → Type 0
  pub GenericHeader : Type 0 → Type 0 → Type 0
  pub GenericBlock : Type 0 → Type 0 → Type 0
  pub GenericSignedBlock : Type 0 → Type 0
  pub GenericBlockId : Type 0 → Type 0
  pub GenericUncheckedExtrinsic : Type 0 → Type 0 → Type 0 → Type 0 → Type 0
  pub GenericSignedPayload : Type 0 → Type 0 → Type 0
  pub OpaqueExtrinsic : Type 0
  pub ChainContext : Type 0 → Type 0
  pub FrameExecutive : Type 0 → Type 0 → Type 0 → Type 0 → Type 0 → Type 0 → Type 0
  pub Era : Type 0

-- The extensions of a transaction, by the names of their types.
pub data ExtensionKind : Type 0 where
  check_non_zero_sender check_spec_version check_tx_version check_genesis check_era check_nonce
        check_weight charge_transaction_payment check_metadata_hash weight_reclaim :
      ExtensionKind

-- The tuple of types `TxExtension`.
abbrev pub tx_extension : List ExtensionKind
tx_extension =
    check_non_zero_sender ∷ check_spec_version ∷ check_tx_version ∷ check_genesis ∷ check_era
    ∷ check_nonce ∷ check_weight ∷ charge_transaction_payment ∷ check_metadata_hash ∷ weight_reclaim
    ∷ []

-- What a value of an extension holds: an era, a nonce, a tip, or the mode of the metadata hash.
abbrev pub Held : Type 0 → ExtensionKind → Type 0
Held Era check_era = Era
Held Era check_nonce = ℕ
Held Era charge_transaction_payment = ℕ
Held Era check_metadata_hash = Bool
Held Era _ = Unit

-- A tuple with a component for each extension.
abbrev pub Tuple : (ExtensionKind → Type 0) → List ExtensionKind → Type 0
Tuple P [] = Unit
Tuple P (kind ∷ kinds) = P kind × Tuple P kinds

-- `u32` and `u128` are numbers.
abbrev pub Nonce : Type 0
Nonce = ℕ

abbrev pub Balance : Type 0
Balance = ℕ

abbrev pub BlockNumber : Type 0
BlockNumber = ℕ

-- No migrations.
abbrev pub Migrations : Type 0
Migrations = Unit

module _ (S : SpTypes) where
  open S use {BlakeTwo256, GenericHeader, GenericBlock}

  abbrev pub Signature : Type 0
  Signature = S.MultiSignature

  abbrev pub AccountId : Type 0
  AccountId = S.IdentifiedAccount (S.Signer Signature)

  abbrev pub Hash : Type 0
  Hash = S.H256

  abbrev pub Address : Type 0
  Address = S.MultiAddress AccountId (Unit {0})

  abbrev pub Header : Type 0
  Header = GenericHeader BlockNumber BlakeTwo256

  abbrev pub TxExtension : Type 0
  TxExtension = Tuple (Held S.Era) tx_extension

  -- The types below are of the generated type of calls.
  module _ (RuntimeCall : Type 0) where
    abbrev pub UncheckedExtrinsic : Type 0
    UncheckedExtrinsic = S.GenericUncheckedExtrinsic Address RuntimeCall Signature TxExtension

    abbrev pub SignedPayload : Type 0
    SignedPayload = S.GenericSignedPayload RuntimeCall TxExtension

    abbrev pub Block : Type 0
    Block = GenericBlock Header UncheckedExtrinsic

    abbrev pub SignedBlock : Type 0
    SignedBlock = S.GenericSignedBlock Block

    abbrev pub BlockId : Type 0
    BlockId = S.GenericBlockId Block

    -- Over the type of the runtime and the tuple of its pallets.
    abbrev pub Executive : Type 0 → Type 0 → Type 0
    Executive Runtime AllPalletsWithSystem =
        S.FrameExecutive Runtime Block (S.ChainContext Runtime) Runtime AllPalletsWithSystem
          Migrations

  -- The module `opaque`: what the node knows of blocks.
  abbrev pub OpaqueHeader : Type 0
  OpaqueHeader = GenericHeader BlockNumber BlakeTwo256

  abbrev pub OpaqueBlock : Type 0
  OpaqueBlock = GenericBlock OpaqueHeader S.OpaqueExtrinsic

  abbrev pub OpaqueBlockId : Type 0
  OpaqueBlockId = S.GenericBlockId OpaqueBlock

  abbrev pub OpaqueHash : Type 0
  OpaqueHash = S.Output BlakeTwo256

-- `SessionKeys`: the keys that the pallets name.
pub record SessionKeys (AuraKey GrandpaKey : Type 0) : Type 0 where
  pub aura : AuraKey
  pub grandpa : GrandpaKey
