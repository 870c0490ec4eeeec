-- ===== src/Runtime/Apis/Consensus.antt =====
-- runtime/src/apis.rs: `AuraApi`, `SessionKeys` and `GrandpaApi`. No equivocation is reported, and
-- no ownership of a key is proved.
use nexusguild.Base.{ℕ, String, ◌≡◌, ok, Option, none, List}
use nexusguild.Runtime.Time.{aura_slot_duration, milli_secs_per_block}
use nexusguild.Runtime.Genesis.{Keyring, Builder, Patch}
use nexusguild.Runtime.Genesis.Patches.{IsBuildable}
use nexusguild.Runtime.Apis.Genesis.{GenesisHelper, GenesisMerge, merged}

-- What the pallets of the consensus keep in the storage.
pub record ConsensusPallets (K : Keyring) (Storage : Type 0) : Type 0 where
  pub stored_aura_authorities : Storage → List K.AuraId
  pub stored_grandpa_authorities : Storage → List (K.GrandpaId × ℕ)
  pub stored_set_id : Storage → ℕ

-- The `AuraApi`: `from_millis` and `MinimumPeriodTimesTwo` are the arguments.
unfoldable pub slot_duration : {SlotDuration : Type 0} → (ℕ → SlotDuration) → (ℕ → ℕ) → SlotDuration
slot_duration from_millis minimum_period_times_two =
    from_millis (aura_slot_duration milli_secs_per_block minimum_period_times_two)

module _ (K : Keyring) (Storage : Type 0) (P : ConsensusPallets K Storage) where
  unfoldable pub authorities : Storage → List K.AuraId
  authorities s = P.stored_aura_authorities s

  unfoldable pub grandpa_authorities : Storage → List (K.GrandpaId × ℕ)
  grandpa_authorities s = P.stored_grandpa_authorities s

  unfoldable pub current_set_id : Storage → ℕ
  current_set_id s = P.stored_set_id s

-- What `pallet_aura` and `pallet_grandpa` do when the genesis is built into a storage that has no
-- authorities yet: they store those of the configuration.
pub record StoresAuthorities (K : Keyring) (B : Builder K) (Storage : Type 0)
    (G : GenesisHelper Storage) (M : GenesisMerge Storage) (P : ConsensusPallets K Storage)
    : Type 0 where
  pub built :
      (p : Patch K) (text : String)
      → B.to_string (B.json_patch p) ≡ ok text
      → IsBuildable K p
      → (P.stored_aura_authorities (G.build_state (merged M text) M.blank).1 ≡ p.aura_authorities)
        × (P.stored_grandpa_authorities (G.build_state (merged M text) M.blank).1
            ≡ p.grandpa_authorities)

-- `SessionKeys`, which `impl_opaque_keys!` makes of the keys of Aura and of GRANDPA. Keys are
-- generated into the keystore of the node.
pub record KeyApi : Type 1 where
  pub Keystore : Type 0
  pub KeyTypeId : Type 0
  pub generate : Option (List ℕ) → Keystore → List ℕ × Keystore
  pub decode_into_raw_public_keys : List ℕ → Option (List (List ℕ × KeyTypeId))

module _ (S : KeyApi) where
  unfoldable pub generate_session_keys : Option (List ℕ) → S.Keystore → List ℕ × S.Keystore
  generate_session_keys seed = S.generate seed

  unfoldable pub decode_session_keys : List ℕ → Option (List (List ℕ × S.KeyTypeId))
  decode_session_keys encoded = S.decode_into_raw_public_keys encoded

unfoldable pub submit_report_equivocation_unsigned_extrinsic :
    {EquivocationProof KeyOwnerProof : Type 0}
    → EquivocationProof
    → KeyOwnerProof
    → Option (Unit {0})
submit_report_equivocation_unsigned_extrinsic equivocation_proof key_owner_proof = none

unfoldable pub generate_key_ownership_proof :
    {GrandpaId KeyOwnerProof : Type 0} → ℕ → GrandpaId → Option KeyOwnerProof
generate_key_ownership_proof set_id authority_id = none
