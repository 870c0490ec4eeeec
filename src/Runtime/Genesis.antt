-- ===== src/Runtime/Genesis.antt =====
-- runtime/src/genesis_config_presets.rs: the presets of the genesis configuration.
use mathlib.Core.List.{filter, Nodup, Mem}
use mathlib.Core.Logic.{ite}
use nexusguild.Base.{
  ℕ, ◌≡◌, ◌≢◌, String, str_eq, if◌then◌else◌, Option, none, some, Result, Outcome, returned,
  expect_result, map_outcome, List, [], ◌∷◌, map,
}
use nexusguild.Base.Words.{one_shl_u128}
pub mod Patches
pub mod Presets

-- What `sp_keyring` provides: the well-known accounts, and the keys made of them. `iter` is
-- `Sr25519Keyring::iter()`, and the two grandpa keys are those of `Ed25519Keyring`.
pub record Keyring : Type 1 where
  pub Key : Type 0
  pub AccountId : Type 0
  pub AuraId : Type 0
  pub GrandpaId : Type 0
  pub key_dec : Discrete Key
  pub alice : Key
  pub bob : Key
  pub alice_stash : Key
  pub bob_stash : Key
  pub one : Key
  pub two : Key
  pub iter : List Key
  pub sr25519_public : Key → AuraId
  pub ed25519_alice : GrandpaId
  pub ed25519_bob : GrandpaId
  pub to_account_id : Key → AccountId

-- The named keys differ, `iter` meets every key once, and two keys have two accounts.
pub record IsKeyring (K : Keyring) : Type 0 where
  pub named-Nodup : Nodup (K.alice ∷ K.bob ∷ K.alice_stash ∷ K.bob_stash ∷ K.one ∷ K.two ∷ [])
  pub iter-Nodup : Nodup K.iter
  pub mem-iter : (k : K.Key) → Mem k K.iter
  pub account_injective : (j k : K.Key) → K.to_account_id j ≡ K.to_account_id k → j ≡ k

-- The parts of `RuntimeGenesisConfig` that the presets set.
pub record Patch (K : Keyring) : Type 0 where
  pub balances : List (K.AccountId × ℕ)
  pub aura_authorities : List K.AuraId
  pub grandpa_authorities : List (K.GrandpaId × ℕ)
  pub sudo_key : Option K.AccountId

-- `build_struct_json_patch!`, `serde_json::to_string` and the names of the presets in
-- `sp_genesis_builder`.
pub record Builder (K : Keyring) : Type 1 where
  pub Value : Type 0
  pub JsonError : Type 0
  pub json_patch : Patch K → Value
  pub to_string : Value → Result JsonError String
  pub dev_runtime_preset : String
  pub local_testnet_runtime_preset : String

module _ (K : Keyring) where
  open K use {Key, AccountId, AuraId, GrandpaId, alice, bob, to_account_id, sr25519_public}

  -- The configuration that `testnet_genesis` gives to `build_struct_json_patch!`.
  unfoldable pub testnet_patch : List (AuraId × GrandpaId) → List AccountId → AccountId → Patch K
  testnet_patch initial_authorities endowed_accounts root = record {
    balances = map (λ k. (k, one_shl_u128 60)) endowed_accounts;
    aura_authorities = map (λ (aura, grandpa). aura) initial_authorities;
    grandpa_authorities = map (λ (aura, grandpa). (grandpa, 1)) initial_authorities;
    sudo_key = some root;
  }

  unfoldable pub development_patch : Patch K
  unfolding testnet_patch
  development_patch =
      testnet_patch ((sr25519_public alice, K.ed25519_alice) ∷ [])
        (to_account_id alice
          ∷ to_account_id bob
          ∷ to_account_id K.alice_stash
          ∷ to_account_id K.bob_stash
          ∷ [])
        (to_account_id alice)

  -- The test `v != &One && v != &Two`.
  abbrev pub IsEndowed : Key → Type 0
  IsEndowed v = (v ≢ K.one) × (v ≢ K.two)

  unfoldable pub is_endowed : (v : Key) → Dec (IsEndowed v)
  is_endowed v = elim (K.key_dec v K.one) [
    | yes p ↦ no (λ h. h.0 p)
    | no p ↦ elim (K.key_dec v K.two) [ yes q ↦ no (λ h. h.1 q) | no q ↦ yes (p, q) ]
  ]

  unfoldable pub local_patch : Patch K
  unfolding testnet_patch is_endowed
  local_patch =
      testnet_patch
        ((sr25519_public alice, K.ed25519_alice) ∷ (sr25519_public bob, K.ed25519_bob) ∷ [])
        (map to_account_id (filter is_endowed K.iter)) (to_account_id alice)

module _ (K : Keyring) (B : Builder K) where
  open B use {Value, dev_runtime_preset, local_testnet_runtime_preset}

  unfoldable pub development_config_genesis : Value
  development_config_genesis = B.json_patch (development_patch K)

  unfoldable pub local_config_genesis : Value
  local_config_genesis = B.json_patch (local_patch K)

  -- The bytes are those of the text that is returned.
  json_bytes : Value → Outcome (Option String)
  json_bytes patch =
      map_outcome some
        (expect_result (B.to_string patch) "serialization to json is expected to work. qed.")

  unfoldable pub get_preset : String → Outcome (Option String)
  unfolding json_bytes development_config_genesis local_config_genesis
  get_preset id =
      if str_eq id dev_runtime_preset
      then json_bytes development_config_genesis
      else if str_eq id local_testnet_runtime_preset
      then json_bytes local_config_genesis
      else returned none

  unfoldable pub preset_names : List String
  preset_names = dev_runtime_preset ∷ local_testnet_runtime_preset ∷ []
