-- ===== src/Node/ChainSpec/Built.antt =====
-- node/src/chain_spec.rs and `load_spec` against runtime/src/apis.rs: the genesis of the built-in
-- chains.
use nexusguild.Base.{◌≡◌, ◌≢◌, ◌⊎◌, String, none, some, ok, returned, ◌∙◌, ℕ, List, [], ◌∷◌}
use nexusguild.Runtime.Genesis.{
  Keyring, IsKeyring, Builder, Patch, testnet_patch, development_patch, local_patch,
}
use nexusguild.Runtime.Genesis.Patches.{
  IsBuildable, development_patch-IsBuildable, local_patch-IsBuildable,
}
use nexusguild.Runtime.Genesis.Presets.{get_preset_lem, IsText, Writes}
use nexusguild.Runtime.Apis.Genesis.{
  GenesisHelper, GenesisMerge, merged, IsHelper, build_state, get_preset,
}
use nexusguild.Runtime.Apis.Consensus.{
  ConsensusPallets, StoresAuthorities, authorities, grandpa_authorities,
}
use nexusguild.Node.ChainSpec.{SpecApi, IsLawful, load_spec}
use nexusguild.Node.ChainSpec.Laws.{load_spec-built_in}

module _ (K : Keyring) (B : Builder K) (Storage : Type 0) (G : GenesisHelper Storage)
    (M : GenesisMerge Storage) (P : ConsensusPallets K Storage) where
  -- The runtime has a preset of the name, whose text is a patch to its default configuration,
  -- builds the merged configuration into a storage without keys, and then reports these
  -- authorities.
  pub record Starts (preset : String) (aura : List K.AuraId) (grandpa : List (K.GrandpaId × ℕ))
      : Type 0 where
    pub text : String
    pub found : get_preset K B Storage G (some preset) ≡ returned (some text)
    pub defaults : get_preset K B Storage G none ≡ returned (some M.default_config)
    pub built : (build_state K B Storage G (merged M text) M.blank).0 ≡ ok tt
    pub aura_authorities :
        authorities K Storage P (build_state K B Storage G (merged M text) M.blank).1 ≡ aura
    pub grandpa_ones :
        grandpa_authorities K Storage P (build_state K B Storage G (merged M text) M.blank).1
        ≡ grandpa

  -- The specification that `load_spec` gives names such a preset.
  abbrev pub Launches :
      (S : SpecApi) → S.Wasm → String → List K.AuraId → List (K.GrandpaId × ℕ) → Type 0
  Launches S w id aura grandpa =
      (spec : S.ChainSpec) × (preset : String) × (load_spec S (some w) id ≡ ok spec)
      × (S.preset_name spec ≡ some preset)
      × Starts preset aura grandpa

module _ (K : Keyring) (B : Builder K) (Storage : Type 0) (G : GenesisHelper Storage)
    (M : GenesisMerge Storage) (P : ConsensusPallets K Storage) (helper : IsHelper K B Storage G M)
    (stores : StoresAuthorities K B Storage G M P) where
  text-Starts :
      (preset : String) (p : Patch K)
      → IsBuildable K p
      → IsText K B p (nexusguild.Runtime.Genesis.get_preset K B preset)
      → Starts K B Storage G M P preset p.aura_authorities p.grandpa_authorities
  unfolding build_state get_preset authorities grandpa_authorities
  text-Starts preset p accepted (text, written, looked_up) = record {
    text = text;
    found = helper.get_preset-some preset _ ∙ looked_up;
    defaults = helper.get_preset-none _;
    built = helper.build_state-ok p text written accepted;
    aura_authorities = (stores.built p text written accepted).0;
    grandpa_ones = (stores.built p text written accepted).1;
  }

  development-Starts :
      IsKeyring K
      → (preset : String)
      → IsText K B (development_patch K) (nexusguild.Runtime.Genesis.get_preset K B preset)
      → Starts K B Storage G M P preset (K.sr25519_public K.alice ∷ []) ((K.ed25519_alice, 1) ∷ [])
  unfolding development_patch
  development-Starts keys preset h = text-Starts preset _ (development_patch-IsBuildable K keys) h

  local-Starts :
      IsKeyring K
      → (preset : String)
      → IsText K B (local_patch K) (nexusguild.Runtime.Genesis.get_preset K B preset)
      → Starts K B Storage G M P preset
          (K.sr25519_public K.alice ∷ K.sr25519_public K.bob ∷ [])
          ((K.ed25519_alice, 1) ∷ (K.ed25519_bob, 1) ∷ [])
  unfolding local_patch
  local-Starts keys preset h = text-Starts preset _ (local_patch-IsBuildable K keys) h

  -- Each of the built-in chains can be started: a specification that `load_spec` gives for `dev`,
  -- for the empty text or for `local` names a preset that the genesis builder of the runtime knows;
  -- merged into the default configuration, which that builder gives too, the text of the preset is
  -- built into a storage without keys. The authorities are then Alice alone in the chain `dev`, and
  -- Alice and Bob in the other, each with the weight 1 in GRANDPA. The conditions are that there is
  -- a Wasm binary, that the two patches can be written as JSON, that `sp_genesis_builder` gives the
  -- runtime and the node the same two names, which differ, that the keyring has the keys it says,
  -- that the helper of `frame_support` finds a named preset by the runtime's function, gives the
  -- default configuration without a name, and builds a merged configuration that the pallets
  -- accept, and that the pallets then store the authorities of it.
  pub load_spec-Launches :
      (S : SpecApi) (w : S.Wasm) (local_id : String)
      → IsKeyring K
      → IsLawful S
      → Writes K B (development_patch K)
      → Writes K B (local_patch K)
      → B.dev_runtime_preset ≢ B.local_testnet_runtime_preset
      → S.dev_runtime_preset ≡ B.dev_runtime_preset
      → S.local_testnet_runtime_preset ≡ B.local_testnet_runtime_preset
      → (local_id ≡ "") ⊎ (local_id ≡ "local")
      → Launches K B Storage G M P S w "dev"
          (K.sr25519_public K.alice ∷ [])
          ((K.ed25519_alice, 1) ∷ [])
        × Launches K B Storage G M P S w local_id
            (K.sr25519_public K.alice ∷ K.sr25519_public K.bob ∷ [])
            ((K.ed25519_alice, 1) ∷ (K.ed25519_bob, 1) ∷ [])
  load_spec-Launches S w local_id keys lawful writes writes_too differ same_dev same_local h =
      let (dev, local, _) = get_preset_lem K B writes writes_too differ in
      let ((spec, loaded, d), (local_spec, local_loaded, l)) =
        load_spec-built_in S lawful w local_id h in
      (
        (
          spec,
          B.dev_runtime_preset,
          loaded,
          rw (← same_dev) d.preset,
          development-Starts keys _ dev,
        ),
        (
          local_spec,
          B.local_testnet_runtime_preset,
          local_loaded,
          rw (← same_local) l.preset,
          local-Starts keys _ local,
        ),
      )
