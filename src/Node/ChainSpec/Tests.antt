-- ===== src/Node/ChainSpec/Tests.antt =====
-- node/src/chain_spec.rs and node/src/command.rs: the theorems at concrete inputs.
use nexusguild.Base.{refl, inr, some, err, str_eq_iff, [], ◌∷◌}
use nexusguild.Runtime.Example.{alice, bob, keyring, keyring-IsKeyring}
use nexusguild.Runtime.Apis.Genesis.{build_state}
use nexusguild.Runtime.Apis.Consensus.{authorities, grandpa_authorities}
use nexusguild.Node.ChainSpec.{load_spec}
use nexusguild.Node.ChainSpec.Loading.{Loads, load_spec-Loads}
use nexusguild.Node.ChainSpec.Built.{Launches, load_spec-Launches}
use nexusguild.Node.ChainSpec.Running.{KeepsAuthorities, Runs, load_spec-Runs}
use nexusguild.Node.ChainSpec.Example.{spec_api, spec_api-IsLawful}
use nexusguild.Node.ChainSpec.World.{
  genesis_merge, World, world, world-IsLawful, helper, texts, pallets, helper-IsHelper,
  helper-StoresAuthorities, dev_written, local_written,
}
use nexusguild.Template.Mock.{Origin}
use nexusguild.Runtime.Calls.Example.{codec, take_word-words}
use nexusguild.Runtime.Calls.Execution.{OtherPallets, IsApart}

load_spec-Loads_example : Loads spec_api (some tt) "chain.json" (err "no such file")
unfolding load_spec
load_spec-Loads_example = load_spec-Loads spec_api spec_api-IsLawful (some tt) "chain.json"

load_spec-Launches_example :
    Launches keyring texts World helper genesis_merge pallets spec_api tt "dev"
      (alice ∷ [])
      ((alice, 1) ∷ [])
    × Launches keyring texts World helper genesis_merge pallets spec_api tt "local"
        (alice ∷ bob ∷ [])
        ((alice, 1) ∷ (bob, 1) ∷ [])
load_spec-Launches_example =
    load_spec-Launches keyring texts World helper genesis_merge pallets helper-IsHelper
      helper-StoresAuthorities spec_api tt "local" keyring-IsKeyring spec_api-IsLawful dev_written
      local_written (λ e. cc ((str_eq_iff "development" "local_testnet").1 e)) refl refl (inr refl)

abbrev no_others : OtherPallets codec world
no_others = record { dispatch_pallet_call = λ p call. absurd call }

abbrev Anyone : Origin → Type 0
Anyone origin = Unit

nothing_else-IsApart : IsApart codec world no_others Anyone
nothing_else-IsApart = record { left = λ p call. absurd call; words = take_word-words }

nothing_else-KeepsAuthorities : KeepsAuthorities keyring world pallets codec no_others Anyone
unfolding authorities grandpa_authorities
nothing_else-KeepsAuthorities = record {
  after_put = λ n s. refl;
  after_deposit = λ e s. refl;
  after_call = λ p call. absurd call;
}

load_spec-Runs_example :
    Runs keyring texts world helper genesis_merge pallets codec no_others Anyone spec_api tt "dev"
      (alice ∷ [])
      ((alice, 1) ∷ [])
    × Runs keyring texts world helper genesis_merge pallets codec no_others Anyone spec_api tt
        "local"
        (alice ∷ bob ∷ [])
        ((alice, 1) ∷ (bob, 1) ∷ [])
unfolding build_state
load_spec-Runs_example =
    load_spec-Runs keyring texts world helper genesis_merge pallets codec no_others Anyone
      nothing_else-IsApart world-IsLawful nothing_else-KeepsAuthorities (λ text. refl)
      helper-IsHelper helper-StoresAuthorities spec_api tt "local" keyring-IsKeyring
      spec_api-IsLawful dev_written local_written
      (λ e. cc ((str_eq_iff "development" "local_testnet").1 e)) refl refl (inr refl)
