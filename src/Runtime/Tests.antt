-- ===== src/Runtime/Tests.antt =====
-- runtime/src: the theorems over a small keyring, and the constants as the source sets them.
use mathlib.Core.List.{Mem}
use nexusguild.Base.{
  map, List, true, some, none, Option, ℕ, ◌/◌, ◌*◌, ◌^◌, ◌≤◌, ◌≡◌, ◌↔◌, refl, String, none,
  returned, str_eq_iff, [], ◌∷◌, arith,
}
use nexusguild.Runtime.Currency.{unit}
use nexusguild.Runtime.Time.{milli_secs_per_block, minutes, hours, days}
use nexusguild.Template.Mock.{Origin, signed, root, test, new_test_ext}
use nexusguild.Template.Weights.Metered.{metered}
use nexusguild.Runtime.Charges.{charged-covers_writes}
use nexusguild.Template.Dispatch.{Call, do_something, cause_error, dispatch, dispatch_all}
use nexusguild.Template.Weights.Example.{weights, weights-IsLawful}
use nexusguild.Runtime.Blocks.{BlockApi, charged}
use nexusguild.Runtime.Example.{one, keyring, keyring-IsKeyring, builder}
use nexusguild.Runtime.Genesis.{development_patch, local_patch, IsEndowed, get_preset, preset_names}
use nexusguild.Runtime.Genesis.Patches.{preset_patches-IsBuildable, IsBuildable, endowed}
use nexusguild.Runtime.Build.{WasmBuilderApi, build_script}
use nexusguild.Runtime.Genesis.Presets.{IsText, get_preset_lem}

day_of_blocks :
    (minutes milli_secs_per_block ≡ 10)
    × (hours milli_secs_per_block ≡ 600)
    × (days milli_secs_per_block ≡ 14400)
unfolding days hours minutes
day_of_blocks = (refl, refl, refl)

-- A builder is the token and the decimals that it declares.
abbrev wasm_builder : WasmBuilderApi
wasm_builder = record {
  World = List (Option (String × ℕ));
  Builder = Option (String × ℕ);
  init_with_defaults = none;
  enable_metadata_hash = λ token decimals b. some (token, decimals);
  build = λ b world. b ∷ world;
  build_using_defaults = λ world. none ∷ world;
}

-- The decimals that the metadata hash declares are those of `UNIT`.
unit_decimals :
    (n : ℕ) × (build_script wasm_builder true true [] ≡ some ("UNIT", n) ∷ []) × (unit ≡ 10 ^ n)
unfolding build_script
unit_decimals = (12, refl, refl)

get_preset_lem_example :
    IsText keyring builder (development_patch keyring) (get_preset keyring builder "development")
    × IsText keyring builder (local_patch keyring) (get_preset keyring builder "local_testnet")
    × ((id : String)
        → ¬ Mem id (preset_names keyring builder)
        → get_preset keyring builder id ≡ returned none)
get_preset_lem_example =
    get_preset_lem keyring builder ("{}", refl) ("{}", refl)
      (λ e. cc ((str_eq_iff "development" "local_testnet").1 e))

preset_patches-IsBuildable_example :
    IsBuildable keyring (development_patch keyring)
    × IsBuildable keyring (local_patch keyring)
    × (Mem one (endowed keyring (local_patch keyring)) ↔ IsEndowed keyring one)
preset_patches-IsBuildable_example = preset_patches-IsBuildable keyring keyring-IsKeyring one

-- Of the block weights the expected weight and the normal share are kept.
abbrev blocks : BlockApi weights
blocks = record {
  Perbill = ℕ;
  from_percent = λ percent. percent;
  BlockWeights = (ℕ × ℕ) × ℕ;
  with_sensible_defaults = λ w percent. (w, percent);
  weight_ref_time_per_second = 1_000_000_000_000;
  max_normal = λ ((time, proof), percent). (time * percent / 100, proof * percent / 100);
  max_block = λ (w, percent). w;
  BlockLength = ℕ × ℕ;
  max_with_normal_ratio = λ max percent. (max, percent);
  length_normal = λ (max, percent). max * percent / 100;
}

-- Two of the four calls succeed.
abbrev called : List (Origin × Call)
called =
    (signed 1, cause_error)
    ∷ (signed 1, do_something 7)
    ∷ (root, do_something 9)
    ∷ (signed 2, cause_error)
    ∷ []

charged-covers_writes_example :
    let (results, (last, writes)) = dispatch_all (metered test) called (new_test_ext 1, 0) in
    (results ≡ (dispatch_all test called (new_test_ext 1)).0)
    × (last ≡ (dispatch_all test called (new_test_ext 1)).1)
    × (writes ≡ 2)
    × (100_000_000 * writes
        ≤ charged weights (25_000_000, 100_000_000) (map (λ (origin, call). call) called))
unfolding dispatch_all dispatch
charged-covers_writes_example =
    charged-covers_writes weights weights-IsLawful (25_000_000, 100_000_000) test called
      (new_test_ext 1) (omega arith)
