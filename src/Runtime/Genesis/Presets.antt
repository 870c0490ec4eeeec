-- ===== src/Runtime/Genesis/Presets.antt =====
-- runtime/src/genesis_config_presets.rs: `get_preset` against `preset_names`.
use mathlib.Core.List.{Mem, mem-cons}
use mathlib.Core.Logic.Or
use nexusguild.Base.{◌≡◌, ◌≢◌, String, str_eq_iff, Option, none, some, ok, Outcome, returned, arith}
use nexusguild.Runtime.Genesis.{
  Keyring, Builder, Patch, development_patch, local_patch, get_preset, preset_names,
}

module _ (K : Keyring) (B : Builder K) where
  open B use {Value, json_patch, to_string, dev_runtime_preset, local_testnet_runtime_preset}

  -- What `get_preset` is for: the named patch, as text.
  abbrev pub IsText : Patch K → Outcome (Option String) → Type 0
  IsText patch outcome =
      (text : String) × (to_string (json_patch patch) ≡ ok text) × (outcome ≡ returned (some text))

  abbrev pub Writes : Patch K → Type 0
  Writes patch = (text : String) × (to_string (json_patch patch) ≡ ok text)

  -- Where the two patches can be written as JSON and the two names of presets differ, `get_preset`
  -- returns the development patch for the one name, the local patch for the other and `None` for
  -- any text that `preset_names` does not list; it never panics.
  pub get_preset_lem :
      Writes (development_patch K)
      → Writes (local_patch K)
      → dev_runtime_preset ≢ local_testnet_runtime_preset
      → IsText (development_patch K) (get_preset K B dev_runtime_preset)
        × IsText (local_patch K) (get_preset K B local_testnet_runtime_preset)
        × ((id : String) → ¬ Mem id (preset_names K B) → get_preset K B id ≡ returned none)
  unfolding get_preset preset_names
  get_preset_lem (dev, dev_ok) (loc, loc_ok) differ = (
    (dev, dev_ok, ground (arith, str_eq_iff dev_runtime_preset dev_runtime_preset)),
    (
      loc,
      loc_ok,
      ground (
        arith,
        str_eq_iff local_testnet_runtime_preset dev_runtime_preset,
        str_eq_iff local_testnet_runtime_preset local_testnet_runtime_preset,
      ),
    ),
    λ id absent.
        let not_dev : id ≢ dev_runtime_preset = λ e. absent (mem-cons.1 (Or.inl e)) in
        let not_local : id ≢ local_testnet_runtime_preset =
          λ e. absent (mem-cons.1 (Or.inr (mem-cons.1 (Or.inl e)))) in
        ground
          (arith, str_eq_iff id dev_runtime_preset, str_eq_iff id local_testnet_runtime_preset),
  )
