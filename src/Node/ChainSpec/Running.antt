-- ===== src/Node/ChainSpec/Running.antt =====
-- node/src/chain_spec.rs, runtime/src/apis.rs and pallets/template/src/lib.rs: a chain from its
-- specification, over the genesis state, to the state after any calls.
use nexusguild.Base.{
  ℕ, ◌≡◌, ◌≢◌, ◌⊎◌, refl, ◌∙◌, ap, String, none, some, Option, ok, returned, List, [], ◌∷◌, map,
}
use nexusguild.Template.Frame.{Frame, IsLawful}
use nexusguild.Template.Footprint.{view-dispatch}
use nexusguild.Template.Counter.{InRange, answer_all}
use nexusguild.Runtime.Genesis.{Keyring, IsKeyring, Builder, development_patch, local_patch}
use nexusguild.Runtime.Genesis.Presets.{Writes}
use nexusguild.Runtime.Calls.{
  Pallet, template, decode_runtime_call, CallCodec, RuntimeCall, runtime_call,
}
use nexusguild.Runtime.Calls.Execution.{
  OtherPallets, IsApart, AllOrdinary, dispatch_runtime_call, dispatch_read, dispatch_bytes,
  run_bytes,
}
use nexusguild.Runtime.Calls.Refinement.{bytes_request, run_bytes-refines}
use nexusguild.Runtime.Apis.Genesis.{
  GenesisHelper, GenesisMerge, merged, IsHelper, build_state, get_preset,
}
use nexusguild.Runtime.Apis.Consensus.{
  ConsensusPallets, StoresAuthorities, authorities, grandpa_authorities,
}
use nexusguild.Node.ChainSpec.{SpecApi, IsLawful as SpecLaws, load_spec}
use nexusguild.Node.ChainSpec.Built.{Launches, load_spec-Launches}

module _ (K : Keyring) (F : Frame) (P : ConsensusPallets K F.Storage) where
  open F use {Storage}

  -- The authorities of both consensus pallets, as the runtime reports them.
  abbrev pub Reported : Type 0
  Reported = List K.AuraId × List (K.GrandpaId × ℕ)

  abbrev pub reported : Storage → Reported
  reported s = (authorities K Storage P s, grandpa_authorities K Storage P s)

  -- What the pallets of the consensus document: their authorities are storage items of their own,
  -- which the calls of ordinary origins leave alone, since the runtime has no pallet of sessions.
  pub record KeepsAuthorities (C : CallCodec) (O : OtherPallets C F) (Ordinary : F.Origin → Type 0)
      : Type 0 where
    pub after_put : (n : ℕ) (s : Storage) → reported (F.put_something n s) ≡ reported s
    pub after_deposit :
        (e : F.RuntimeEvent) (s : Storage) → reported (F.system_deposit_event e s) ≡ reported s
    pub after_call :
        (p : Pallet) (call : C.PalletCall p) (origin : F.Origin) (s : Storage)
        → Ordinary origin
        → reported (O.dispatch_pallet_call p call origin s).1 ≡ reported s

module _ (K : Keyring) (F : Frame) (P : ConsensusPallets K F.Storage) (C : CallCodec)
    (O : OtherPallets C F) (Ordinary : F.Origin → Type 0)
    (A : KeepsAuthorities K F P C O Ordinary) where
  open F use {Origin, Storage}

  dispatch_runtime_call-reported :
      (call : RuntimeCall C) (origin : Origin) (s : Storage)
      → Ordinary origin
      → reported K F P (dispatch_runtime_call C F O call origin s).1 ≡ reported K F P s
  unfolding dispatch_runtime_call
  dispatch_runtime_call-reported (runtime_call template call) origin s o =
      view-dispatch F (reported K F P) A.after_put A.after_deposit call origin s
  dispatch_runtime_call-reported (runtime_call p call) origin s o = A.after_call p call origin s o

  dispatch_read-reported :
      (r : Option (RuntimeCall C × List ℕ)) (origin : Origin) (s : Storage)
      → Ordinary origin
      → reported K F P (dispatch_read C F O r origin s).1 ≡ reported K F P s
  dispatch_read-reported none origin s o = refl
  dispatch_read-reported (some (call, rest)) origin s o =
      dispatch_runtime_call-reported call origin s o

  run_bytes-reported :
      (history : List (Origin × List ℕ)) (s : Storage)
      → AllOrdinary C F Ordinary history
      → reported K F P (run_bytes C F O history s) ≡ reported K F P s
  run_bytes-reported [] s os = refl
  run_bytes-reported ((origin, bytes) ∷ history) s (o, os) =
      run_bytes-reported history (dispatch_bytes C F O bytes origin s).1 os
      ∙ dispatch_read-reported (decode_runtime_call C bytes) origin s o

module _ (K : Keyring) (B : Builder K) (F : Frame) (G : GenesisHelper F.Storage)
    (M : GenesisMerge F.Storage) (P : ConsensusPallets K F.Storage) (C : CallCodec)
    (O : OtherPallets C F) where
  open F use {Origin, Storage, get_something}

  -- The genesis state that the text of a preset stands for.
  abbrev pub genesis_of : String → Storage
  genesis_of text = (build_state K B Storage G (merged M text) M.blank).1

  -- The specification that `load_spec` gives for the argument names a preset of the runtime, and
  -- from the genesis of that preset on, after any history of bytes from ordinary origins, the value
  -- is that of the counter from the unset one, and the authorities are those given.
  abbrev pub Runs :
      (Origin → Type 0)
      → (S : SpecApi) → S.Wasm
      → String
      → List K.AuraId
      → List (K.GrandpaId × ℕ)
      → Type 0
  Runs Ordinary S w id aura grandpa =
      (spec : S.ChainSpec) × (preset : String) × (text : String) × (load_spec S (some w) id
        ≡ ok spec)
      × (S.preset_name spec ≡ some preset)
      × (get_preset K B Storage G (some preset) ≡ returned (some text))
      × ((history : List (Origin × List ℕ))
          → AllOrdinary C F Ordinary history
          → let last = run_bytes C F O history (genesis_of text) in
            (get_something last ≡ answer_all (map (bytes_request C F) history) none)
            × InRange (get_something last)
            × (reported K F P last ≡ (aura, grandpa)))

  module _ (Ordinary : Origin → Type 0) (apart : IsApart C F O Ordinary) (lawful : IsLawful F)
      (keeps : KeepsAuthorities K F P C O Ordinary)
      (unset : (config : String)
        → get_something (build_state K B Storage G config M.blank).1 ≡ none) where
    Launches-Runs :
        (S : SpecApi) (w : S.Wasm) (id : String) (aura : List K.AuraId)
        (grandpa : List (K.GrandpaId × ℕ))
        → Launches K B Storage G M P S w id aura grandpa
        → Runs Ordinary S w id aura grandpa
    Launches-Runs S w id aura grandpa (spec, preset, loaded, named, starts) = (
      spec,
      preset,
      starts.text,
      loaded,
      named,
      starts.found,
      λ history os.
          let genesis = genesis_of starts.text in
          let still_unset : get_something genesis ≡ none = unset (merged M starts.text) in
          let (counted, in_range, _) =
            run_bytes-refines C F O Ordinary apart lawful history genesis os (rw still_unset tt) in
          (
            counted ∙ ap (answer_all (map (bytes_request C F) history)) still_unset,
            in_range,
            run_bytes-reported K F P C O Ordinary keeps history genesis os
                ∙ rw (starts.aura_authorities, starts.grandpa_ones),
          ),
    )

    -- The built-in chains run from their genesis: for `dev`, and for the empty text or `local`, the
    -- specification of `load_spec` names a preset of the runtime; and after whatever bytes are
    -- given as calls from the genesis state of that preset on, by any origins but the root and the
    -- sudo key, the value of `Something` is the one that the saturating counter has, from unset,
    -- after the requests of the template calls among them, a `u32` or unset, and the authorities of
    -- Aura and GRANDPA are still Alice alone for `dev`, and Alice and Bob for the other. The
    -- conditions are those under which the two chains start; that no genesis configuration sets
    -- `Something`; and those on FRAME, on the other pallets and on what is read as a `u32`.
    pub load_spec-Runs :
        (helper : IsHelper K B Storage G M) (stores : StoresAuthorities K B Storage G M P)
        (S : SpecApi) (w : S.Wasm) (local_id : String)
        → IsKeyring K
        → SpecLaws S
        → Writes K B (development_patch K)
        → Writes K B (local_patch K)
        → B.dev_runtime_preset ≢ B.local_testnet_runtime_preset
        → S.dev_runtime_preset ≡ B.dev_runtime_preset
        → S.local_testnet_runtime_preset ≡ B.local_testnet_runtime_preset
        → (local_id ≡ "") ⊎ (local_id ≡ "local")
        → Runs Ordinary S w "dev" (K.sr25519_public K.alice ∷ []) ((K.ed25519_alice, 1) ∷ [])
          × Runs Ordinary S w local_id
              (K.sr25519_public K.alice ∷ K.sr25519_public K.bob ∷ [])
              ((K.ed25519_alice, 1) ∷ (K.ed25519_bob, 1) ∷ [])
    load_spec-Runs helper stores S w local_id keys laws writes writes_too differ d l h =
        let (dev, local) =
          load_spec-Launches K B Storage G M P helper stores S w local_id keys laws writes
            writes_too differ d l h in
        (Launches-Runs S w "dev" _ _ dev, Launches-Runs S w local_id _ _ local)
