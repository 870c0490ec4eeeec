-- ===== src/Node/ChainSpec/Laws.antt =====
-- node/src/chain_spec.rs and node/src/command.rs: what `load_spec` gives.
use nexusguild.Base.{
  ◌≡◌, ◌≢◌, ◌⊎◌, refl, inl, inr, String, str_eq_iff, Option, none, some, ok, err, arith,
}
use nexusguild.Node.ChainSpec.{SpecApi, Describes, IsLawful, load_spec}

-- With a Wasm binary, `load_spec "dev"` is the specification named `Development`, with the id
-- `dev`, the chain type `Development`, the binary as its code and the development preset; both
-- `load_spec ""` and `load_spec "local"` are the one named `Local Testnet`, with the id
-- `local_testnet`, the chain type `Local`, the same code and the local preset.
pub load_spec-built_in :
    (S : SpecApi) (L : IsLawful S) (w : S.Wasm) (local_id : String)
    → (local_id ≡ "") ⊎ (local_id ≡ "local")
    → ((spec : S.ChainSpec) × (load_spec S (some w) "dev" ≡ ok spec)
        × Describes S w "Development" "dev" S.development S.dev_runtime_preset spec)
      × ((spec : S.ChainSpec) × (load_spec S (some w) local_id ≡ ok spec)
          × Describes S w "Local Testnet" "local_testnet" S.local S.local_testnet_runtime_preset
              spec)
unfolding load_spec
load_spec-built_in S L w local_id h = (
  (_, refl, L.built w "Development" "dev" S.development S.dev_runtime_preset),
  elim h [
    | inl e ↦ (
      _,
      rw e refl,
      L.built w "Local Testnet" "local_testnet" S.local S.local_testnet_runtime_preset,
    )
    | inr e ↦ (
      _,
      rw e refl,
      L.built w "Local Testnet" "local_testnet" S.local S.local_testnet_runtime_preset,
    )
  ],
)

-- Without a Wasm binary the three built-in names are refused with one message, also that of the
-- local chain, and any other argument is the path of a file, with or without a binary.
pub load_spec-other :
    (S : SpecApi) (wasm : Option S.Wasm) (id : String)
    → ((id ≡ "dev") ⊎ (id ≡ "") ⊎ (id ≡ "local")
        → load_spec S none id ≡ err "Development wasm not available")
      × (id ≢ "dev" → id ≢ "" → id ≢ "local" → load_spec S wasm id ≡ S.from_json_file id)
unfolding load_spec
load_spec-other S wasm id = (
  elim [ inl e ↦ rw e refl | inr (inl e) ↦ rw e refl | inr (inr e) ↦ rw e refl ],
  λ not_dev not_empty not_local.
      ground (arith, str_eq_iff id "dev", str_eq_iff id "", str_eq_iff id "local"),
)
