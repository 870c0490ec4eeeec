-- ===== src/Node/ChainSpec/Loading.antt =====
-- node/src/chain_spec.rs and node/src/command.rs: what `load_spec` gives for any argument.
use nexusguild.Base.{
  ◌≡◌, ◌≢◌, ◌⊎◌, refl, inl, inr, String, str_eq, str_eq_iff, Option, none, some, Bool, true, false,
  Result, ok, err, arith,
}
use nexusguild.Node.ChainSpec.{SpecApi, Describes, IsLawful, load_spec}
use nexusguild.Node.ChainSpec.Laws.{load_spec-built_in, load_spec-other}

-- The names of the development chain and of the local chain.
abbrev pub IsLocalName : String → Type 0
IsLocalName id = (id ≡ "") ⊎ (id ≡ "local")

abbrev pub IsBuiltIn : String → Type 0
IsBuiltIn id = (id ≡ "dev") ⊎ IsLocalName id

-- What an argument loads, with a Wasm binary or without: a specification of the two, one message
-- for the names of both, or whatever the file at this path gives.
pub data Loads (S : SpecApi) : Option S.Wasm → String → Result String S.ChainSpec → Type 0 where
  development_chain :
      {w : S.Wasm} {id : String} {spec : S.ChainSpec}
      → id ≡ "dev"
      → Describes S w "Development" "dev" S.development S.dev_runtime_preset spec
      → Loads S (some w) id (ok spec)
  local_chain :
      {w : S.Wasm} {id : String} {spec : S.ChainSpec}
      → IsLocalName id
      → Describes S w "Local Testnet" "local_testnet" S.local S.local_testnet_runtime_preset spec
      → Loads S (some w) id (ok spec)
  no_binary : {id : String} → IsBuiltIn id → Loads S none id (err "Development wasm not available")
  file :
      {wasm : Option S.Wasm} {id : String} → ¬ IsBuiltIn id → Loads S wasm id (S.from_json_file id)

is_or_not : (s t : String) → (s ≡ t) ⊎ (s ≢ t)
is_or_not s t = by_test (str_eq s t) refl
  where
    by_test : (b : Bool) → str_eq s t ≡ b → (s ≡ t) ⊎ (s ≢ t)
    by_test true e = inl ((str_eq_iff s t).0 e)
    by_test false e = inr (λ same. ground (arith, str_eq_iff s t))

IsBuiltIn-or_not : (id : String) → IsBuiltIn id ⊎ ¬ IsBuiltIn id
IsBuiltIn-or_not id = elim (is_or_not id "dev") [
  | inl e ↦ inl (inl e)
  | inr not_dev ↦ elim (is_or_not id "") [
    | inl e ↦ inl (inr (inl e))
    | inr not_empty ↦ elim (is_or_not id "local") [
      | inl e ↦ inl (inr (inr e))
      | inr not_local ↦ inr (λ h. elim h [
        | inl e ↦ not_dev e
        | inr (inl e) ↦ not_empty e
        | inr (inr e) ↦ not_local e
      ])
    ]
  ]
]

module _ (S : SpecApi) (L : IsLawful S) where
  -- For any argument of the command line, with a Wasm binary or without, `load_spec` gives the
  -- specification of the development chain for `dev`, with its name, id, chain type, code and
  -- preset, that of the local chain for the empty text and for `local`, the one message for these
  -- three names if there is no binary, also for those of the local chain, and what the file at that
  -- path gives for every other argument. It is given that a specification has what its builder was
  -- given.
  pub load_spec-Loads : (wasm : Option S.Wasm) (id : String) → Loads S wasm id (load_spec S wasm id)
  load_spec-Loads wasm id = elim (IsBuiltIn-or_not id) [
    | inl built_in ↦ built_in_Loads wasm built_in
    | inr path ↦
        let found =
          (load_spec-other S wasm id).1 (λ e. path (inl e)) (λ e. path (inr (inl e)))
            (λ e. path (inr (inr e))) in
        rw found (file path)
  ]
    where
      built_in_Loads : (wasm : Option S.Wasm) → IsBuiltIn id → Loads S wasm id (load_spec S wasm id)
      built_in_Loads none h = rw ((load_spec-other S none id).0 h) (no_binary h)
      built_in_Loads (some w) (inl e) =
          let ((spec, found, described), _) = load_spec-built_in S L w "" (inl refl) in
          rw (e, found) (development_chain refl described)
      built_in_Loads (some w) (inr local_name) =
          let (_, (spec, found, described)) = load_spec-built_in S L w id local_name in
          rw found (local_chain local_name described)
