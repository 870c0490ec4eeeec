-- ===== src/Node/ChainSpec/Example.antt =====
-- node/src/chain_spec.rs: a builder of specifications that keeps what it is given.
use nexusguild.Base.{refl, String, Option, none, some, err}
use nexusguild.Node.ChainSpec.{SpecApi, IsLawful}

pub data ChainType : Type 0 where
  development local : ChainType

pub record Spec : Type 0 where
  pub spec_name : String
  pub spec_id : String
  pub spec_type : ChainType
  pub spec_preset : Option String

abbrev pub blank : Spec
blank = record { spec_name = ""; spec_id = ""; spec_type = local; spec_preset = none }

abbrev pub spec_api : SpecApi
spec_api = record {
  Wasm = Unit {0};
  ChainType = ChainType;
  Builder = Spec;
  ChainSpec = Spec;
  development = development;
  local = local;
  dev_runtime_preset = "development";
  local_testnet_runtime_preset = "local_testnet";
  builder = λ _. blank;
  with_name = λ n s. record s { spec_name = n };
  with_id = λ i s. record s { spec_id = i };
  with_chain_type = λ t s. record s { spec_type = t };
  with_genesis_config_preset_name = λ p s. record s { spec_preset = some p };
  build = λ s. s;
  from_json_file = λ path. err "no such file";
  name = λ s. s.spec_name;
  id = λ s. s.spec_id;
  chain_type = λ s. s.spec_type;
  code = λ s. tt;
  preset_name = λ s. s.spec_preset;
}

pub spec_api-IsLawful : IsLawful spec_api
spec_api-IsLawful = record {
  built = λ w n i t p. record {
    named = refl;
    identified = refl;
    typed = refl;
    coded = refl;
    preset = refl;
  };
}
