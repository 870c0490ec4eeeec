-- ===== src/Node/ChainSpec/World.antt =====
-- runtime/src/apis.rs: a genesis builder over a storage with a value and the authorities.
use nexusguild.Template.Frame.{Frame, IsLawful}
use nexusguild.Template.Mock.{Storage, new_test_ext, deposit, test, test-IsLawful}
use native.Mathlib.Decide.{ℕ_discrete}
use nexusguild.Base.{
  sym, ◌∙◌, ok-inj, ok-ne-err, ℕ, ◌≡◌, ap, refl, String, none, some, Result, ok, err, returned,
  if◌then◌else◌, str_eq, List, [], ◌∷◌,
}
use nexusguild.Runtime.Example.{Key, Key-discrete, alice, bob, keyring, builder}
use nexusguild.Runtime.Genesis.{Builder, development_patch, local_patch}
use nexusguild.Runtime.Genesis.Presets.{Writes}
use nexusguild.Runtime.Apis.Genesis.{GenesisHelper, GenesisMerge, IsHelper}
use nexusguild.Runtime.Apis.Consensus.{ConsensusPallets, StoresAuthorities}

abbrev pub Authorities : Type 0
Authorities = List Key × List (Key × ℕ)

pub Authorities-discrete : Discrete Authorities
Authorities-discrete = hlevel (Key-discrete, ℕ_discrete)

abbrev pub one_node : Authorities
one_node = (alice ∷ [], (alice, 1) ∷ [])

abbrev pub two_nodes : Authorities
two_nodes = (alice ∷ bob ∷ [], (alice, 1) ∷ (bob, 1) ∷ [])

-- Of a patch the text tells the authorities, those of one node or of two.
pub text_by :
    {a : Authorities} → Dec (a ≡ one_node) → Dec (a ≡ two_nodes) → Result (Unit {0}) String
text_by (yes p) d = ok "one"
text_by (no p) (yes q) = ok "two"
text_by (no p) (no q) = err tt

pub text_of : Authorities → Result (Unit {0}) String
text_of a = text_by (Authorities-discrete a one_node) (Authorities-discrete a two_nodes)

abbrev pub authorities_of : String → Authorities
authorities_of text = if str_eq text "one" then one_node else two_nodes

pub authorities_of-text_by :
    {a : Authorities} (d : Dec (a ≡ one_node)) (e : Dec (a ≡ two_nodes)) {text : String}
    → text_by d e ≡ ok text
    → authorities_of text ≡ a
unfolding text_by
authorities_of-text_by (yes p) d h = sym (ap authorities_of (ok-inj h)) ∙ sym p
authorities_of-text_by (no p) (yes q) h = sym (ap authorities_of (ok-inj h)) ∙ sym q
authorities_of-text_by (no p) (no q) h = absurd (ok-ne-err (sym h))

pub text_by-one :
    {a : Authorities} (d : Dec (a ≡ one_node)) (e : Dec (a ≡ two_nodes))
    → a ≡ one_node
    → (text : String) × (text_by d e ≡ ok text)
unfolding text_by
text_by-one (yes p) e h = ("one", refl)
text_by-one (no p) e h = absurd (p h)

pub text_by-two :
    {a : Authorities} (d : Dec (a ≡ one_node)) (e : Dec (a ≡ two_nodes))
    → a ≡ two_nodes
    → (text : String) × (text_by d e ≡ ok text)
unfolding text_by
text_by-two (yes p) e h = ("one", refl)
text_by-two (no p) (yes q) h = ("two", refl)
text_by-two (no p) (no q) h = absurd (q h)

-- A storage is that of the template pallet with the authorities beside it.
abbrev pub World : Type 0
World = Storage × Authorities

abbrev pub world : Frame
world = record test {
  Storage = World;
  get_something = λ (s, a). s.something;
  put_something = λ n (s, a). (record s { something = some n }, a);
  system_deposit_event = λ e (s, a). (deposit e s, a);
  events = λ (s, a). s.log;
  block_number = λ (s, a). s.block;
}

pub world-IsLawful : IsLawful world
world-IsLawful = record {
  get-put = λ n s. refl;
  events-put = λ n s. refl;
  block-put = λ n s. refl;
  get-deposit = λ e (s, a). test-IsLawful.get-deposit e s;
  block-deposit = λ e (s, a). test-IsLawful.block-deposit e s;
  events-deposit = λ e (s, a) h. test-IsLawful.events-deposit e s h;
  events-deposit_genesis = λ e (s, a) h. test-IsLawful.events-deposit_genesis e s h;
  errors_differ = test-IsLawful.errors_differ;
  origin_error_differs = test-IsLawful.origin_error_differs;
}

-- The patch replaces the default configuration, as it says all that is kept here.
abbrev pub genesis_merge : GenesisMerge World
genesis_merge = record {
  default_config = "none";
  merge = λ defaults patch. patch;
  blank = (new_test_ext 0, ([], []));
}

abbrev pub helper : GenesisHelper World
helper = record {
  build_state = λ text (s, a). (ok tt, (s, authorities_of text));
  get_preset = λ id preset_for_name. elim id [
    | some name ↦ preset_for_name name
    | none ↦ returned (some "none")
  ];
}

abbrev pub texts : Builder keyring
texts = record builder {
  JsonError = Unit {0};
  to_string = λ p. text_of (p.aura_authorities, p.grandpa_authorities);
}

abbrev pub pallets : ConsensusPallets keyring World
pallets = record {
  stored_aura_authorities = λ (s, (aura, grandpa)). aura;
  stored_grandpa_authorities = λ (s, (aura, grandpa)). grandpa;
  stored_set_id = λ s. 0;
}

pub helper-IsHelper : IsHelper keyring texts World helper genesis_merge
helper-IsHelper = record {
  get_preset-some = λ id f. refl;
  get_preset-none = λ f. refl;
  build_state-ok = λ p text written accepted. refl;
}

pub helper-StoresAuthorities : StoresAuthorities keyring texts World helper genesis_merge pallets
unfolding text_of
helper-StoresAuthorities = record {
  built = λ p text written accepted.
      let e =
        authorities_of-text_by
          (Authorities-discrete (p.aura_authorities, p.grandpa_authorities) one_node)
          (Authorities-discrete (p.aura_authorities, p.grandpa_authorities) two_nodes) written in
      (ap (λ (aura, grandpa). aura) e, ap (λ (aura, grandpa). grandpa) e);
}

pub dev_written : Writes keyring texts (development_patch keyring)
unfolding text_of development_patch
dev_written =
    text_by-one (Authorities-discrete one_node one_node) (Authorities-discrete one_node two_nodes)
      refl

pub local_written : Writes keyring texts (local_patch keyring)
unfolding text_of local_patch
local_written =
    text_by-two (Authorities-discrete two_nodes one_node) (Authorities-discrete two_nodes two_nodes)
      refl
