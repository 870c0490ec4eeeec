-- ===== src/Node/Benchmarking/Example.antt =====
-- node/src/benchmarking.rs: transactions of plain data, and signatures that hold what they sign.
use native.Mathlib.Decide.{ℕ_discrete}
use mathlib.Core.Logic.{ite, if_pos}
use nexusguild.Base.{
  String, false, ◌==◌, ◌&&◌, ℕ, ◌+◌, ◌≡◌, refl, Bool, true, none, some, ok, List, [], ◌∷◌, arith,
}
use nexusguild.Node.Benchmarking.{
  TxApi, Client, Extension, Implicit, nothing, version, hash, metadata_hash, check_spec_version,
  check_tx_version, check_genesis, check_era, check_metadata_hash, spec_version,
  transaction_version,
}
use nexusguild.Node.Benchmarking.Signing.{IsImplicit}

-- What is signed: the call, the extensions and what they add.
abbrev pub Payload : Type 0
Payload = List ℕ × List (Extension (ℕ × ℕ)) × List (Implicit ℕ)

pub Payload-discrete : Discrete Payload
Payload-discrete = hlevel ℕ_discrete

-- An era is its period and the block at which it begins; a signature is what it signs.
abbrev pub tx_api : TxApi
tx_api = record {
  Hash = ℕ;
  Era = ℕ × ℕ;
  AccountId = ℕ;
  RuntimeCall = List ℕ;
  Pair = ℕ;
  Signature = ℕ × Payload;
  Bytes = Payload;
  ClientError = Unit {0};
  mortal = λ period current. (period, current);
  remark = λ r. r;
  transfer_keep_alive = λ dest value. dest ∷ value ∷ [];
  encode_payload = λ call extensions additional. (call, extensions, additional);
  sign = λ pair message. (pair, message);
  account_of = λ pair. pair;
  bob = 2;
}

abbrev pub client : Client tx_api
client = record { block_hash = λ n. ok (some (100 + n)); best_hash = 105; best_number = 5 }

abbrev pub birth : ℕ × ℕ → ℕ
birth (period, start) = 100 + start

abbrev pub implicit : Extension (ℕ × ℕ) → Implicit ℕ
implicit check_spec_version = version spec_version
implicit check_tx_version = version transaction_version
implicit check_genesis = hash 100
implicit (check_era era) = hash (birth era)
implicit (check_metadata_hash mode) = metadata_hash none
implicit _ = nothing

pub implicit-IsImplicit : IsImplicit tx_api implicit 100 birth
implicit-IsImplicit = record {
  non_zero_sender = refl;
  spec = refl;
  tx = refl;
  at_genesis = refl;
  at_birth = λ era. refl;
  nonce = λ n. refl;
  weight = refl;
  payment = λ tip. refl;
  metadata_disabled = refl;
  reclaim = refl;
}

-- A signature is the key with what it signed, and both are compared.
unfoldable pub verify : ℕ → Payload → ℕ × Payload → Bool
verify account message (key, signed) =
    account == key && ite (Payload-discrete message signed) true false

pub verify-sign : (p : ℕ) (m : Payload) → verify p m (p, m) ≡ true
unfolding verify
verify-sign p m = elim (Payload-discrete m m) [
  | yes e ↦ rw (if_pos _ e) (ground arith)
  | no n ↦ absurd (n refl)
]

abbrev pub name_of : List ℕ → String × String
name_of [] = ("system", "remark")
name_of (dest ∷ call) = ("balances", "transfer_keep_alive")
