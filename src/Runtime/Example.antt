-- ===== src/Runtime/Example.antt =====
-- A small keyring and a builder of JSON that always succeeds, over which the theorems are applied.
use mathlib.Core.List.{Nodup, Mem, mem-cons_self, mem-cons_of_mem}
use nexusguild.Base.{ok, [], ◌∷◌, Differ-Nodup, arith}
use nexusguild.Runtime.Genesis.{Keyring, IsKeyring, Builder, Patch}

pub data Key : Type 0 where
  alice bob charlie alice_stash bob_stash one two : Key

pub Key-discrete : Discrete Key
Key-discrete = hlevel

abbrev pub keyring : Keyring
keyring = record {
  Key = Key;
  AccountId = Key;
  AuraId = Key;
  GrandpaId = Key;
  key_dec = Key-discrete;
  alice = alice;
  bob = bob;
  alice_stash = alice_stash;
  bob_stash = bob_stash;
  one = one;
  two = two;
  iter = alice ∷ bob ∷ charlie ∷ alice_stash ∷ bob_stash ∷ one ∷ two ∷ [];
  sr25519_public = λ k. k;
  ed25519_alice = alice;
  ed25519_bob = bob;
  to_account_id = λ k. k;
}

pub ruleset members = (mem-cons_self, mem-cons_of_mem)

mem-iter : (k : Key) → Mem k keyring.iter
mem-iter alice = search mem-cons_self
mem-iter bob = search members
mem-iter charlie = search members
mem-iter alice_stash = search members
mem-iter bob_stash = search members
mem-iter one = search members depth 8
mem-iter two = search members depth 8

named-Nodup : Nodup (alice ∷ bob ∷ alice_stash ∷ bob_stash ∷ one ∷ two ∷ [])
named-Nodup = Differ-Nodup _ (ground arith)

iter-Nodup : Nodup keyring.iter
iter-Nodup = Differ-Nodup _ (ground arith)

pub keyring-IsKeyring : IsKeyring keyring
keyring-IsKeyring = record {
  named-Nodup = named-Nodup;
  iter-Nodup = iter-Nodup;
  mem-iter = mem-iter;
  account_injective = λ j k e. e;
}

abbrev pub builder : Builder keyring
builder = record {
  Value = Patch keyring;
  JsonError = Unit {0};
  json_patch = λ p. p;
  to_string = λ p. ok "{}";
  dev_runtime_preset = "development";
  local_testnet_runtime_preset = "local_testnet";
}
