-- ===== src/Runtime/Apis/Proofs.antt =====
-- runtime/src/apis.rs against runtime/src/configs/mod.rs: the proofs of ownership of a key.
use mathlib.Core.Option
use nexusguild.Base.{ℕ, ◌≡◌, refl, Option, none, some}
use nexusguild.Runtime.Config.Pallets.{grandpa_types}
use nexusguild.Runtime.Apis.Consensus.{generate_key_ownership_proof}

-- Whatever looks up a proof of ownership of the type that the runtime configures, and however a
-- proof is encoded, what it gives for a set and an authority is what
-- `generate_key_ownership_proof` gives: the type has no value.
generate_key_ownership_proof-only :
    (RuntimeEvent : Type 0) {GrandpaId OpaqueProof : Type 0}
    (prove : ℕ → GrandpaId → Option (grandpa_types RuntimeEvent).KeyOwnerProof)
    (encode : (grandpa_types RuntimeEvent).KeyOwnerProof → OpaqueProof) (set_id : ℕ)
    (authority_id : GrandpaId)
    → Option.map encode (prove set_id authority_id)
      ≡ generate_key_ownership_proof set_id authority_id
unfolding generate_key_ownership_proof
generate_key_ownership_proof-only RuntimeEvent prove encode set_id authority_id =
    elim (prove set_id authority_id) as (λ p. Option.map encode p ≡ none) [
      | none ↦ refl
      | some proof ↦ absurd proof
    ]
