-- ===== src/Node/Benchmarking/Signing.antt =====
-- node/src/benchmarking.rs: the signed payload against what a runtime checks.
use nexusguild.Base.{
  ℕ, ◌≡◌, ◌≢◌, ◌↔◌, refl, Bool, true, false, Option, none, some, Result, ok, err, String,
  expect_option, map_outcome, returned, panicked, map, to_option, flatten_option,
}
use nexusguild.Runtime.Time.{block_hash_count}
use nexusguild.Node.Benchmarking.{
  Extension, check_non_zero_sender, check_spec_version, check_tx_version, check_genesis, check_era,
  check_nonce, check_weight, charge_transaction_payment, check_metadata_hash, weight_reclaim,
  Implicit, nothing, version, hash, metadata_hash, TxApi, Client, UncheckedExtrinsic, spec_version,
  transaction_version, era_period, tx_extensions, additional_signed, create_benchmark_extrinsic,
}

-- A lookup that is expected to be found panics exactly when it is not.
expect_found_iff :
    {E A B : Type 0} (r : Result E (Option A)) (f : A → B) (message : String)
    → (map_outcome f (expect_option (flatten_option (to_option r)) message) ≡ panicked message)
      ↔ ((a : A) → r ≢ ok (some a))
expect_found_iff (ok (some a)) f message = (λ e. cc, λ n. absurd (n a refl))
expect_found_iff (ok none) f message = (λ e a p. cc, λ n. refl)
expect_found_iff (err x) f message = (λ e a p. cc, λ n. refl)

module _ (T : TxApi) where
  open T use {Hash, Era}

  -- What the extensions of a runtime with the versions of `VERSION` add to the payload, as their
  -- crates document it, on a chain whose genesis block and era blocks have the given hashes.
  pub record IsImplicit (implicit : Extension Era → Implicit Hash) (genesis : Hash)
      (birth : Era → Hash) : Type 0 where
    pub non_zero_sender : implicit check_non_zero_sender ≡ nothing
    pub spec : implicit check_spec_version ≡ version spec_version
    pub tx : implicit check_tx_version ≡ version transaction_version
    pub at_genesis : implicit check_genesis ≡ hash genesis
    pub at_birth : (era : Era) → implicit (check_era era) ≡ hash (birth era)
    pub nonce : (n : ℕ) → implicit (check_nonce n) ≡ nothing
    pub weight : implicit check_weight ≡ nothing
    pub payment : (tip : ℕ) → implicit (charge_transaction_payment tip) ≡ nothing
    pub metadata_disabled : implicit (check_metadata_hash false) ≡ metadata_hash none
    pub reclaim : implicit weight_reclaim ≡ nothing

  -- What the runtime verifies: the signature of the extrinsic over the call, its extensions and
  -- what they add.
  abbrev pub Verifies :
      (Extension Era → Implicit Hash)
      → (T.AccountId → T.Bytes → T.Signature → Bool)
      → UncheckedExtrinsic T
      → Type 0
  Verifies implicit verify x =
      verify x.signer (T.encode_payload x.function x.extensions (map implicit x.extensions))
        x.signature
      ≡ true

  -- The payload is what the runtime recomputes.
  pub additional_signed-map :
      (implicit : Extension Era → Implicit Hash) (genesis best : Hash) (birth : Era → Hash)
      (number nonce : ℕ)
      → IsImplicit implicit genesis birth
      → birth (T.mortal (era_period block_hash_count) number) ≡ best
      → map implicit (tx_extensions T number nonce) ≡ additional_signed T genesis best
  unfolding tx_extensions additional_signed
  additional_signed-map implicit genesis best birth number nonce I b = simp (
    I.non_zero_sender, I.spec, I.tx, I.at_genesis, I.at_birth, I.nonce, I.weight, I.payment,
    I.metadata_disabled, I.reclaim, b,
  )

  -- Where the client has the genesis block, and the era of the extrinsic begins at the block whose
  -- hash the client gave as the best, `create_benchmark_extrinsic` returns an extrinsic with the
  -- call, the account of the sender and the extensions for the nonce, whose signature the runtime
  -- verifies. The hypotheses on Substrate are what each extension adds to the payload, and that a
  -- signature verifies for the account of the pair that made it.
  pub create_benchmark_extrinsic-Verifies :
      (implicit : Extension Era → Implicit Hash)
      (verify : T.AccountId → T.Bytes → T.Signature → Bool) (genesis : Hash) (birth : Era → Hash)
      (client : Client T) (sender : T.Pair) (call : T.RuntimeCall) (nonce : ℕ)
      → IsImplicit implicit genesis birth
      → ((p : T.Pair) (m : T.Bytes) → verify (T.account_of p) m (T.sign p m) ≡ true)
      → client.block_hash 0 ≡ ok (some genesis)
      → birth (T.mortal (era_period block_hash_count) client.best_number) ≡ client.best_hash
      → (x : UncheckedExtrinsic T) × (create_benchmark_extrinsic T client sender call nonce
          ≡ returned x)
        × (x.function ≡ call)
        × (x.signer ≡ T.account_of sender)
        × (x.extensions ≡ tx_extensions T client.best_number nonce)
        × Verifies implicit verify x
  unfolding create_benchmark_extrinsic
  create_benchmark_extrinsic-Verifies implicit verify genesis birth client sender call nonce I V g
        b =
      let payload =
        T.encode_payload call (tx_extensions T client.best_number nonce)
          (additional_signed T genesis client.best_hash) in
      let x : UncheckedExtrinsic T = record {
        function = call;
        signer = T.account_of sender;
        signature = T.sign sender payload;
        extensions = tx_extensions T client.best_number nonce;
      } in
      (
        x,
        rw g,
        refl,
        refl,
        refl,
        rw
            (additional_signed-map implicit genesis client.best_hash birth client.best_number nonce
              I b)
            (V sender payload),
      )

  -- `create_benchmark_extrinsic` panics exactly when the client has no hash for block 0, be it
  -- unknown or a failed lookup.
  create_benchmark_extrinsic-panics_iff :
      (client : Client T) (sender : T.Pair) (call : T.RuntimeCall) (nonce : ℕ)
      → (create_benchmark_extrinsic T client sender call nonce
          ≡ panicked "Genesis block exists; qed")
        ↔ ((h : Hash) → client.block_hash 0 ≢ ok (some h))
  unfolding create_benchmark_extrinsic
  create_benchmark_extrinsic-panics_iff client sender call nonce =
      expect_found_iff (client.block_hash 0) (λ h. _) "Genesis block exists; qed"
