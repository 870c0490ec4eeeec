-- ===== src/Node/Benchmarking/Stale.antt =====
-- node/src/benchmarking.rs: the two answers of `chain_info()` that an extrinsic is made of.
use nexusguild.Base.{ℕ, ◌≡◌, ◌↔◌, refl, ap, ◌∙◌, sym, Bool, true, some, ok, List, map, returned}
use nexusguild.Runtime.Time.{block_hash_count}
use nexusguild.Node.Benchmarking.{
  Extension, Implicit, TxApi, Client, UncheckedExtrinsic, era_period, tx_extensions,
  additional_signed, create_benchmark_extrinsic,
}
use nexusguild.Node.Benchmarking.Signing.{IsImplicit, Verifies, additional_signed-map}

module _ (T : TxApi) where
  open T use {Hash, Era}

  -- A signature is good for one message alone, and a payload tells what its extensions add: the
  -- hash of a payload over 256 bytes is taken to have no collisions.
  pub record IsSound (verify : T.AccountId → T.Bytes → T.Signature → Bool) : Type 0 where
    pub signed :
        (p : T.Pair) (m n : T.Bytes) → (verify (T.account_of p) m (T.sign p n) ≡ true) ↔ (m ≡ n)
    pub told :
        (call : T.RuntimeCall) (extensions : List (Extension Era)) (a b : List (Implicit Hash))
        → T.encode_payload call extensions a ≡ T.encode_payload call extensions b
        → a ≡ b

  best-additional_signed :
      (genesis a b : Hash) → additional_signed T genesis a ≡ additional_signed T genesis b → a ≡ b
  unfolding additional_signed
  best-additional_signed genesis a b h = cc

  -- Where the client has the genesis block, `create_benchmark_extrinsic` returns an extrinsic whose
  -- signature is verified exactly if its era, which is made of the second answer of `chain_info()`,
  -- begins at the block whose hash the first answer gave. So a block that is imported between the
  -- two answers makes the signature bad, unless the era begins before it. The hypotheses on
  -- Substrate are what each extension adds to the payload, that a signature is good for the signed
  -- message alone, and that a payload tells what its extensions add.
  pub create_benchmark_extrinsic-Verifies_iff :
      (implicit : Extension Era → Implicit Hash)
      (verify : T.AccountId → T.Bytes → T.Signature → Bool) (genesis : Hash) (birth : Era → Hash)
      (client : Client T) (sender : T.Pair) (call : T.RuntimeCall) (nonce : ℕ)
      → IsImplicit T implicit genesis birth
      → IsSound verify
      → client.block_hash 0 ≡ ok (some genesis)
      → (x : UncheckedExtrinsic T) × (create_benchmark_extrinsic T client sender call nonce
          ≡ returned x)
        × (Verifies T implicit verify x ↔ (
            birth (T.mortal (era_period block_hash_count) client.best_number) ≡ client.best_hash))
  unfolding create_benchmark_extrinsic
  create_benchmark_extrinsic-Verifies_iff implicit verify genesis birth client sender call nonce I S
        g =
      let start = birth (T.mortal (era_period block_hash_count) client.best_number) in
      let extensions = tx_extensions T client.best_number nonce in
      let added : map implicit extensions ≡ additional_signed T genesis start =
        additional_signed-map T implicit genesis start birth client.best_number nonce I refl in
      let encode = λ (a : List (Implicit Hash)). T.encode_payload call extensions a in
      let payload = encode (additional_signed T genesis client.best_hash) in
      let x : UncheckedExtrinsic T = record {
        function = call;
        signer = T.account_of sender;
        signature = T.sign sender payload;
        extensions = extensions;
      } in
      (
        x,
        rw g,
        (
          λ v.
              best-additional_signed genesis start client.best_hash
                (sym added ∙ S.told call extensions _ _ ((S.signed sender _ payload).0 v)),
          λ e.
              (S.signed sender _ payload).1
                (ap encode (added ∙ ap (additional_signed T genesis) e)),
        ),
      )
