-- ===== src/Node/Benchmarking/Builders.antt =====
-- node/src/benchmarking.rs: the builders as the benchmarks see them, by the trait
-- `ExtrinsicBuilder`.
use nexusguild.Base.{ℕ, ◌≡◌, ◌∙◌, ap, String, Bool, true, some, ok, [], Outcome, returned}
use nexusguild.Runtime.Time.{block_hash_count}
use nexusguild.Node.Benchmarking.Signing.{IsImplicit, Verifies, create_benchmark_extrinsic-Verifies}
use nexusguild.Node.Benchmarking.{
  Extension, Implicit, era_period, tx_extensions, TxApi, UncheckedExtrinsic, RemarkBuilder,
  TransferKeepAliveBuilder, build_remark, build_transfer,
}

module _ (T : TxApi) where
  -- The names of a pallet and of its extrinsic, and the extrinsic for a nonce.
  pub record ExtrinsicBuilder : Type 0 where
    pub pallet : String
    pub extrinsic : String
    pub build : ℕ → Outcome (UncheckedExtrinsic T)

  unfoldable pub remark_builder : RemarkBuilder T → ExtrinsicBuilder
  remark_builder b = record { pallet = "system"; extrinsic = "remark"; build = build_remark T b }

  unfoldable pub transfer_keep_alive_builder : TransferKeepAliveBuilder T → ExtrinsicBuilder
  transfer_keep_alive_builder b = record {
    pallet = "balances";
    extrinsic = "transfer_keep_alive";
    build = build_transfer T b;
  }

module _ (T : TxApi) where
  -- The builder builds the extrinsic that it announces, signed by Bob and for the nonce, with a
  -- signature that the runtime verifies.
  pub record IsHonest (name_of : T.RuntimeCall → String × String)
      (implicit : Extension T.Era → Implicit T.Hash)
      (verify : T.AccountId → T.Bytes → T.Signature → Bool) (b : ExtrinsicBuilder T)
      (number nonce : ℕ) : Type 0 where
    pub built : UncheckedExtrinsic T
    pub returns : b.build nonce ≡ returned built
    pub announced : name_of built.function ≡ (b.pallet, b.extrinsic)
    pub by_bob : built.signer ≡ T.account_of T.bob
    pub for_nonce : built.extensions ≡ tx_extensions T number nonce
    pub verified : Verifies T implicit verify built

  -- Where the client has the genesis block, and the era of an extrinsic begins at the block whose
  -- hash the client gave as the best, each of the two builders builds for any nonce an extrinsic
  -- whose call is of the pallet and of the name that the builder announces, signed by Bob, with a
  -- signature that the runtime verifies. The hypotheses on Substrate are the names of the two
  -- calls, what each extension adds to the payload, and that a signature verifies for the account
  -- of the pair that made it.
  pub builders-IsHonest :
      (name_of : T.RuntimeCall → String × String) (implicit : Extension T.Era → Implicit T.Hash)
      (verify : T.AccountId → T.Bytes → T.Signature → Bool) (genesis : T.Hash)
      (birth : T.Era → T.Hash) (b : TransferKeepAliveBuilder T) (nonce : ℕ)
      → name_of (T.remark []) ≡ ("system", "remark")
      → ((dest : T.AccountId) (value : ℕ)
          → name_of (T.transfer_keep_alive dest value) ≡ ("balances", "transfer_keep_alive"))
      → IsImplicit T implicit genesis birth
      → ((p : T.Pair) (m : T.Bytes) → verify (T.account_of p) m (T.sign p m) ≡ true)
      → b.client.block_hash 0 ≡ ok (some genesis)
      → birth (T.mortal (era_period block_hash_count) b.client.best_number) ≡ b.client.best_hash
      → IsHonest name_of implicit verify
          (remark_builder T (record { client = b.client }))
          b.client.best_number
          nonce
        × IsHonest name_of implicit verify
            (transfer_keep_alive_builder T b)
            b.client.best_number
            nonce
  unfolding remark_builder transfer_keep_alive_builder build_remark build_transfer
  builders-IsHonest name_of implicit verify genesis birth b nonce remarks transfers I V g start =
      let (x, x_built, x_call, x_signer, x_extensions, x_verified) =
        create_benchmark_extrinsic-Verifies T implicit verify genesis birth b.client T.bob
          (T.remark []) nonce I V g start in
      let (y, y_built, y_call, y_signer, y_extensions, y_verified) =
        create_benchmark_extrinsic-Verifies T implicit verify genesis birth b.client T.bob
          (T.transfer_keep_alive b.dest b.value) nonce I V g start in
      (
        record {
          built = x;
          returns = x_built;
          announced = ap name_of x_call ∙ remarks;
          by_bob = x_signer;
          for_nonce = x_extensions;
          verified = x_verified;
        },
        record {
          built = y;
          returns = y_built;
          announced = ap name_of y_call ∙ transfers b.dest b.value;
          by_bob = y_signer;
          for_nonce = y_extensions;
          verified = y_verified;
        },
      )
