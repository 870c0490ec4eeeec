-- ===== src/Runtime/Apis/Payment.antt =====
-- runtime/src/apis.rs: `AccountNonceApi` and `TransactionPaymentApi`.
use nexusguild.Base.{ℕ}

pub record PaymentTypes : Type 1 where
  pub Storage : Type 0
  pub AccountId : Type 0
  pub Extrinsic : Type 0
  pub RuntimeCall : Type 0
  pub Weight : Type 0
  pub RuntimeDispatchInfo : Type 0
  pub FeeDetails : Type 0

module _ (T : PaymentTypes) where
  open T use {Storage, Extrinsic, RuntimeCall, RuntimeDispatchInfo, FeeDetails}

  -- The pallets `System` and `TransactionPayment`. Lengths are `u32`, fees and nonces numbers.
  pub record PaymentPallets : Type 0 where
    pub system_account_nonce : T.AccountId → Storage → ℕ
    pub payment_query_info : Extrinsic → ℕ → Storage → RuntimeDispatchInfo
    pub payment_query_fee_details : Extrinsic → ℕ → Storage → FeeDetails
    pub payment_query_call_info : RuntimeCall → ℕ → Storage → RuntimeDispatchInfo
    pub payment_query_call_fee_details : RuntimeCall → ℕ → Storage → FeeDetails
    pub payment_weight_to_fee : T.Weight → Storage → ℕ
    pub payment_length_to_fee : ℕ → Storage → ℕ

module _ (T : PaymentTypes) (P : PaymentPallets T) where
  open T use {Storage, Extrinsic, RuntimeDispatchInfo, FeeDetails}

  unfoldable pub account_nonce : T.AccountId → Storage → ℕ
  account_nonce account = P.system_account_nonce account

  unfoldable pub query_info : Extrinsic → ℕ → Storage → RuntimeDispatchInfo
  query_info uxt len = P.payment_query_info uxt len

  unfoldable pub query_fee_details : Extrinsic → ℕ → Storage → FeeDetails
  query_fee_details uxt len = P.payment_query_fee_details uxt len

  unfoldable pub query_weight_to_fee : T.Weight → Storage → ℕ
  query_weight_to_fee weight = P.payment_weight_to_fee weight

  unfoldable pub query_length_to_fee : ℕ → Storage → ℕ
  query_length_to_fee length = P.payment_length_to_fee length
