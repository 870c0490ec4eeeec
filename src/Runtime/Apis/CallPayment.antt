-- ===== src/Runtime/Apis/CallPayment.antt =====
-- runtime/src/apis.rs: `TransactionPaymentCallApi`, which quotes the fee of a call.
use nexusguild.Base.{ℕ}
use nexusguild.Runtime.Apis.Payment.{PaymentTypes, PaymentPallets}

module _ (T : PaymentTypes) (P : PaymentPallets T) where
  open T use {Storage, RuntimeCall, RuntimeDispatchInfo, FeeDetails}

  unfoldable pub query_call_info : RuntimeCall → ℕ → Storage → RuntimeDispatchInfo
  query_call_info call len = P.payment_query_call_info call len

  unfoldable pub query_call_fee_details : RuntimeCall → ℕ → Storage → FeeDetails
  query_call_fee_details call len = P.payment_query_call_fee_details call len

  unfoldable pub query_weight_to_fee : T.Weight → Storage → ℕ
  query_weight_to_fee weight = P.payment_weight_to_fee weight

  unfoldable pub query_length_to_fee : ℕ → Storage → ℕ
  query_length_to_fee length = P.payment_length_to_fee length
