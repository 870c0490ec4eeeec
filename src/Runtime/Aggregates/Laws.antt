-- ===== src/Runtime/Aggregates/Laws.antt =====
-- runtime/src/lib.rs: the aggregates of the runtime are what the template pallet relies on.
use nexusguild.Base.{◌≢◌, sym, ap, arith}
use nexusguild.Template.Frame.{IsLawful, none_value, storage_overflow}
use nexusguild.Runtime.Aggregates.{SystemApi, IsSystem, template_error, runtime_frame}

-- The two errors have different bytes.
template_errors_differ : template_error none_value ≢ template_error storage_overflow
unfolding template_error
template_errors_differ e = ground (arith, ap (λ d. d.error) e)

-- The errors of the pallet are told apart from one another and from `BadOrigin` by their index and
-- bytes; the rest is what the system provides.
pub runtime_frame-IsLawful : (S : SystemApi) → IsSystem S → IsLawful (runtime_frame S)
runtime_frame-IsLawful S L = record {
  get-put = L.get-put;
  events-put = L.events-put;
  block-put = L.block-put;
  get-deposit = L.get-deposit;
  block-deposit = L.block-deposit;
  events-deposit = L.events-deposit;
  events-deposit_genesis = L.events-deposit_genesis;
  errors_differ = λ e. template_errors_differ (L.module_error-injective _ _ e);
  origin_error_differs =
      λ o e refused. L.bad_origin_differs _ (sym (L.ensure_signed-error o _ refused));
}
