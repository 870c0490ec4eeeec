-- ===== src/Runtime/Aggregates/Tests.antt =====
-- runtime/src/lib.rs: the theorems on the aggregates at concrete calls.
use nexusguild.Base.{ℕ, ◌≡◌, ◌↔◌, refl, some, ok, err, List, [], ◌∷◌, arith}
use nexusguild.Base.Words.{u32_max}
use nexusguild.Template.Frame.{something_stored}
use nexusguild.Template.Dispatch.{cause_error, call_index, dispatch}
use nexusguild.Template.Mock.{Origin, unsigned, signed}
use nexusguild.Runtime.Calls.{
  template, balances, runtime_call, decode_runtime_call, decode_call, pallet_of_index, pallet_index,
}
use nexusguild.Runtime.Calls.Execution.{dispatch_runtime_call, run_bytes}
use nexusguild.Runtime.Aggregates.{runtime_event, template_error, runtime_frame}
use nexusguild.Runtime.Aggregates.Reasons.{Explained, dispatch_runtime_call-Explained_iff}
use nexusguild.Runtime.Aggregates.Log.{stored_events}
use nexusguild.Runtime.Aggregates.Served.{results, run_bytes-serve}
use nexusguild.Runtime.Aggregates.Example.{
  Storage, bad_origin, module_error, system_api, system_api-IsSystem, numbers, others, Ordinary,
  others-IsApart, others-LogsApart,
}

abbrev full : Storage
full = record { something = some u32_max; log = []; block = 1 }

dispatch_runtime_call-Explained_iff_example :
    ((dispatch_runtime_call numbers
        (runtime_frame system_api)
        others
        (runtime_call template cause_error)
        (signed 3)
        full).0
      ≡ err (module_error (record { index = 7; error = 1 ∷ 0 ∷ 0 ∷ 0 ∷ [] })))
    ↔ Explained system_api
        (signed 3)
        full
        cause_error
        (module_error (record { index = 7; error = 1 ∷ 0 ∷ 0 ∷ 0 ∷ [] }))
dispatch_runtime_call-Explained_iff_example =
    dispatch_runtime_call-Explained_iff system_api system_api-IsSystem numbers others cause_error
      (signed 3) full (module_error (record { index = 7; error = 1 ∷ 0 ∷ 0 ∷ 0 ∷ [] }))

-- The code of the error that the full counter gives.
full_error :
    (dispatch (runtime_frame system_api) cause_error (signed 3) full).0
    ≡ err (module_error (record { index = 7; error = 1 ∷ 0 ∷ 0 ∷ 0 ∷ [] }))
unfolding dispatch template_error
full_error = refl

-- `do_something(258)`, a call of `Balances`, `cause_error`, and an unsigned `do_something`.
abbrev history : List (Origin × List ℕ)
history =
    (signed 1, 7 ∷ 0 ∷ 2 ∷ 1 ∷ 0 ∷ 0 ∷ [])
    ∷ (signed 2, 4 ∷ 30 ∷ [])
    ∷ (signed 2, 7 ∷ 1 ∷ [])
    ∷ (unsigned, 7 ∷ 0 ∷ 5 ∷ 0 ∷ 0 ∷ 0 ∷ [])
    ∷ []

log_of_history :
    (run_bytes numbers (runtime_frame system_api) others history full).log
    ≡ runtime_event template (something_stored 258 1) ∷ runtime_event balances 30 ∷ []
unfolding decode_runtime_call decode_call pallet_of_index pallet_index call_index dispatch
    dispatch_runtime_call
log_of_history = refl

run_bytes-serve_example :
    (results system_api numbers others history full ≡ ok tt ∷ ok tt ∷ err bad_origin ∷ [])
    × ((run_bytes numbers (runtime_frame system_api) others history full).something ≡ some 259)
    × (stored_events system_api
          (run_bytes numbers (runtime_frame system_api) others history full).log
        ≡ something_stored 258 1 ∷ [])
unfolding decode_runtime_call decode_call pallet_of_index pallet_index call_index
run_bytes-serve_example =
    run_bytes-serve system_api system_api-IsSystem numbers others Ordinary others-IsApart
      others-LogsApart history full (omega arith) (omega arith)
