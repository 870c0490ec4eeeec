-- ===== src/Template/Benchmarking/Passes.antt =====
-- pallets/template/src/benchmarking.rs: the benchmarks pass.
use nexusguild.Base.{ok, ◌≡◌, arith}
use nexusguild.Template.Frame.{Frame, IsLawful, something_stored}
use nexusguild.Template.Dispatch.{call_do_something, call_cause_error}
use nexusguild.Template.Benchmarking.{benchmark_do_something, benchmark_cause_error}

-- Both benchmarks run to their end from any storage, whatever value it holds: their calls succeed
-- and their assertions hold, given that the origin of the caller is signed.
pub benchmarks-pass :
    (F : Frame) (L : IsLawful F) (signed : F.AccountId → F.Origin) (caller : F.AccountId)
    → F.ensure_signed (signed caller) ≡ ok caller
    → (s : F.Storage)
    → ((benchmark_do_something F signed caller s).0 ≡ ok tt)
      × ((benchmark_cause_error F signed caller s).0 ≡ ok tt)
unfolding benchmark_do_something benchmark_cause_error call_do_something call_cause_error
benchmarks-pass F L signed caller h s =
    let stored = L.get-put 100 s in
    let kept = L.get-deposit (F.event_into (something_stored 100 caller)) (F.put_something 100 s) in
    let counted = L.get-put 101 (F.put_something 100 s) in
    (ground (arith, h, stored, kept), ground (arith, h, stored, counted))
