-- ===== src/Template/Benchmarking.antt =====
-- pallets/template/src/benchmarking.rs: the benchmarks of the two calls, with what they assert.
use nexusguild.Base.{
  ℕ, ◌==◌, Bool, true, false, if◌then◌else◌, Option, none, some, Result, ok, err, map_err, Stateful,
  ◌>>=◌, ◌>>◌, modify, gets, propagate,
}
use nexusguild.Template.Frame.{Frame}
use nexusguild.Template.Dispatch.{call_do_something, call_cause_error}
pub mod Passes

-- How a benchmark ends early: the call returned an error, or the assertion panicked.
pub data Failure (E : Type 0) : Type 0 where
  call_failed : E → Failure E
  assertion_failed : Failure E

abbrev pub same_value : Option ℕ → Option ℕ → Bool
same_value none none = true
same_value (some m) (some n) = m == n
same_value none (some _) = false
same_value (some _) none = false

-- `RawOrigin::Signed` and `whitelisted_caller()` are the arguments.
module _ (F : Frame) (signed : F.AccountId → F.Origin) (whitelisted_caller : F.AccountId) where
  abbrev pub Benchmark : Type 0
  Benchmark = Stateful F.Storage (Failure F.DispatchError) (Unit {0})

  -- `#[extrinsic_call]`
  unfoldable pub extrinsic_call : Stateful F.Storage F.DispatchError (Unit {0}) → Benchmark
  extrinsic_call call s = let (r, t) = call s in (map_err call_failed r, t)

  -- `assert_eq!(Something::<T>::get(), expected)`
  unfoldable pub assert_something : Option ℕ → Benchmark
  assert_something expected s =
      (if same_value (F.get_something s) expected then ok tt else err assertion_failed, s)

  unfoldable pub benchmark_do_something : Benchmark
  unfolding extrinsic_call assert_something ◌>>=◌
  benchmark_do_something =
      let value : ℕ = 100 in
      do
        extrinsic_call (call_do_something F (signed whitelisted_caller) value)
        assert_something (some value)

  unfoldable pub benchmark_cause_error : Benchmark
  unfolding extrinsic_call assert_something ◌>>=◌ modify
  benchmark_cause_error = do
    modify (F.put_something 100)
    extrinsic_call (call_cause_error F (signed whitelisted_caller))
    assert_something (some 101)
