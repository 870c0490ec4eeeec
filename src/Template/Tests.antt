-- ===== src/Template/Tests.antt =====
-- pallets/template/src/tests.rs: its runs, and the theorems at concrete calls.
use nexusguild.Base.{◌++◌, ℕ, ◌≡◌, refl, ◌↔◌, none, some, ok, err, List, [], ◌∷◌, arith, ◌≤◌, ◌<◌}
use nexusguild.Base.Words.{u32_max}
use nexusguild.Template.Frame.{something_stored, none_value, storage_overflow}
use nexusguild.Template.Contract.{dispatch_all-serve}
use nexusguild.Template.Dispatch.{
  Call, do_something, cause_error, call_do_something, call_cause_error, dispatch, dispatch_all,
}
use nexusguild.Template.Errors.{dispatch_error_unchanged, cause_error_outcomes}
use nexusguild.Template.Counter.{set_to, count_up, refused, InRange}
use nexusguild.Template.Repeat.{calls, cause_error-repeat}
use mathlib.Core.List.{Permᴰ}
use nexusguild.Template.Order.{turns, dispatch_all-Perm}
use nexusguild.Template.Summary.{total, summary_from, dispatch_all-total}
use mathlib.Core.Quot
use nexusguild.Template.Bags.{Bag, join, value_after, successes_of, bag-raises}
use nexusguild.Template.Machine.{
  Reach, here, next, called, elsewhere, overwritten, HasValue, Reach-kept, do_something-recovers,
}
use nexusguild.Template.Benchmarking.{benchmark_do_something, benchmark_cause_error}
use nexusguild.Template.Benchmarking.Passes.{benchmarks-pass}
use nexusguild.Template.Weights.{substrate_weight, unit_weight, call_weight}
use nexusguild.Template.Weights.Example.{weights}
use nexusguild.Template.Mock.{
  Origin, root, signed, unsigned, bad_origin, module_error, test, test-IsLawful, Storage,
  new_test_ext,
}

it_works_for_default_value :
    call_do_something test (signed 1) 42 (new_test_ext 1)
    ≡ (ok tt, record { something = some 42; log = something_stored 42 1 ∷ []; block = 1 })
unfolding call_do_something
it_works_for_default_value = refl

correct_error_for_none_value :
    call_cause_error test (signed 1) (new_test_ext 0)
    ≡ (err (module_error none_value), new_test_ext 0)
unfolding call_cause_error
correct_error_for_none_value = refl

abbrev full : Storage
full = record (new_test_ext 1) { something = some u32_max }

dispatch_error_unchanged_example : (dispatch test cause_error (signed 1) full).1 ≡ full
unfolding dispatch
dispatch_error_unchanged_example =
    dispatch_error_unchanged test cause_error (signed 1) full {e = module_error storage_overflow}
      refl

cause_error_outcomes_example :
    let r = (call_cause_error test (signed 1) full).0 in
    ((r ≡ err (module_error none_value)) ↔ (full.something ≡ none))
    × ((r ≡ err (module_error storage_overflow))
        ↔ ((n : ℕ) × (full.something ≡ some n) × (u32_max ≤ n)))
    × ((r ≡ ok tt) ↔ ((n : ℕ) × (full.something ≡ some n) × (n < u32_max)))
cause_error_outcomes_example = cause_error_outcomes test test-IsLawful (signed 1) full refl

abbrev history : List (Origin × Call)
history = (signed 7, do_something 4) ∷ (root, do_something 9) ∷ (signed 8, cause_error) ∷ []

-- Five calls, of which two are refused; the second account counts up from 4.
dispatch_all-serve_example :
    let (results, t) =
      dispatch_all test
        ((signed 8, cause_error) ∷ history ++ (unsigned, cause_error) ∷ [])
        (new_test_ext 1) in
    (results ≡ err (module_error none_value) ∷ ok tt ∷ err bad_origin ∷ ok tt ∷ err bad_origin ∷ [])
    × (t.something ≡ some 5)
    × (t.log ≡ something_stored 4 7 ∷ [])
dispatch_all-serve_example =
    dispatch_all-serve test test-IsLawful
      ((signed 8, cause_error) ∷ history ++ (unsigned, cause_error) ∷ []) (new_test_ext 1)

cause_error-repeat_example :
    let near : Storage = record (new_test_ext 1) { something = some 4294967294 } in
    let (results, s) = dispatch_all test (calls test 3 (signed 1)) near in
    (results
      ≡ ok tt ∷ err (module_error storage_overflow) ∷ err (module_error storage_overflow) ∷ [])
    × (s.something ≡ some u32_max)
cause_error-repeat_example =
    cause_error-repeat test test-IsLawful 3 (signed 1) _ refl refl (omega arith)

-- With the weights of RocksDB the implementation for `()` charges the same.
unit_weight_same :
    call_weight weights (substrate_weight weights weights.rocks_db_weight) cause_error
    ≡ call_weight weights (unit_weight weights) cause_error
unfolding call_weight substrate_weight unit_weight
unit_weight_same = refl

benchmarks-pass_example :
    ((benchmark_do_something test signed 5 full).0 ≡ ok tt)
    × ((benchmark_cause_error test signed 5 full).0 ≡ ok tt)
benchmarks-pass_example = benchmarks-pass test test-IsLawful signed 5 refl full

-- A block in which `cause_error` was called, and the next block, which starts with an empty log and
-- in which the root wrote 9.
abbrev next_block : Storage
next_block = record (new_test_ext 2) { something = some u32_max }

abbrev later : Storage
later = record (new_test_ext 2) { something = some 9 }

stays : full ≡ (dispatch test cause_error (signed 2) full).1
unfolding dispatch
stays = refl

chain : Reach test full later
chain =
    let block : Reach test full next_block =
      next (next here (called cause_error (signed 2) tt stays)) (elsewhere refl) in
    next block (overwritten 9 (omega arith) refl)

Reach-kept_example : InRange later.something × (HasValue full.something → HasValue later.something)
Reach-kept_example = Reach-kept test test-IsLawful (omega arith) chain

do_something-recovers_example :
    let (results, t) =
      dispatch_all test ((signed 3, do_something 8) ∷ calls test 2 (signed 3)) full in
    (results ≡ ok tt ∷ ok tt ∷ ok tt ∷ []) × (t.something ≡ some 10)
do_something-recovers_example =
    do_something-recovers test test-IsLawful 8 2 (signed 3) full refl (omega arith)

-- There is room for one more: whichever signed call comes first succeeds.
abbrev nearly_full : Storage
nearly_full = record (new_test_ext 1) { something = some 4294967294 }

dispatch_all-Perm_example :
    let first = dispatch_all test (turns test (signed 1 ∷ root ∷ signed 2 ∷ [])) nearly_full in
    let second = dispatch_all test (turns test (root ∷ signed 2 ∷ signed 1 ∷ [])) nearly_full in
    Permᴰ first.0 second.0 × (first.1 ≡ second.1)
dispatch_all-Perm_example =
    dispatch_all-Perm test
      (Permᴰ.trans (Permᴰ.swap refl refl) (Permᴰ.cons refl (Permᴰ.swap {l = []} refl refl)))
      nearly_full

abbrev callers : Bag test
callers = Quot.mk (signed 1 ∷ root ∷ signed 2 ∷ [])

-- Only one of the two signed calls finds room, and a third one finds none.
bag-raises_example :
    (value_after test callers nearly_full ≡ some u32_max)
    × (successes_of test callers nearly_full ≡ 1)
    × (value_after test (join test callers (Quot.mk (signed 3 ∷ []))) nearly_full ≡ some u32_max)
unfolding dispatch_all dispatch
bag-raises_example =
    bag-raises test test-IsLawful callers (Quot.mk (signed 3 ∷ [])) nearly_full (omega arith)

dispatch_all-total_example :
    (dispatch_all test history (new_test_ext 1)).1.something
    ≡ total (summary_from (none, 0) (set_to 4 ∷ refused ∷ count_up ∷ [])) none
dispatch_all-total_example =
    dispatch_all-total test test-IsLawful history (new_test_ext 1) (omega arith) tt

-- The last value that was set, and one call after it.
summary_of_history :
    total (summary_from (none, 0) (set_to 4 ∷ refused ∷ count_up ∷ [])) none ≡ some 5
summary_of_history = refl
