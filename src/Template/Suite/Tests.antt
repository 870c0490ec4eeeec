-- ===== src/Template/Suite/Tests.antt =====
-- pallets/template/src/tests.rs: the tests over a runtime of plain data.
use native.Mathlib.Decide.{ℕ_discrete}
use mathlib.Core.Logic.{ite, if_pos}
use nexusguild.Base.{ℕ, ◌≡◌, refl, Bool, true, false, ok, returned}
use nexusguild.Template.Frame.{Event, Error}
use nexusguild.Template.Mock
use nexusguild.Template.Mock.{signed, DispatchError, Storage, test, test-IsLawful}
use nexusguild.Template.Suite.{
  TestApi, new_test_ext, it_works_for_default_value, correct_error_for_none_value,
}
use nexusguild.Template.Suite.Passes.{IsTestApi, tests-pass}

abbrev same : {A : Type 0} → Discrete A → A → A → Bool
same d a b = ite (d a b) true false

same_refl : {A : Type 0} (d : Discrete A) (a : A) → same d a a ≡ true
same_refl d a = rw (if_pos (d a a) refl)

Event-discrete : Discrete (Event ℕ)
Event-discrete = hlevel ℕ_discrete

Error-discrete : Discrete Error
Error-discrete = hlevel

DispatchError-discrete : Discrete DispatchError
DispatchError-discrete = hlevel Error-discrete

Storage-discrete : Discrete Storage
Storage-discrete = hlevel (ℕ_discrete, Event-discrete)

abbrev test_api : TestApi test
test_api = record {
  build_storage = ok (Mock.new_test_ext 0);
  signed = signed;
  account_1 = 1;
  set_block_number = λ n s. record s { block = n };
  same_event = same Event-discrete;
  same_error = same DispatchError-discrete;
  same_root = same Storage-discrete;
}

test_api-IsTestApi : IsTestApi test test_api
test_api-IsTestApi = record {
  storage = Mock.new_test_ext 0;
  builds = refl;
  starts_unset = refl;
  signs = λ who. refl;
  block-set = λ n s. refl;
  same_event_refl = same_refl Event-discrete;
  same_error_refl = same_refl DispatchError-discrete;
  same_root_refl = same_refl Storage-discrete;
}

tests-pass_example :
    (s : Storage) × (new_test_ext test test_api ≡ returned s)
    × ((it_works_for_default_value test test_api s).0 ≡ ok tt)
    × ((correct_error_for_none_value test test_api s).0 ≡ ok tt)
tests-pass_example = tests-pass test test-IsLawful test_api test_api-IsTestApi
