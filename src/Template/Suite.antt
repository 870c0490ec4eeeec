-- ===== src/Template/Suite.antt =====
-- pallets/template/src/mock.rs and pallets/template/src/tests.rs: the mock runtime of the pallet
-- and its tests, with what they assert.
use nexusguild.Base.{
  ℕ, ◌==◌, ◌&&◌, String, Bool, true, false, if◌then◌else◌, Option, none, some, Result, ok, err,
  List, [], ◌∷◌, Stateful, Outcome, expect_result, ◌>>=◌, ◌>>◌, modify, gets,
}
use nexusguild.Template.Frame.{Frame, Event, something_stored, none_value}
use nexusguild.Template.Dispatch.{call_do_something, call_cause_error}
use nexusguild.Template.Weights.{WeightApi, unit_weight}
use nexusguild.Template.Config.{Config}
use nexusguild.Template.Benchmarking.{same_value}
pub mod Passes
mod Tests

-- The pallets of the mock runtime, with their indices.
pub data MockPallet : Type 0 where
  system template : MockPallet

unfoldable pub mock_pallet_index : MockPallet → ℕ
mock_pallet_index system = 0
mock_pallet_index template = 1

-- The configuration of the pallet in the mock runtime, whose accounts are numbers.
abbrev pub mock_config :
    (W : WeightApi) {RuntimeEvent : Type 0} → (Event ℕ → RuntimeEvent) → Config W ℕ
mock_config W {RuntimeEvent = RuntimeEvent} variant = record {
  RuntimeEvent = RuntimeEvent;
  from_event = variant;
  weight_info = unit_weight W;
}

-- What the tests take from FRAME: the default genesis configuration, built into a storage; signed
-- origins; the block number; and the comparisons of events, errors and storage roots.
pub record TestApi (F : Frame) : Type 0 where
  pub build_storage : Result String F.Storage
  pub signed : F.AccountId → F.Origin
  pub account_1 : F.AccountId
  pub set_block_number : ℕ → F.Storage → F.Storage
  pub same_event : F.RuntimeEvent → F.RuntimeEvent → Bool
  pub same_error : F.DispatchError → F.DispatchError → Bool
  pub same_root : F.Storage → F.Storage → Bool

abbrev pub last : {A : Type 0} → List A → Option A
last [] = none
last (a ∷ []) = some a
last (a ∷ b ∷ l) = last (b ∷ l)

module _ (F : Frame) (A : TestApi F) where
  -- A test goes on with the storage, or its assertion fails.
  abbrev pub Test : Type 0
  Test = Stateful F.Storage String (Unit {0})

  unfoldable pub new_test_ext : Outcome F.Storage
  new_test_ext = expect_result A.build_storage "called `Result::unwrap()` on an `Err` value"

  abbrev pub assert : Bool → String → Test
  assert holds message s = (if holds then ok tt else err message, s)

  abbrev is_ok : Result F.DispatchError (Unit {0}) → Bool
  is_ok (ok u) = true
  is_ok (err e) = false

  -- `assert_ok!`
  unfoldable pub assert_ok : Stateful F.Storage F.DispatchError (Unit {0}) → Test
  assert_ok call s = let (r, t) = call s in assert (is_ok r) "the call failed" t

  abbrev fails_with : F.DispatchError → Result F.DispatchError (Unit {0}) → Bool
  fails_with e (ok u) = false
  fails_with e (err d) = A.same_error d e

  -- `assert_noop!`: the call fails with the error, and leaves the storage root as it is.
  unfoldable pub assert_noop :
      Stateful F.Storage F.DispatchError (Unit {0}) → F.DispatchError → Test
  assert_noop call e s =
      let (r, t) = call s in assert (fails_with e r && A.same_root s t) "not a no-op" t

  abbrev is_last : F.RuntimeEvent → Option F.RuntimeEvent → Bool
  is_last e none = false
  is_last e (some d) = A.same_event d e

  -- `System::assert_last_event`
  unfoldable pub assert_last_event : F.RuntimeEvent → Test
  assert_last_event e s = assert (is_last e (last (F.events s))) "another event" s

  -- `assert_eq!(Something::<Test>::get(), expected)`
  unfoldable pub assert_value : Option ℕ → Test
  assert_value expected s = assert (same_value (F.get_something s) expected) "another value" s

  unfoldable pub it_works_for_default_value : Test
  unfolding assert_ok assert_value assert_last_event ◌>>=◌ modify
  it_works_for_default_value = do
    modify (A.set_block_number 1)
    assert_ok (call_do_something F (A.signed A.account_1) 42)
    assert_value (some 42)
    assert_last_event (F.event_into (something_stored 42 A.account_1))

  unfoldable pub correct_error_for_none_value : Test
  unfolding assert_noop
  correct_error_for_none_value =
      assert_noop (call_cause_error F (A.signed A.account_1)) (F.error_into none_value)
