-- ===== src/Template/Suite/Passes.antt =====
-- pallets/template/src/tests.rs: the tests pass.
use nexusguild.Base.{
  ℕ, ◌≡◌, refl, ◌∙◌, ap, true, none, some, ok, List, [], ◌∷◌, ◌++◌, returned, arith, ◌>>=◌,
}
use nexusguild.Template.Frame.{Frame, IsLawful, something_stored, none_value}
use nexusguild.Template.Dispatch.{call_do_something, call_cause_error}
use nexusguild.Template.Suite.{
  assert_ok, assert_value, assert_last_event, TestApi, last, new_test_ext,
  it_works_for_default_value, correct_error_for_none_value,
}

-- What FRAME documents of them: the default storage has no value, a signed origin is its account's,
-- the block number is a storage item of its own, and what is the same compares as the same.
pub record IsTestApi (F : Frame) (A : TestApi F) : Type 0 where
  pub storage : F.Storage
  pub builds : A.build_storage ≡ ok storage
  pub starts_unset : F.get_something storage ≡ none
  pub signs : (who : F.AccountId) → F.ensure_signed (A.signed who) ≡ ok who
  pub block-set : (n : ℕ) (s : F.Storage) → F.block_number (A.set_block_number n s) ≡ n
  pub same_event_refl : (e : F.RuntimeEvent) → A.same_event e e ≡ true
  pub same_error_refl : (e : F.DispatchError) → A.same_error e e ≡ true
  pub same_root_refl : (s : F.Storage) → A.same_root s s ≡ true

last-append : {A : Type 0} (l : List A) (a : A) → last (l ++ a ∷ []) ≡ some a
last-append [] a = refl
last-append (b ∷ []) a = refl
last-append (b ∷ c ∷ l) a = last-append (c ∷ l) a

module _ (F : Frame) (L : IsLawful F) (A : TestApi F) (T : IsTestApi F A) where
  open F use {Storage}

  works : (s : Storage) → (it_works_for_default_value F A s).0 ≡ ok tt
  unfolding it_works_for_default_value assert_ok assert_value assert_last_event call_do_something
      ◌>>=◌
  works s =
      let event = F.event_into (something_stored 42 A.account_1) in
      let past_genesis = A.set_block_number 1 s in
      let stored = F.put_something 42 past_genesis in
      let signed = T.signs A.account_1 in
      let value : F.get_something (F.system_deposit_event event stored) ≡ some 42 =
        L.get-deposit event stored ∙ L.get-put 42 past_genesis in
      let block : F.block_number stored ≡ 1 = L.block-put 42 past_genesis ∙ T.block-set 1 s in
      let log : last (F.events (F.system_deposit_event event stored)) ≡ some event =
        ap last (L.events-deposit event stored (omega arith))
        ∙ last-append (F.events stored) event in
      let same = T.same_event_refl event in ground (arith, signed, value, log, same)

  noop : (s : Storage) → F.get_something s ≡ none → (correct_error_for_none_value F A s).0 ≡ ok tt
  unfolding correct_error_for_none_value call_cause_error
  noop s unset =
      let signed = T.signs A.account_1 in
      let error = T.same_error_refl (F.error_into none_value) in
      let root = T.same_root_refl s in ground (arith, signed, error, root)

  -- The storage of the tests is built, and both tests of the pallet run to their end from it: every
  -- assertion holds, for any runtime that provides what FRAME documents.
  pub tests-pass :
      (s : Storage) × (new_test_ext F A ≡ returned s)
      × ((it_works_for_default_value F A s).0 ≡ ok tt)
      × ((correct_error_for_none_value F A s).0 ≡ ok tt)
  unfolding new_test_ext
  tests-pass = (T.storage, rw T.builds, works T.storage, noop T.storage T.starts_unset)
