-- ===== src/Runtime/Calls/Counting.antt =====
-- runtime/src/lib.rs with pallets/template/src/lib.rs: encoded calls that set the value and count
-- it up, among other traffic.
use nexusguild.Base.{
  ℕ, ◌+◌, ◌≤◌, ◌≡◌, ◌∙◌, ap, min, some, ok, inl, inr, Result-cases, List, [], ◌∷◌, map, arith,
}
use nexusguild.Base.Words.{u32_max}
use nexusguild.Template.Frame.{Frame, IsLawful}
use nexusguild.Template.Dispatch.{do_something, cause_error}
use nexusguild.Template.Counter.{answer_all, InRange}
use nexusguild.Template.Turns.{signed_count}
use nexusguild.Runtime.Calls.{template, CallCodec, RuntimeCall, runtime_call}
use nexusguild.Runtime.Calls.RoundTrip.{IsCodec}
use nexusguild.Runtime.Calls.Execution.{OtherPallets, IsApart, AllOrdinary, run_bytes}
use nexusguild.Runtime.Calls.Refinement.{
  runtime_request, bytes_request, encoded, AllWords, run_bytes-encoded,
}
use nexusguild.Runtime.Calls.Interleaving.{Shuffle, AllRefused, Ordinary-Shuffle, run_bytes-Shuffle}

module _ (C : CallCodec) (F : Frame) where
  open F use {Origin, ensure_signed}

  -- Each of the callers calls `cause_error` once.
  abbrev pub count_calls : List Origin → List (Origin × RuntimeCall C)
  count_calls [] = []
  count_calls (o ∷ callers) = (o, runtime_call template cause_error) ∷ count_calls callers

  -- One origin sets the value, and then the callers count it up.
  abbrev pub set_and_count : Origin → ℕ → List Origin → List (Origin × RuntimeCall C)
  set_and_count setter n callers =
      (setter, runtime_call template (do_something n)) ∷ count_calls callers

  count_calls-AllWords : (callers : List Origin) → AllWords C F (count_calls callers)
  count_calls-AllWords [] = tt
  count_calls-AllWords (o ∷ callers) = (tt, count_calls-AllWords callers)

  answer_all-count_calls :
      (callers : List Origin) (v : ℕ)
      → v ≤ u32_max
      → answer_all (map (runtime_request C F) (count_calls callers)) (some v)
        ≡ some (min (v + signed_count F callers) u32_max)
  answer_all-count_calls [] v h = ap some (omega arith)
  answer_all-count_calls (o ∷ callers) v h = elim (Result-cases (ensure_signed o)) [
    | inl (who, signed) ↦
        rw signed (
          answer_all-count_calls callers (min (v + 1) u32_max) (omega arith)
          ∙ ap some (omega arith))
    | inr (e, refused) ↦ rw refused (answer_all-count_calls callers v h ∙ ap some (omega arith))
  ]

module _ (C : CallCodec) (F : Frame) (O : OtherPallets C F) (Ordinary : F.Origin → Type 0)
    (A : IsApart C F O Ordinary) (M : IsCodec C) (L : IsLawful F) where
  open F use {Origin, AccountId, Storage, get_something, ensure_signed}

  -- Users can count on the chain: where the encoding of a signed `do_something` with a `u32` n and
  -- those of `cause_error` by several callers after it are shuffled with any bytes that decode to
  -- no accepted call of the template pallet, the value at the end is n and one more for each signed
  -- caller, or `u32::MAX` if that is less, whatever `u32` the value was before, or if it was unset.
  -- No origin is the root or the sudo key, and the conditions on FRAME, on the other pallets and on
  -- the codec hold.
  pub run_bytes-counts :
      (setter : Origin) {who : AccountId} (n : ℕ) (callers : List Origin)
      {others all : List (Origin × List ℕ)} (s : Storage)
      → ensure_signed setter ≡ ok who
      → n ≤ u32_max
      → Shuffle (encoded C F (set_and_count C F setter n callers)) others all
      → AllRefused (bytes_request C F) others
      → AllOrdinary C F Ordinary all
      → InRange (get_something s)
      → get_something (run_bytes C F O all s) ≡ some (min (n + signed_count F callers) u32_max)
  run_bytes-counts setter n callers s signed word p refuses os h =
      run_bytes-Shuffle C F O Ordinary A L s p refuses os h
      ∙ run_bytes-encoded C F O Ordinary A M L (set_and_count C F setter n callers) s
          (word, count_calls-AllWords C F callers) (Ordinary-Shuffle C F O Ordinary A L p os) h
      ∙ rw signed (answer_all-count_calls C F callers n word)
