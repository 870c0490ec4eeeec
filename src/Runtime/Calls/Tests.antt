-- ===== src/Runtime/Calls/Tests.antt =====
-- The round trip, with a number in four bytes and no calls but those of the template pallet.
use nexusguild.Base.{
  ◌↔◌, map, err, zero, suc, ◌<◌, ℕ, ◌%◌, ◌≡◌, refl, none, some, Option, Result, ok, List, [], ◌∷◌,
  ◌++◌, ◌+◌, arith, min,
}
use nexusguild.Base.Words.{u32_max}
use nexusguild.Template.Turns.{signed_count}
use nexusguild.Runtime.Calls.Exact.{decode_runtime_call-template_iff}
use nexusguild.Runtime.Calls.Counting.{run_bytes-counts}
use nexusguild.Template.Dispatch.{do_something, cause_error, call_index, dispatch}
use nexusguild.Template.Counter.{InRange, answer_all}
use nexusguild.Template.Machine.{HasValue}
use nexusguild.Template.Mock.{
  Origin, root, unsigned, signed, bad_origin, DispatchError, Storage, test, test-IsLawful,
  new_test_ext,
}
use nexusguild.Runtime.Calls.Interleaving.{
  done, from_left, from_right, AllRefused, run_bytes-Shuffle,
}
use nexusguild.Runtime.Calls.Refinement.{
  encoded, bytes_request, run_bytes-refines, run_bytes-encoded,
}
use nexusguild.Runtime.Calls.Execution.{OtherPallets, IsApart, dispatch_runtime_call, run_bytes}
use nexusguild.Runtime.Calls.{
  Pallet, sudo, template, pallet_index, pallet_of_index, CallCodec, RuntimeCall, decode_call,
  runtime_call, encode_call, encode_runtime_call, decode_runtime_call,
}
use nexusguild.Runtime.Calls.Example.{codec, codec-IsCodec, codec-IsCanonical, take_word-words}
use nexusguild.Runtime.Calls.RoundTrip.{IsCodec, decode-encode_runtime_call}

bytes_of_call :
    encode_runtime_call codec (runtime_call template (do_something 258))
    ≡ 7 ∷ 0 ∷ 2 ∷ 1 ∷ 0 ∷ 0 ∷ []
unfolding encode_runtime_call encode_call call_index pallet_index
bytes_of_call = refl

decode-encode_runtime_call_example :
    decode_runtime_call codec
      (encode_runtime_call codec (runtime_call template (do_something 258)) ++ 9 ∷ [])
    ≡ some (runtime_call template (do_something 258), 9 ∷ [])
decode-encode_runtime_call_example =
    decode-encode_runtime_call codec codec-IsCodec (runtime_call template (do_something 258))
      (9 ∷ []) (omega arith)

-- A pallet `Sudo` with one call, of one byte, which sets the value for the sudo key, account 0.
abbrev SudoCall : Pallet → Type 0
SudoCall sudo = ℕ
SudoCall p = ⊥

abbrev encode_sudo : (p : Pallet) → SudoCall p → List ℕ
encode_sudo sudo n = n ∷ []
encode_sudo p call = []

abbrev decode_sudo : (p : Pallet) → List ℕ → Option (SudoCall p × List ℕ)
decode_sudo sudo (n ∷ rest) = some (n, rest)
decode_sudo p bytes = none

abbrev with_sudo : CallCodec
with_sudo = record codec {
  PalletCall = SudoCall;
  encode_pallet_call = encode_sudo;
  decode_pallet_call = decode_sudo;
}

abbrev sudo_sets : ℕ → Origin → Storage → Result DispatchError (Unit {0}) × Storage
sudo_sets n (signed zero) s = dispatch test (do_something (n % 256)) (signed 0) s
sudo_sets n origin s = (err bad_origin, s)

abbrev sudo_alone :
    (p : Pallet) → SudoCall p → Origin → Storage → Result DispatchError (Unit {0}) × Storage
sudo_alone sudo n origin s = sudo_sets n origin s
sudo_alone p call origin s = (ok tt, s)

abbrev others : OtherPallets with_sudo test
others = record { dispatch_pallet_call = sudo_alone }

-- The origins but the root and the sudo key.
abbrev Ordinary : Origin → Type 0
Ordinary root = ⊥
Ordinary unsigned = Unit
Ordinary (signed who) = 0 < who

sudo_sets-Ordinary :
    (n : ℕ) (origin : Origin) (s : Storage)
    → Ordinary origin
    → (sudo_sets n origin s).1.something ≡ s.something
sudo_sets-Ordinary n root s o = refl
sudo_sets-Ordinary n unsigned s o = refl
sudo_sets-Ordinary n (signed zero) s o = absurd (omega arith)
sudo_sets-Ordinary n (signed (suc who)) s o = refl

sudo_alone-left :
    (p : Pallet) (call : SudoCall p) (origin : Origin) (s : Storage)
    → Ordinary origin
    → (sudo_alone p call origin s).1.something ≡ s.something
sudo_alone-left sudo n origin s o = sudo_sets-Ordinary n origin s o
sudo_alone-left p call origin s o = refl

others-IsApart : IsApart with_sudo test others Ordinary
others-IsApart = record { left = sudo_alone-left; words = take_word-words }

-- `do_something(258)`, a byte string that is no call, `Sudo` by another account, and `cause_error`.
abbrev history : List (Origin × List ℕ)
history =
    (signed 1, 7 ∷ 0 ∷ 2 ∷ 1 ∷ 0 ∷ 0 ∷ [])
    ∷ (signed 1, 9 ∷ [])
    ∷ (signed 3, 6 ∷ 40 ∷ [])
    ∷ (signed 2, 7 ∷ 1 ∷ [])
    ∷ []

run_of_history : (run_bytes with_sudo test others history (new_test_ext 1)).something ≡ some 259
unfolding decode_runtime_call decode_call pallet_of_index pallet_index call_index dispatch
    dispatch_runtime_call
run_of_history = refl

-- The sudo key sets the value.
run_of_sudo :
    (run_bytes with_sudo test others ((signed 0, 6 ∷ 40 ∷ []) ∷ []) (new_test_ext 1)).something
    ≡ some 40
unfolding decode_runtime_call pallet_of_index pallet_index dispatch dispatch_runtime_call
run_of_sudo = refl

run_bytes-refines_example :
    let s = run_bytes with_sudo test others history (new_test_ext 1) in
    (s.something ≡ answer_all (map (bytes_request with_sudo test) history) none)
    × InRange s.something
    × (HasValue none → HasValue s.something)
run_bytes-refines_example =
    run_bytes-refines with_sudo test others Ordinary others-IsApart test-IsLawful history
      (new_test_ext 1) (omega arith) tt

sudo_read :
    (p : Pallet) (call : SudoCall p) (rest : List ℕ)
    → decode_sudo p (encode_sudo p call ++ rest) ≡ some (call, rest)
sudo_read sudo n rest = refl
sudo_read p call rest = absurd call

with_sudo-IsCodec : IsCodec with_sudo
with_sudo-IsCodec = record {
  decode-encode_u32 = codec-IsCodec.decode-encode_u32;
  decode-encode_pallet_call = sudo_read;
}

abbrev call_history : List (Origin × RuntimeCall with_sudo)
call_history =
    (signed 1, runtime_call template (do_something 258))
    ∷ (unsigned, runtime_call template (do_something 5))
    ∷ (signed 3, runtime_call sudo 40)
    ∷ (signed 2, runtime_call template cause_error)
    ∷ []

-- The same run of the encoded calls: those of no effect on the value are between the others.
run_of_calls :
    (run_bytes with_sudo test others
      (encoded with_sudo test call_history)
      (new_test_ext 1)).something
    ≡ some 259
run_of_calls =
    run_bytes-encoded with_sudo test others Ordinary others-IsApart with_sudo-IsCodec test-IsLawful
      call_history (new_test_ext 1) (omega arith) (omega arith) tt

abbrev template_history : List (Origin × List ℕ)
template_history = (signed 1, 7 ∷ 0 ∷ 2 ∷ 1 ∷ 0 ∷ 0 ∷ []) ∷ (signed 2, 7 ∷ 1 ∷ []) ∷ []

abbrev other_history : List (Origin × List ℕ)
other_history = (signed 1, 9 ∷ []) ∷ (signed 3, 6 ∷ 40 ∷ []) ∷ []

others_ask_nothing : AllRefused (bytes_request with_sudo test) other_history
unfolding decode_runtime_call pallet_of_index pallet_index
others_ask_nothing = (refl, (refl, tt))

run_bytes-Shuffle_example :
    (run_bytes with_sudo test others history (new_test_ext 1)).something
    ≡ (run_bytes with_sudo test others template_history (new_test_ext 1)).something
run_bytes-Shuffle_example =
    run_bytes-Shuffle with_sudo test others Ordinary others-IsApart test-IsLawful (new_test_ext 1)
      (from_left (from_right (from_right (from_left done)))) others_ask_nothing (omega arith) tt

run_bytes-counts_example :
    (run_bytes with_sudo test others history (new_test_ext 1)).something
    ≡ some (min (258 + signed_count test (signed 2 ∷ [])) u32_max)
unfolding encode_runtime_call encode_call call_index pallet_index
run_bytes-counts_example =
    run_bytes-counts with_sudo test others Ordinary others-IsApart with_sudo-IsCodec test-IsLawful
      (signed 1) 258 (signed 2 ∷ []) (new_test_ext 1) refl (omega arith)
      (from_left (from_right (from_right (from_left done)))) others_ask_nothing (omega arith) tt

decode_runtime_call-template_iff_example :
    (decode_runtime_call codec (7 ∷ 0 ∷ 2 ∷ 1 ∷ 0 ∷ 0 ∷ 9 ∷ [])
      ≡ some (runtime_call template (do_something 258), 9 ∷ []))
    ↔ (7 ∷ 0 ∷ 2 ∷ 1 ∷ 0 ∷ 0 ∷ 9 ∷ []
        ≡ encode_runtime_call codec (runtime_call template (do_something 258)) ++ 9 ∷ [])
decode_runtime_call-template_iff_example =
    decode_runtime_call-template_iff codec codec-IsCodec codec-IsCanonical
      (7 ∷ 0 ∷ 2 ∷ 1 ∷ 0 ∷ 0 ∷ 9 ∷ []) (do_something 258) (9 ∷ []) (omega arith) (omega arith)
