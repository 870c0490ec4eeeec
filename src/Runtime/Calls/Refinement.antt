-- ===== src/Runtime/Calls/Refinement.antt =====
-- runtime/src/lib.rs with pallets/template/src/lib.rs: encoded calls of the runtime against the
-- counter of the template pallet.
use nexusguild.Base.{
  ℕ, ◌≡◌, Option, none, some, ◌++◌, refl, ◌∙◌, sym, ap, List, [], ◌∷◌, append-nil, map,
}
use nexusguild.Template.Frame.{Frame, IsLawful}
use nexusguild.Template.Counter.{
  Request, refused, answer, answer_all, request, InRange, get_something-dispatch, dispatch-InRange,
}
use nexusguild.Template.Machine.{HasValue}
use nexusguild.Runtime.Calls.Execution.{run_bytes-kept}
use nexusguild.Runtime.Calls.{
  template, decode_runtime_call, CallCodec, RuntimeCall, runtime_call, encode_runtime_call,
}
use nexusguild.Runtime.Calls.RoundTrip.{IsCodec, HasWords, decode-encode_runtime_call}
use nexusguild.Runtime.Calls.Execution.{
  Holds, OtherPallets, IsApart, AllOrdinary, dispatch_runtime_call, dispatch_read, dispatch_bytes,
  run_bytes, decode_runtime_call-HasWords,
}

module _ (C : CallCodec) (F : Frame) where
  open F use {Origin, Storage, get_something}

  -- What a call of the runtime asks of the counter.
  abbrev pub runtime_request : Origin × RuntimeCall C → Request
  runtime_request (origin, runtime_call template call) = request F (origin, call)
  runtime_request (origin, runtime_call p call) = refused

  abbrev pub read_request : Origin → Option (RuntimeCall C × List ℕ) → Request
  read_request origin none = refused
  read_request origin (some (call, rest)) = runtime_request (origin, call)

  -- What bytes ask of it: those of a template call what the call asks, any others nothing.
  abbrev pub bytes_request : Origin × List ℕ → Request
  bytes_request (origin, bytes) = read_request origin (decode_runtime_call C bytes)

module _ (C : CallCodec) (F : Frame) (O : OtherPallets C F) (Ordinary : F.Origin → Type 0)
    (A : IsApart C F O Ordinary) (L : IsLawful F) where
  open F use {Origin, Storage, get_something}

  abbrev Answers : Request → Storage → Storage → Type 0
  Answers r s t = (get_something t ≡ answer r (get_something s)) × InRange (get_something t)

  dispatch_runtime_call-Answers :
      (call : RuntimeCall C) (origin : Origin) (s : Storage)
      → HasWords C call
      → Ordinary origin
      → InRange (get_something s)
      → Answers (runtime_request C F (origin, call)) s (dispatch_runtime_call C F O call origin s).1
  unfolding dispatch_runtime_call
  dispatch_runtime_call-Answers (runtime_call template call) origin s u o h =
      (get_something-dispatch F L call origin s h, dispatch-InRange F L call origin s u h)
  dispatch_runtime_call-Answers (runtime_call p call) origin s u o h =
      (A.left p call origin s o, rw (A.left p call origin s o) h)

  dispatch_read-Answers :
      (r : Option (RuntimeCall C × List ℕ)) (origin : Origin) (s : Storage)
      → Holds (λ (call, rest). HasWords C call) r
      → Ordinary origin
      → InRange (get_something s)
      → Answers (read_request C F origin r) s (dispatch_read C F O r origin s).1
  dispatch_read-Answers none origin s u o h = (refl, h)
  dispatch_read-Answers (some (call, rest)) origin s u o h =
      dispatch_runtime_call-Answers call origin s u o h

  run_bytes-answer_all :
      (history : List (Origin × List ℕ)) (s : Storage)
      → AllOrdinary C F Ordinary history
      → InRange (get_something s)
      → get_something (run_bytes C F O history s)
        ≡ answer_all (map (bytes_request C F) history) (get_something s)
  run_bytes-answer_all [] s os h = refl
  run_bytes-answer_all ((origin, bytes) ∷ history) s (o, os) h =
      let (e, r) =
        dispatch_read-Answers (decode_runtime_call C bytes) origin s
          (decode_runtime_call-HasWords C F O Ordinary A bytes) o h in
      run_bytes-answer_all history (dispatch_bytes C F O bytes origin s).1 os r
      ∙ ap (answer_all (map (bytes_request C F) history)) e

  -- Whatever bytes are given as calls, by any origins but the root and the sudo key: the value of
  -- `Something` at the end is the one that the saturating counter has after the requests of the
  -- template calls that the bytes decode to, and a `u32` or unset, from a storage in which it is
  -- one of these; once it is set it stays set. The conditions are that FRAME keeps the storage
  -- items apart, that the calls of the other pallets leave `Something` alone for these origins, and
  -- that what is read as a `u32` is one.
  pub run_bytes-refines :
      (history : List (Origin × List ℕ)) (s : Storage)
      → AllOrdinary C F Ordinary history
      → InRange (get_something s)
      → (get_something (run_bytes C F O history s)
          ≡ answer_all (map (bytes_request C F) history) (get_something s))
        × InRange (get_something (run_bytes C F O history s))
        × (HasValue (get_something s) → HasValue (get_something (run_bytes C F O history s)))
  run_bytes-refines history s os h =
      let (range, kept) = run_bytes-kept C F O Ordinary A L history s os h in
      (run_bytes-answer_all history s os h, range, kept)

module _ (C : CallCodec) (F : Frame) where
  abbrev pub encoded : List (F.Origin × RuntimeCall C) → List (F.Origin × List ℕ)
  encoded history = map (λ (origin, call). (origin, encode_runtime_call C call)) history

  abbrev pub AllWords : List (F.Origin × RuntimeCall C) → Type 0
  AllWords [] = Unit
  AllWords ((origin, call) ∷ history) = HasWords C call × AllWords history

module _ (C : CallCodec) (F : Frame) (M : IsCodec C) where
  -- The bytes of a call ask what the call asks, and so do any bytes that begin with them.
  pub bytes_request-encode_runtime_call :
      (call : RuntimeCall C) (rest : List ℕ) (origin : F.Origin)
      → HasWords C call
      → bytes_request C F (origin, encode_runtime_call C call ++ rest)
        ≡ runtime_request C F (origin, call)
  bytes_request-encode_runtime_call call rest origin h =
      ap (read_request C F origin) (decode-encode_runtime_call C M call rest h)

  bytes_request-encoded :
      (history : List (F.Origin × RuntimeCall C))
      → AllWords C F history
      → map (bytes_request C F) (encoded C F history) ≡ map (runtime_request C F) history
  bytes_request-encoded [] u = refl
  bytes_request-encoded ((origin, call) ∷ history) (u, us) =
      let head =
        ap (λ bytes. bytes_request C F (origin, bytes))
          (sym (append-nil (encode_runtime_call C call)))
        ∙ bytes_request-encode_runtime_call call [] origin u in
      rw (head, bytes_request-encoded history us)

module _ (C : CallCodec) (F : Frame) (O : OtherPallets C F) (Ordinary : F.Origin → Type 0)
    (A : IsApart C F O Ordinary) (M : IsCodec C) (L : IsLawful F) where
  open F use {Origin, Storage, get_something}

  -- Bytes that encode calls of the runtime, from any origins but the root and the sudo key, leave
  -- the value that the saturating counter has after the requests of the template calls among them,
  -- from a storage in which the value is a `u32` or unset. The arguments of the template calls are
  -- `u32`; beyond the conditions on FRAME, the codec reads back what it encodes.
  pub run_bytes-encoded :
      (history : List (Origin × RuntimeCall C)) (s : Storage)
      → AllWords C F history
      → AllOrdinary C F Ordinary (encoded C F history)
      → InRange (get_something s)
      → get_something (run_bytes C F O (encoded C F history) s)
        ≡ answer_all (map (runtime_request C F) history) (get_something s)
  run_bytes-encoded history s u o h =
      (run_bytes-refines C F O Ordinary A L (encoded C F history) s o h).0
      ∙ ap (λ rs. answer_all rs (get_something s)) (bytes_request-encoded C F M history u)
