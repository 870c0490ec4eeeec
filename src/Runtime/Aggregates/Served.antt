-- ===== src/Runtime/Aggregates/Served.antt =====
-- runtime/src/lib.rs with pallets/template/src/lib.rs: bytes that are given as calls to the
-- runtime, against the contract of the template pallet.
use nexusguild.Base.{
  ℕ, ◌≡◌, ◌≢◌, refl, ◌∙◌, sym, ap, Option, none, some, Result, List, [], ◌∷◌, ◌++◌, map,
}
use nexusguild.Template.Contract.{Wish, announcements, serve, result_of, dispatch-reply}
use nexusguild.Runtime.Calls.{template, CallCodec, RuntimeCall, runtime_call, decode_runtime_call}
use nexusguild.Runtime.Calls.Execution.{
  OtherPallets, IsApart, AllOrdinary, dispatch_runtime_call, dispatch_read, dispatch_bytes,
  run_bytes,
}
use nexusguild.Runtime.Aggregates.{SystemApi, IsSystem, runtime_frame}
use nexusguild.Runtime.Aggregates.Laws.{runtime_frame-IsLawful}
use nexusguild.Runtime.Aggregates.Log.{
  stored_in, wish_called, wish_read, wishes, LogsApart, run_bytes-stored_events,
}

module _ (S : SystemApi) (C : CallCodec) (O : OtherPallets C (runtime_frame S)) where
  open S use {Origin, Storage, DispatchError}

  -- The result of a call of the template pallet.
  abbrev pub result_called :
      RuntimeCall C → Result DispatchError (Unit {0}) → List (Result DispatchError (Unit {0}))
  result_called (runtime_call template call) r = r ∷ []
  result_called (runtime_call p call) r = []

  abbrev pub result_read :
      Option (RuntimeCall C × List ℕ)
      → Option (Result DispatchError (Unit {0}))
      → List (Result DispatchError (Unit {0}))
  result_read (some (call, rest)) (some r) = result_called call r
  result_read read result = []

  -- The results of the calls of the template pallet, in the order of the bytes.
  abbrev pub results : List (Origin × List ℕ) → Storage → List (Result DispatchError (Unit {0}))
  results [] s = []
  results ((origin, bytes) ∷ history) s =
      let (r, t) = dispatch_bytes C (runtime_frame S) O bytes origin s in
      result_read (decode_runtime_call C bytes) r ++ results history t

module _ (S : SystemApi) (L : IsSystem S) (C : CallCodec) (O : OtherPallets C (runtime_frame S))
    (Ordinary : S.Origin → Type 0) (A : IsApart C (runtime_frame S) O Ordinary) where
  open S use {Origin, Storage, DispatchError, get_something}

  -- A step answers its wishes, and leaves the value from which the others are served.
  abbrev Serves :
      List (Wish S.AccountId DispatchError)
      → List (Result DispatchError (Unit {0}))
      → Storage
      → Storage
      → Type 0
  Serves ws rs s t =
      (more : List (Wish S.AccountId DispatchError))
      → let (replies, value) = serve more (get_something t) in
        let (all, last) = serve (ws ++ more) (get_something s) in
        (map (result_of (runtime_frame S)) all ≡ rs ++ map (result_of (runtime_frame S)) replies)
        × (last ≡ value)

  call-Serves :
      (call : RuntimeCall C) (origin : Origin) (s : Storage)
      → Ordinary origin
      → let (r, t) = dispatch_runtime_call C (runtime_frame S) O call origin s in
        Serves (wish_called S origin call) (result_called S C O call r) s t
  unfolding dispatch_runtime_call
  call-Serves (runtime_call template call) origin s o more =
      let (said, value) =
        dispatch-reply (runtime_frame S) (runtime_frame-IsLawful S L) call origin s in
      rw (said, value) (refl, refl)
  call-Serves (runtime_call p call) origin s o more = rw (A.left p call origin s o) (refl, refl)

  read-Serves :
      (read : Option (RuntimeCall C × List ℕ)) (origin : Origin) (s : Storage)
      → Ordinary origin
      → let (r, t) = dispatch_read C (runtime_frame S) O read origin s in
        Serves (wish_read S origin read) (result_read S C O read r) s t
  read-Serves none origin s o more = (refl, refl)
  read-Serves (some (call, rest)) origin s o more = call-Serves call origin s o more

  run_bytes-replies :
      (history : List (Origin × List ℕ)) (s : Storage)
      → AllOrdinary C (runtime_frame S) Ordinary history
      → let (replies, value) = serve (wishes S C history) (get_something s) in
        (results S C O history s ≡ map (result_of (runtime_frame S)) replies)
        × (get_something (run_bytes C (runtime_frame S) O history s) ≡ value)
  run_bytes-replies [] s os = (refl, refl)
  run_bytes-replies ((origin, bytes) ∷ history) s (o, os) =
      let (r, next) = dispatch_bytes C (runtime_frame S) O bytes origin s in
      let head = result_read S C O (decode_runtime_call C bytes) r in
      let (said, value) = run_bytes-replies history next os in
      let (all, last) = read-Serves (decode_runtime_call C bytes) origin s o (wishes S C history) in
      (ap (λ l. head ++ l) said ∙ sym all, value ∙ sym last)

module _ (S : SystemApi) (L : IsSystem S) (C : CallCodec) (O : OtherPallets C (runtime_frame S))
    (Ordinary : S.Origin → Type 0) (A : IsApart C (runtime_frame S) O Ordinary)
    (E : LogsApart S C O Ordinary) where
  open S use {Origin, Storage, get_something}

  -- The runtime keeps the contract of the template pallet with whoever submits bytes: whatever
  -- bytes are given as calls past the genesis block, by any origins but the root and the sudo key,
  -- the results of the template calls among them are the replies of the contract to the wishes that
  -- those calls express, one for one; the value is the one that the contract is left with; and the
  -- events of the template pallet in the log grow by the announcements of the wishes, in their
  -- order. The conditions are those on the system, and that ordinary calls of the other pallets
  -- leave `Something` alone, log no event of the template pallet and stay in the block, and that
  -- what is read as a `u32` is one.
  pub run_bytes-serve :
      (history : List (Origin × List ℕ)) (s : Storage)
      → AllOrdinary C (runtime_frame S) Ordinary history
      → S.block_number s ≢ 0
      → let ws = wishes S C history in
        let (replies, value) = serve ws (get_something s) in
        let t = run_bytes C (runtime_frame S) O history s in
        (results S C O history s ≡ map (result_of (runtime_frame S)) replies)
        × (get_something t ≡ value)
        × (stored_in S t ≡ stored_in S s ++ announcements ws)
  run_bytes-serve history s os later =
      let (said, value) = run_bytes-replies S L C O Ordinary A history s os in
      (said, value, run_bytes-stored_events S L C O Ordinary E history s os later)
