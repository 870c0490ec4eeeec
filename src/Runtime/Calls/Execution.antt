-- ===== src/Runtime/Calls/Execution.antt =====
-- runtime/src/lib.rs: a call of the runtime, given as bytes, is handed to its pallet.
use nexusguild.Base.{
  ℕ, ◌≤◌, ◌≡◌, refl, Bool, true, false, if◌then◌else◌, ◌==◌, Option, none, some, Result, List, [],
  ◌∷◌,
}
use mathlib.Core.Option
use nexusguild.Base.Words.{u32_max}
use nexusguild.Template.Frame.{Frame, IsLawful}
use nexusguild.Template.Dispatch.{do_something, cause_error, call_index, Dispatched, dispatch}
use nexusguild.Template.Counter.{InRange, HasU32}
use nexusguild.Template.Machine.{
  Reach, here, next, called, elsewhere, Reach-trans, HasValue, Reach-kept,
}
use nexusguild.Runtime.Calls.{
  Pallet, template, pallet_of_index, CallCodec, RuntimeCall, runtime_call, decode_call,
  decode_call_of, decode_variant, decode_runtime_call,
}
use nexusguild.Runtime.Calls.RoundTrip.{HasWords}

abbrev pub Holds : {A : Type 0} → (A → Type 0) → Option A → Type 0
Holds P none = Unit
Holds P (some a) = P a

Holds-map :
    {A B : Type 0} (P : B → Type 0) (f : A → B) {Q : A → Type 0} (r : Option A)
    → ((a : A) → Q a → P (f a))
    → Holds Q r
    → Holds P (Option.map f r)
Holds-map P f none g h = tt
Holds-map P f (some a) g h = g a h

Holds-if :
    {A : Type 0} (P : A → Type 0) (b : Bool) (x y : Option A)
    → Holds P x
    → Holds P y
    → Holds P (if b then x else y)
Holds-if P true x y h k = h
Holds-if P false x y h k = k

any : {A : Type 0} (r : Option A) → Holds (λ a. Unit {0}) r
any none = tt
any (some a) = tt

module _ (C : CallCodec) (F : Frame) where
  open F use {Origin, DispatchError, Storage}

  -- What the calls of the other pallets do.
  pub record OtherPallets : Type 0 where
    pub dispatch_pallet_call : (p : Pallet) → C.PalletCall p → Origin → Dispatched F (Unit {0})

  -- `Dispatchable` for `RuntimeCall`: the call is made by the pallet of its variant.
  unfoldable pub dispatch_runtime_call :
      OtherPallets → RuntimeCall C → Origin → Dispatched F (Unit {0})
  dispatch_runtime_call O (runtime_call template call) origin = dispatch F call origin
  dispatch_runtime_call O (runtime_call p call) origin = O.dispatch_pallet_call p call origin

  abbrev pub dispatch_read :
      OtherPallets
      → Option (RuntimeCall C × List ℕ)
      → Origin
      → Storage
      → Option (Result DispatchError (Unit {0})) × Storage
  dispatch_read O none origin s = (none, s)
  dispatch_read O (some (call, rest)) origin s =
      let (r, t) = dispatch_runtime_call O call origin s in (some r, t)

  -- Bytes that are no call are not dispatched.
  abbrev pub dispatch_bytes :
      OtherPallets → List ℕ → Origin → Storage → Option (Result DispatchError (Unit {0})) × Storage
  dispatch_bytes O bytes origin s = dispatch_read O (decode_runtime_call C bytes) origin s

  -- Bytes from several origins, one after the other.
  abbrev pub run_bytes : OtherPallets → List (Origin × List ℕ) → Storage → Storage
  run_bytes O [] s = s
  run_bytes O ((origin, bytes) ∷ history) s =
      run_bytes O history (dispatch_bytes O bytes origin s).1

  -- What FRAME documents of the other pallets and of the codec. A pallet has its own part of the
  -- storage, and the calls that reach past it, those of `Sudo` and the writes to raw storage of
  -- `System`, are refused unless they come from the root or the sudo key: the other origins are
  -- ordinary. The storages are those of a chain with one sudo key, which no ordinary call changes.
  -- And a number that is read as a `u32` is one.
  pub record IsApart (O : OtherPallets) (Ordinary : Origin → Type 0) : Type 0 where
    pub left :
        (p : Pallet) (call : C.PalletCall p) (origin : Origin) (s : Storage)
        → Ordinary origin
        → F.get_something (O.dispatch_pallet_call p call origin s).1 ≡ F.get_something s
    pub words : (bytes : List ℕ) → Holds (λ (n, rest). n ≤ u32_max) (C.decode_u32 bytes)

  -- All origins of a history are ordinary.
  abbrev pub AllOrdinary : {A : Type 0} → (Origin → Type 0) → List (Origin × A) → Type 0
  AllOrdinary Ordinary [] = Unit
  AllOrdinary Ordinary ((origin, a) ∷ history) = Ordinary origin × AllOrdinary Ordinary history

module _ (C : CallCodec) (F : Frame) (O : OtherPallets C F) (Ordinary : F.Origin → Type 0)
    (A : IsApart C F O Ordinary) where
  open F use {Origin, Storage, get_something}

  decode_call-HasU32 : (bytes : List ℕ) → Holds (λ (call, rest). HasU32 call) (decode_call C bytes)
  unfolding decode_call
  decode_call-HasU32 [] = tt
  decode_call-HasU32 (b ∷ bytes) =
      Holds-if _ (b == call_index (do_something 0)) _ _
        (Holds-map _ _ (C.decode_u32 bytes) (λ (n, rest) h. h) (A.words bytes))
        (Holds-if _ (b == call_index cause_error) _ _ tt tt)

  decode_call_of-HasWords :
      (p : Pallet) (bytes : List ℕ)
      → Holds (λ (call, rest). HasWords C call) (decode_call_of C p bytes)
  unfolding decode_call_of
  decode_call_of-HasWords template bytes =
      Holds-map _ _ (decode_call C bytes) (λ (call, rest) h. h) (decode_call-HasU32 bytes)
  decode_call_of-HasWords p bytes =
      Holds-map _ _ (C.decode_pallet_call p bytes) (λ (call, rest) h. tt)
        (any (C.decode_pallet_call p bytes))

  decode_variant-HasWords :
      (p : Option Pallet) (bytes : List ℕ)
      → Holds (λ (call, rest). HasWords C call) (decode_variant C p bytes)
  unfolding decode_variant
  decode_variant-HasWords none bytes = tt
  decode_variant-HasWords (some p) bytes = decode_call_of-HasWords p bytes

  pub decode_runtime_call-HasWords :
      (bytes : List ℕ) → Holds (λ (call, rest). HasWords C call) (decode_runtime_call C bytes)
  unfolding decode_runtime_call
  decode_runtime_call-HasWords [] = tt
  decode_runtime_call-HasWords (b ∷ bytes) = decode_variant-HasWords (pallet_of_index b) bytes

  dispatch_runtime_call-Reach :
      (call : RuntimeCall C) (origin : Origin) (s : Storage)
      → HasWords C call
      → Ordinary origin
      → Reach F s (dispatch_runtime_call C F O call origin s).1
  unfolding dispatch_runtime_call
  dispatch_runtime_call-Reach (runtime_call template call) origin s h o =
      next here (called call origin h refl)
  dispatch_runtime_call-Reach (runtime_call p call) origin s h o =
      next here (elsewhere (A.left p call origin s o))

  dispatch_read-Reach :
      (r : Option (RuntimeCall C × List ℕ)) (origin : Origin) (s : Storage)
      → Holds (λ (call, rest). HasWords C call) r
      → Ordinary origin
      → Reach F s (dispatch_read C F O r origin s).1
  dispatch_read-Reach none origin s h o = here
  dispatch_read-Reach (some (call, rest)) origin s h o =
      dispatch_runtime_call-Reach call origin s h o

  run_bytes-Reach :
      (history : List (Origin × List ℕ)) (s : Storage)
      → AllOrdinary C F Ordinary history
      → Reach F s (run_bytes C F O history s)
  run_bytes-Reach [] s o = here
  run_bytes-Reach ((origin, bytes) ∷ history) s (o, os) =
      Reach-trans F
        (dispatch_read-Reach (decode_runtime_call C bytes) origin s
          (decode_runtime_call-HasWords bytes) o)
        (run_bytes-Reach history (dispatch_bytes C F O bytes origin s).1 os)

  -- Whatever bytes are given as calls, by any origins but the root and the sudo key, and whether
  -- they decode or not: the value of `Something` stays a `u32` or unset, and once it is set it
  -- stays set. The conditions are that FRAME keeps the storage items apart, that the calls of the
  -- other pallets leave `Something` alone for these origins, and that what is read as a `u32` is
  -- one.
  pub run_bytes-kept :
      IsLawful F
      → (history : List (Origin × List ℕ)) (s : Storage) → AllOrdinary C F Ordinary history
      → InRange (get_something s)
      → InRange (get_something (run_bytes C F O history s))
        × (HasValue (get_something s) → HasValue (get_something (run_bytes C F O history s)))
  run_bytes-kept L history s o h = Reach-kept F L h (run_bytes-Reach history s o)
