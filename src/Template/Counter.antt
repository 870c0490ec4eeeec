-- ===== src/Template/Counter.antt =====
-- pallets/template/src/lib.rs: the storage item `Something` as a saturating counter that may be
-- unset, and the calls as requests to it.
use nexusguild.Base.{
  ℕ, zero, suc, ◌+◌, ◌≤◌, ◌≡◌, refl, ◌∙◌, ap, min, Option, none, some, Result, ok, err, List, [],
  ◌∷◌, map, replicate, arith,
}
use nexusguild.Base.Words.{u32_max}
use nexusguild.Template.Frame.{Frame, IsLawful}
use nexusguild.Template.Dispatch.{Call, do_something, cause_error, dispatch, dispatch_all}

-- What a call asks of the counter.
pub data Request : Type 0 where
  refused : Request
  set_to : ℕ → Request
  count_up : Request

-- The counter never leaves the range of `u32`, and counting up an unset counter does nothing.
abbrev pub answer : Request → Option ℕ → Option ℕ
answer refused counter = counter
answer (set_to n) counter = some n
answer count_up none = none
answer count_up (some n) = some (min (n + 1) u32_max)

abbrev pub answer_all : List Request → Option ℕ → Option ℕ
answer_all [] counter = counter
answer_all (r ∷ rs) counter = answer_all rs (answer r counter)

-- A stored value is a `u32`.
abbrev pub InRange : Option ℕ → Type 0
InRange none = Unit
InRange (some n) = n ≤ u32_max

-- The argument of a call is a `u32`.
abbrev pub HasU32 : Call → Type 0
HasU32 (do_something n) = n ≤ u32_max
HasU32 cause_error = Unit

module _ (F : Frame) where
  abbrev pub request_of : {A : Type 0} → Result F.DispatchError A → Call → Request
  request_of (err e) call = refused
  request_of (ok who) (do_something n) = set_to n
  request_of (ok who) cause_error = count_up

  -- An origin that is not signed is refused.
  abbrev pub request : F.Origin × Call → Request
  request (origin, call) = request_of (F.ensure_signed origin) call

  abbrev pub AllU32 : List (F.Origin × Call) → Type 0
  AllU32 [] = Unit
  AllU32 ((origin, call) ∷ history) = HasU32 call × AllU32 history

module _ (F : Frame) (L : IsLawful F) where
  open F use {Origin, Storage, get_something, ensure_signed}

  -- One call does to the stored value what its request does to the counter.
  pub get_something-dispatch :
      (call : Call) (origin : Origin) (s : Storage)
      → InRange (get_something s)
      → get_something (dispatch F call origin s).1
        ≡ answer (request F (origin, call)) (get_something s)
  unfolding dispatch
  get_something-dispatch call origin s h = grind (arith, L.get-put, L.get-deposit)

  request-InRange :
      (call : Call) (origin : Origin) (c : Option ℕ)
      → HasU32 call
      → InRange c
      → InRange (answer (request F (origin, call)) c)
  request-InRange (do_something n) origin none u h = ground arith
  request-InRange (do_something n) origin (some m) u h = ground arith
  request-InRange cause_error origin none u h = ground arith
  request-InRange cause_error origin (some m) u h = ground arith

  -- Whatever calls are made, with whatever origins, and whether they succeed or not, a storage in
  -- which the value of `Something` is a `u32` or unset is taken to one of the same kind.
  pub dispatch-InRange :
      (call : Call) (origin : Origin) (s : Storage)
      → HasU32 call
      → InRange (get_something s)
      → InRange (get_something (dispatch F call origin s).1)
  dispatch-InRange call origin s u h =
      rw (get_something-dispatch call origin s h)
        (request-InRange call origin (get_something s) u h)

  -- From a storage in which the value is a `u32` or unset, the value after any history of calls
  -- with `u32` arguments is the one that the saturating counter has after their requests, and it is
  -- again a `u32` or unset.
  pub dispatch_all-refines :
      (history : List (Origin × Call)) (s : Storage)
      → AllU32 F history
      → InRange (get_something s)
      → (get_something (dispatch_all F history s).1
          ≡ answer_all (map (request F) history) (get_something s))
        × InRange (get_something (dispatch_all F history s).1)
  unfolding dispatch_all
  dispatch_all-refines [] s u h = (refl, h)
  dispatch_all-refines ((origin, call) ∷ history) s u h =
      let (e, r) =
        dispatch_all-refines history (dispatch F call origin s).1 u.1
          (dispatch-InRange call origin s u.0 h) in
      (e ∙ ap (answer_all (map (request F) history)) (get_something-dispatch call origin s h), r)

-- Counting up n times from v adds n, up to the greatest `u32`.
answer_all-count_up :
    (n v : ℕ)
    → v ≤ u32_max
    → answer_all (replicate n count_up) (some v) ≡ some (min (v + n) u32_max)
answer_all-count_up zero v h = ground arith
answer_all-count_up (suc n) v h =
    answer_all-count_up n (min (v + 1) u32_max) (omega arith) ∙ ap some (omega arith)

-- An unset counter stays unset, however often it is asked to count up.
answer_all-count_up_unset : (n : ℕ) → answer_all (replicate n count_up) none ≡ none
answer_all-count_up_unset zero = refl
answer_all-count_up_unset (suc n) = answer_all-count_up_unset n
