-- ===== src/Template/Summary.antt =====
-- pallets/template/src/lib.rs: the value after any history in closed form.
use nexusguild.Base.{
  ℕ, ◌+◌, ◌≤◌, ◌≡◌, refl, ◌∙◌, sym, ap, min, Option, none, some, Result, ok, err, List, [], ◌∷◌,
  map, arith,
}
use nexusguild.Base.Words.{u32_max}
use nexusguild.Template.Frame.{Frame, IsLawful}
use nexusguild.Template.Dispatch.{Call, do_something, cause_error, dispatch_all}
use nexusguild.Template.Counter.{
  Request, refused, set_to, count_up, answer, answer_all, InRange, request, request_of, AllU32,
  HasU32, dispatch_all-refines,
}

-- Of a list of requests: the value that was set last, if one was, and how often the counter was
-- asked to count up since.
abbrev pub Summary : Type 0
Summary = Option ℕ × ℕ

abbrev pub add_request : Summary → Request → Summary
add_request (last, ups) refused = (last, ups)
add_request (last, ups) (set_to n) = (some n, 0)
add_request (last, ups) count_up = (last, ups + 1)

abbrev pub summary_from : Summary → List Request → Summary
summary_from summary [] = summary
summary_from summary (r ∷ rs) = summary_from (add_request summary r) rs

-- Counting up from a counter that may be unset.
abbrev pub raised : Option ℕ → ℕ → Option ℕ
raised none ups = none
raised (some n) ups = some (min (n + ups) u32_max)

-- The counter by a summary, from its value before.
abbrev pub total : Summary → Option ℕ → Option ℕ
total (some n, ups) counter = raised (some n) ups
total (none, ups) counter = raised counter ups

-- The value that a request sets is a `u32`.
abbrev pub SetsU32 : Request → Type 0
SetsU32 refused = Unit
SetsU32 (set_to n) = n ≤ u32_max
SetsU32 count_up = Unit

abbrev pub AllSetU32 : List Request → Type 0
AllSetU32 [] = Unit
AllSetU32 (r ∷ rs) = SetsU32 r × AllSetU32 rs

-- One more request is answered as the summary with it says.
answer-total :
    (summary : Summary) (r : Request) (counter : Option ℕ)
    → SetsU32 r
    → answer r (total summary counter) ≡ total (add_request summary r) counter
answer-total (some n, ups) refused counter u = refl
answer-total (none, ups) refused counter u = refl
answer-total (some n, ups) (set_to m) counter u = ap some (omega arith)
answer-total (none, ups) (set_to m) counter u = ap some (omega arith)
answer-total (some n, ups) count_up counter u = ap some (omega arith)
answer-total (none, ups) count_up none u = refl
answer-total (none, ups) count_up (some n) u = ap some (omega arith)

pub answer_all-total :
    (rs : List Request) (summary : Summary) (counter : Option ℕ)
    → AllSetU32 rs
    → answer_all rs (total summary counter) ≡ total (summary_from summary rs) counter
answer_all-total [] summary counter u = refl
answer_all-total (r ∷ rs) summary counter (u, us) =
    ap (answer_all rs) (answer-total summary r counter u)
    ∙ answer_all-total rs (add_request summary r) counter us

-- Nothing was asked yet.
total_start : (counter : Option ℕ) → InRange counter → total (none, 0) counter ≡ counter
total_start none h = refl
total_start (some n) h = ap some (omega arith)

pub answer_all-summary :
    (rs : List Request) (counter : Option ℕ)
    → AllSetU32 rs
    → InRange counter
    → answer_all rs counter ≡ total (summary_from (none, 0) rs) counter
answer_all-summary rs counter u h =
    ap (answer_all rs) (sym (total_start counter h)) ∙ answer_all-total rs (none, 0) counter u

module _ (F : Frame) where
  request_of-SetsU32 :
      {A : Type 0} (r : Result F.DispatchError A) (call : Call)
      → HasU32 call
      → SetsU32 (request_of F r call)
  request_of-SetsU32 (ok who) (do_something n) u = u
  request_of-SetsU32 (ok who) cause_error u = tt
  request_of-SetsU32 (err e) call u = tt

module _ (F : Frame) (L : IsLawful F) where
  open F use {Origin, Storage, get_something}

  requests-SetsU32 :
      (history : List (Origin × Call)) → AllU32 F history → AllSetU32 (map (request F) history)
  requests-SetsU32 [] u = tt
  requests-SetsU32 ((origin, call) ∷ history) (u, us) =
      (request_of-SetsU32 F (F.ensure_signed origin) call u, requests-SetsU32 history us)

  -- After any history of calls with `u32` arguments, from a storage in which the value is a `u32`
  -- or unset, the value is the argument of the last signed `do_something` plus the number of signed
  -- `cause_error` after it, up to `u32::MAX`; without a signed `do_something` it is the value
  -- before plus the number of signed `cause_error`, up to `u32::MAX`, or still unset.
  pub dispatch_all-total :
      (history : List (Origin × Call)) (s : Storage)
      → AllU32 F history
      → InRange (get_something s)
      → get_something (dispatch_all F history s).1
        ≡ total (summary_from (none, 0) (map (request F) history)) (get_something s)
  dispatch_all-total history s u h =
      (dispatch_all-refines F L history s u h).0
      ∙ answer_all-summary (map (request F) history) (get_something s) (requests-SetsU32 history u)
          h
