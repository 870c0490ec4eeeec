-- ===== src/Runtime/Charges.antt =====
-- runtime/src/lib.rs, pallets/template/src/weights.rs and lib.rs: what a history of calls is
-- charged, and what it writes.
use native.Mathlib.Nat.{mul-le-mul_left}
use nexusguild.Base.{
  ℕ, suc, length-map, ◌+◌, ◌*◌, ◌≤◌, ◌≡◌, ◌∙◌, refl, ap, List, [], ◌∷◌, map, length, Result, ok,
  err, arith,
}
use nexusguild.Base.Words.{u64_max}
use nexusguild.Template.Frame.{Frame}
use nexusguild.Template.Dispatch.{Call, dispatch, dispatch_all}
use nexusguild.Template.Turns.{successes}
use nexusguild.Template.Weights.{WeightApi, IsLawful}
use nexusguild.Template.Weights.Metered.{metered, call_weight-ge-write}
use nexusguild.Runtime.Blocks.{charged}

module _ (F : Frame) where
  open F use {Origin, Storage, DispatchError}

  abbrev ok_count : {A : Type 0} → Result DispatchError A → ℕ
  ok_count (ok a) = 1
  ok_count (err e) = 0

  -- The meter changes nothing of a call, and counts one write if the call succeeds.
  dispatch-metered :
      (call : Call) (origin : Origin) (t : Storage × ℕ)
      → ((dispatch (metered F) call origin t).0 ≡ (dispatch F call origin t.0).0)
        × ((dispatch (metered F) call origin t).1.0 ≡ (dispatch F call origin t.0).1)
        × ((dispatch (metered F) call origin t).1.1 ≡ t.1 + ok_count (dispatch F call origin t.0).0)
  unfolding dispatch
  dispatch-metered call origin (s, k) = ground arith

  successes-cons :
      (r : Result DispatchError (Unit {0})) (rs : List (Result DispatchError (Unit {0})))
      → successes (r ∷ rs) ≡ ok_count r + successes rs
  successes-cons (ok a) rs = omega arith
  successes-cons (err e) rs = omega arith

  dispatch_all-metered :
      (history : List (Origin × Call)) (t : Storage × ℕ)
      → ((dispatch_all (metered F) history t).0 ≡ (dispatch_all F history t.0).0)
        × ((dispatch_all (metered F) history t).1.0 ≡ (dispatch_all F history t.0).1)
        × ((dispatch_all (metered F) history t).1.1
            ≡ t.1 + successes (dispatch_all F history t.0).0)
  unfolding dispatch_all
  dispatch_all-metered [] (s, k) = (refl, refl, omega arith)
  dispatch_all-metered ((origin, call) ∷ history) t =
      let (result, storage, count) = dispatch-metered call origin t in
      let (results, last, counts) =
        dispatch_all-metered history (dispatch (metered F) call origin t).1 in
      (
        rw (result, results, storage) refl,
        last ∙ ap (λ s. (dispatch_all F history s).1) storage,
        counts ∙ rw (storage, count, successes-cons (dispatch F call origin t.0).0 _) (omega arith),
      )

successes-le-length : {E A : Type 0} (rs : List (Result E A)) → successes rs ≤ length rs
successes-le-length [] = omega arith
successes-le-length (ok a ∷ rs) = omega (arith, successes-le-length rs)
successes-le-length (err e ∷ rs) = omega (arith, successes-le-length rs)

length-results :
    (F : Frame) (history : List (F.Origin × Call)) (s : F.Storage)
    → length (dispatch_all F history s).0 ≡ length history
unfolding dispatch_all
length-results F [] s = refl
length-results F ((origin, call) ∷ history) s =
    ap suc (length-results F history (dispatch F call origin s).1)

charged-ge-length :
    (W : WeightApi) (L : IsLawful W) (db : W.RuntimeDbWeight) (calls : List Call)
    → W.write_cost db ≤ u64_max
    → W.write_cost db * length calls ≤ charged W db calls
charged-ge-length W L db [] h = omega arith
charged-ge-length W L db (call ∷ calls) h =
    omega (arith, charged-ge-length W L db calls h, call_weight-ge-write W L db call)

-- A history of calls writes the value as often as calls of it succeed, and the weight that the
-- calls are charged covers these writes. The writes are counted beside the storage, which changes
-- neither the results nor the storage. The cost of a write is at most `u64::MAX`.
pub charged-covers_writes :
    (W : WeightApi) (L : IsLawful W) (db : W.RuntimeDbWeight) (F : Frame)
    (history : List (F.Origin × Call)) (s : F.Storage)
    → W.write_cost db ≤ u64_max
    → let (results, (last, writes)) = dispatch_all (metered F) history (s, 0) in
      (results ≡ (dispatch_all F history s).0)
      × (last ≡ (dispatch_all F history s).1)
      × (writes ≡ successes (dispatch_all F history s).0)
      × (W.write_cost db * writes ≤ charged W db (map (λ (origin, call). call) history))
charged-covers_writes W L db F history s h =
    let (results, last, writes) = dispatch_all-metered F history (s, 0) in
    let few : (dispatch_all (metered F) history (s, 0)).1.1
        ≤ length (map (λ (x : F.Origin × Call). x.1) history) =
      rw (writes, length-map (λ (x : F.Origin × Call). x.1) history)
        (omega
          (arith, successes-le-length (dispatch_all F history s).0, length-results F history s)) in
    (
      results,
      last,
      writes ∙ omega arith,
      omega (
        arith,
        mul-le-mul_left (W.write_cost db) few,
        charged-ge-length W L db (map (λ (x : F.Origin × Call). x.1) history) h,
      ),
    )
