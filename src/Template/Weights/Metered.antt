-- ===== src/Template/Weights/Metered.antt =====
-- pallets/template/src/weights.rs against lib.rs: the weight charged for a call and the writes that
-- the call makes.
use nexusguild.Base.{ℕ, suc, ◌*◌, ◌≤◌, ◌≡◌, min, ok, inl, inr, ◌⊎◌, arith}
use nexusguild.Base.Words.{u64_max}
use nexusguild.Template.Frame.{Frame}
use nexusguild.Template.Dispatch.{Call, do_something, cause_error, dispatch}
use nexusguild.Template.Weights.{WeightApi, IsLawful, substrate_weight, call_weight}

-- The same FRAME, with a count of the writes to `Something` beside the storage.
abbrev pub metered : Frame → Frame
metered F = record F {
  Storage = F.Storage × ℕ;
  get_something = λ (s, writes). F.get_something s;
  put_something = λ n (s, writes). (F.put_something n s, suc writes);
  system_deposit_event = λ e (s, writes). (F.system_deposit_event e s, writes);
  events = λ (s, writes). F.events s;
  block_number = λ (s, writes). F.block_number s;
}

-- How often the call writes `Something`.
abbrev pub writes_made : (F : Frame) → Call → F.Origin → F.Storage → ℕ
writes_made F call origin s = (dispatch (metered F) call origin (s, 0)).1.1

-- A call writes the value at most once, and a call that succeeds writes it exactly once.
writes_made-le-one :
    (F : Frame) (call : Call) (origin : F.Origin) (s : F.Storage)
    → (writes_made F call origin s ≤ 1)
      × ((dispatch F call origin s).0 ≡ ok tt → writes_made F call origin s ≡ 1)
unfolding dispatch
writes_made-le-one F call origin s = ground arith

writes_made-cases :
    (F : Frame) (call : Call) (origin : F.Origin) (s : F.Storage)
    → (writes_made F call origin s ≡ 0) ⊎ (writes_made F call origin s ≡ 1)
unfolding dispatch
writes_made-cases F call origin s = ground arith

-- What the weights come to.
module _ (W : WeightApi) (L : IsLawful W) (db : W.RuntimeDbWeight) where
  open W use {ref_time, from_parts, saturating_add, reads, writes, write_cost}

  pub call_weight-ge-write :
      (call : Call)
      → min (write_cost db * 1) u64_max ≤ ref_time (call_weight W (substrate_weight W db) call)
  unfolding call_weight substrate_weight
  call_weight-ge-write (do_something n) = omega (
    arith,
    L.ref_time-saturating_add (from_parts 9_000_000 0) (writes db 1),
    L.ref_time-writes db 1,
  )
  call_weight-ge-write cause_error = omega (
    arith,
    L.ref_time-saturating_add (saturating_add (from_parts 6_000_000 1489) (reads db 1))
        (writes db 1),
    L.ref_time-writes db 1,
  )

-- The weight charged for a call covers its writes of the value, up to the greatest weight.
pub call_weight-covers_writes :
    (W : WeightApi) (L : IsLawful W) (db : W.RuntimeDbWeight) (F : Frame) (call : Call)
    (origin : F.Origin) (s : F.Storage)
    → min (W.write_cost db * writes_made F call origin s) u64_max
      ≤ W.ref_time (call_weight W (substrate_weight W db) call)
call_weight-covers_writes W L db F call origin s = elim (writes_made-cases F call origin s) [
  | inl e ↦ rw e (omega arith)
  | inr e ↦ rw e (call_weight-ge-write W L db call)
]
