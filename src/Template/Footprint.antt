-- ===== src/Template/Footprint.antt =====
-- pallets/template/src/lib.rs: what the calls leave alone.
use nexusguild.Base.{ℕ, ◌≡◌, arith}
use nexusguild.Template.Frame.{Frame}
use nexusguild.Template.Dispatch.{Call, dispatch}

module _ (F : Frame) {A : Type 0} (view : F.Storage → A) where
  open F use {Origin, RuntimeEvent, Storage}

  -- A call of the pallet puts `Something` and deposits events, and does nothing else to the
  -- storage.
  pub view-dispatch :
      ((n : ℕ) (s : Storage) → view (F.put_something n s) ≡ view s)
      → ((e : RuntimeEvent) (s : Storage) → view (F.system_deposit_event e s) ≡ view s)
      → (call : Call) (origin : Origin) (s : Storage) → view (dispatch F call origin s).1 ≡ view s
  unfolding dispatch
  view-dispatch put deposit call origin s = grind (arith, put, deposit)
