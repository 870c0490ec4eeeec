-- ===== src/Template/Config.antt =====
-- pallets/template/src/lib.rs: the configuration trait of the pallet.
use nexusguild.Template.Frame.{Event}
use nexusguild.Template.Weights.{WeightApi, WeightInfo}

-- `Config`: the event of the runtime, which is made from those of the pallet, and the weights.
pub record Config (W : WeightApi) (AccountId : Type 0) : Type 1 where
  pub RuntimeEvent : Type 0
  pub from_event : Event AccountId → RuntimeEvent
  pub weight_info : WeightInfo W
