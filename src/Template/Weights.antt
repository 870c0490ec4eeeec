-- ===== src/Template/Weights.antt =====
-- pallets/template/src/weights.rs: the weights that the calls are charged.
use nexusguild.Base.{ℕ, ◌+◌, ◌*◌, ◌≤◌, ◌≡◌, min, arith, refl}
use nexusguild.Base.Words.{u64_max}
use nexusguild.Template.Dispatch.{Call, do_something, cause_error}
pub mod Example
pub mod Metered

-- What `frame_support::weights` provides: weights of two components, and the weight of database
-- operations.
pub record WeightApi : Type 1 where
  pub Weight : Type 0
  pub from_parts : ℕ → ℕ → Weight
  pub saturating_add : Weight → Weight → Weight
  pub ref_time : Weight → ℕ
  pub proof_size : Weight → ℕ
  pub RuntimeDbWeight : Type 0
  pub reads : RuntimeDbWeight → ℕ → Weight
  pub writes : RuntimeDbWeight → ℕ → Weight
  pub read_cost : RuntimeDbWeight → ℕ
  pub write_cost : RuntimeDbWeight → ℕ
  pub rocks_db_weight : RuntimeDbWeight

-- The documented behaviour: the parts are those given, addition saturates at `u64::MAX` in both
-- components, and n database operations take n times the cost of one, which saturates too.
pub record IsLawful (W : WeightApi) : Type 0 where
  pub ref_time-from_parts : (a b : ℕ) → W.ref_time (W.from_parts a b) ≡ a
  pub proof_size-from_parts : (a b : ℕ) → W.proof_size (W.from_parts a b) ≡ b
  pub ref_time-saturating_add :
      (v w : W.Weight)
      → W.ref_time (W.saturating_add v w) ≡ min (W.ref_time v + W.ref_time w) u64_max
  pub proof_size-saturating_add :
      (v w : W.Weight)
      → W.proof_size (W.saturating_add v w) ≡ min (W.proof_size v + W.proof_size w) u64_max
  pub ref_time-reads :
      (d : W.RuntimeDbWeight) (n : ℕ) → W.ref_time (W.reads d n) ≡ min (W.read_cost d * n) u64_max
  pub ref_time-writes :
      (d : W.RuntimeDbWeight) (n : ℕ) → W.ref_time (W.writes d n) ≡ min (W.write_cost d * n) u64_max
  pub proof_size-reads : (d : W.RuntimeDbWeight) (n : ℕ) → W.proof_size (W.reads d n) ≡ 0
  pub proof_size-writes : (d : W.RuntimeDbWeight) (n : ℕ) → W.proof_size (W.writes d n) ≡ 0

module _ (W : WeightApi) where
  open W use {Weight, RuntimeDbWeight, from_parts, saturating_add, reads, writes, rocks_db_weight}

  -- The trait `WeightInfo`.
  pub record WeightInfo : Type 0 where
    pub do_something_weight : Weight
    pub cause_error_weight : Weight

  -- `SubstrateWeight<T>`, where `T::DbWeight::get()` is the argument.
  unfoldable pub substrate_weight : RuntimeDbWeight → WeightInfo
  substrate_weight db = record {
    do_something_weight = saturating_add (from_parts 9_000_000 0) (writes db 1);
    cause_error_weight =
        saturating_add (saturating_add (from_parts 6_000_000 1489) (reads db 1)) (writes db 1);
  }

  -- The implementation for `()`.
  unfoldable pub unit_weight : WeightInfo
  unit_weight = record {
    do_something_weight = saturating_add (from_parts 9_000_000 0) (writes rocks_db_weight 1);
    cause_error_weight =
        saturating_add (saturating_add (from_parts 6_000_000 1489) (reads rocks_db_weight 1))
          (writes rocks_db_weight 1);
  }

  -- The attribute `weight` of each call.
  unfoldable pub call_weight : WeightInfo → Call → Weight
  call_weight info (do_something something) = info.do_something_weight
  call_weight info cause_error = info.cause_error_weight
