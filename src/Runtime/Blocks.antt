-- ===== src/Runtime/Blocks.antt =====
-- runtime/src/configs/mod.rs: the weight of a block, and the room that it gives to the calls of the
-- template pallet.
use nexusguild.Base.{ℕ, ◌+◌, ◌*◌, ◌/◌, ◌%◌, ◌≤◌, ◌≡◌, List, [], ◌∷◌, map, sum, arith}
use nexusguild.Base.Words.{u64_max}
use nexusguild.Template.Dispatch.{Call, do_something, cause_error}
use nexusguild.Runtime.Config.{system_config}
use nexusguild.Template.Weights.{WeightApi, IsLawful, substrate_weight, call_weight}

-- `Perbill`, `BlockWeights` and the constant of `frame_support::weights`.
pub record BlockApi (W : WeightApi) : Type 1 where
  pub Perbill : Type 0
  pub from_percent : ℕ → Perbill
  pub BlockWeights : Type 0
  pub with_sensible_defaults : W.Weight → Perbill → BlockWeights
  pub weight_ref_time_per_second : ℕ
  pub max_normal : BlockWeights → W.Weight
  pub max_block : BlockWeights → W.Weight
  pub BlockLength : Type 0
  pub max_with_normal_ratio : ℕ → Perbill → BlockLength
  pub length_normal : BlockLength → ℕ

-- The expected weight is the most that a block may weigh, and normal calls may take the given share
-- of it, up to the whole and where it comes out even, and a second is 10^12 units.
pub record IsBlockApi (W : WeightApi) (A : BlockApi W) : Type 0 where
  pub max_normal-defaults :
      (w : W.Weight) (percent : ℕ)
      → percent ≤ 100
      → W.ref_time w * percent % 100 ≡ 0
      → W.ref_time (A.max_normal (A.with_sensible_defaults w (A.from_percent percent)))
        ≡ W.ref_time w * percent / 100
  pub max_block-defaults :
      (w : W.Weight) (p : A.Perbill) → A.max_block (A.with_sensible_defaults w p) ≡ w
  pub length_normal-ratio :
      (max percent : ℕ)
      → percent ≤ 100
      → max * percent % 100 ≡ 0
      → A.length_normal (A.max_with_normal_ratio max (A.from_percent percent)) ≡ max * percent / 100
  pub second : A.weight_ref_time_per_second ≡ 1_000_000_000_000

module _ (W : WeightApi) (A : BlockApi W) where
  unfoldable pub normal_dispatch_ratio : A.Perbill
  normal_dispatch_ratio = A.from_percent 75

  unfoldable pub runtime_block_weights : A.BlockWeights
  unfolding normal_dispatch_ratio
  runtime_block_weights =
      A.with_sensible_defaults (W.from_parts (2 * A.weight_ref_time_per_second) u64_max)
        normal_dispatch_ratio

  -- In bytes.
  unfoldable pub runtime_block_length : A.BlockLength
  unfolding normal_dispatch_ratio
  runtime_block_length =
      A.max_with_normal_ratio system_config.block_length_max normal_dispatch_ratio

-- The execution time that a list of calls is charged.
abbrev pub charged : (W : WeightApi) → W.RuntimeDbWeight → List Call → ℕ
charged W db calls =
    sum (map (λ call. W.ref_time (call_weight W (substrate_weight W db) call)) calls)

module _ (W : WeightApi) (L : IsLawful W) (db : W.RuntimeDbWeight) where
  open W use {ref_time, from_parts, saturating_add, reads, writes}

  pub call_weight-le :
      W.read_cost db ≤ 25_000_000
      → W.write_cost db ≤ 100_000_000
      → (call : Call) → ref_time (call_weight W (substrate_weight W db) call) ≤ 131_000_000
  unfolding call_weight substrate_weight
  call_weight-le r w (do_something n) = omega (
    arith,
    L.ref_time-saturating_add (from_parts 9_000_000 0) (writes db 1),
    L.ref_time-from_parts 9_000_000 0,
    L.ref_time-writes db 1,
  )
  call_weight-le r w cause_error = omega (
    arith,
    L.ref_time-saturating_add (saturating_add (from_parts 6_000_000 1489) (reads db 1))
        (writes db 1),
    L.ref_time-saturating_add (from_parts 6_000_000 1489) (reads db 1),
    L.ref_time-from_parts 6_000_000 1489,
    L.ref_time-reads db 1,
    L.ref_time-writes db 1,
  )

-- The execution time that extrinsics of a call, a length and a weight of their extensions take from
-- a block: each is charged the base weight, that of its extensions, and that of its call.
abbrev pub block_time :
    (W : WeightApi) → W.RuntimeDbWeight → W.Weight → List (Call × ℕ × W.Weight) → ℕ
block_time W db base [] = 0
block_time W db base ((call, bytes, extensions) ∷ extrinsics) =
    W.ref_time base
    + W.ref_time extensions
    + W.ref_time (call_weight W (substrate_weight W db) call)
    + block_time W db base extrinsics

abbrev pub block_bytes : {A : Type 0} → List (Call × ℕ × A) → ℕ
block_bytes [] = 0
block_bytes ((call, bytes, extensions) ∷ extrinsics) = bytes + block_bytes extrinsics

-- At most 786 bytes, and extensions that with the base weight take at most 169_000_000 units.
abbrev pub IsModest : (W : WeightApi) → W.Weight → Call × ℕ × W.Weight → Type 0
IsModest W base (call, bytes, extensions) =
    (bytes ≤ 786) × (W.ref_time base + W.ref_time extensions ≤ 169_000_000)
