-- ===== src/Template/Weights/Example.antt =====
-- Weights over which the theorems are applied.
use nexusguild.Base.{ℕ, ◌+◌, ◌*◌, min, refl}
use nexusguild.Base.Words.{u64_max}
use nexusguild.Template.Weights.{WeightApi, IsLawful}

-- Weights of two parts, and database operations at the cost of RocksDB.
abbrev pub weights : WeightApi
weights = record {
  Weight = ℕ × ℕ;
  from_parts = λ a b. (a, b);
  saturating_add = λ (a, b) (c, d). (min (a + c) u64_max, min (b + d) u64_max);
  ref_time = λ (a, b). a;
  proof_size = λ (a, b). b;
  RuntimeDbWeight = ℕ × ℕ;
  reads = λ (r, w) n. (min (r * n) u64_max, 0);
  writes = λ (r, w) n. (min (w * n) u64_max, 0);
  read_cost = λ (r, w). r;
  write_cost = λ (r, w). w;
  rocks_db_weight = (25_000_000, 100_000_000);
}

pub weights-IsLawful : IsLawful weights
weights-IsLawful = record {
  ref_time-from_parts = λ a b. refl;
  proof_size-from_parts = λ a b. refl;
  ref_time-saturating_add = λ v w. refl;
  proof_size-saturating_add = λ v w. refl;
  ref_time-reads = λ d n. refl;
  ref_time-writes = λ d n. refl;
  proof_size-reads = λ d n. refl;
  proof_size-writes = λ d n. refl;
}
