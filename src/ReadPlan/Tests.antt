-- ===== src/ReadPlan/Tests.antt =====
-- The plan of a small controller: two adjacent words, a 32-bit value behind a gap, and an input.
use Prim.Native.Nat.{Ordering}
use Prim.Native.String.{String}
use fieldstream.Common.{
  sort_by, ℕ, ◌≤◌, ◌≡◌, refl, none, some, List, [], ◌∷◌, arith, length, All, Any,
}
use fieldstream.Contracts.{RegisterType, holding, input, uint16, uint32, int16}
use fieldstream.ReadPlan.{
  BlockId, declared_id, merged_id, naive_id, BlockSource, from_declared, from_merged, from_naive,
  merge_entries, naive_blocks, declared_blocks, wasted_in_block, entry_fits_block, DeviceProfile,
  ReadPlan, ReadPlanOptions, Collation, PlanBlock, merged, naive, built, build_device_read_plan,
  max_modbus_block, list_plan_entries, all_entries,
}
use fieldstream.ReadPlan.Declared.{Covers, Fits}
use fieldstream.ReadPlan.Plan.{build_device_read_plan-Covers}
use fieldstream.ReadPlan.Cost.{IsBuilt, build_device_read_plan-IsBuilt, merged-le-naive}
use fieldstream.ReadPlan.Waste.{build_device_read_plan-NoWaste}

-- A text order that takes all texts for equal; nothing below depends on it.
abbrev flat : Collation
flat = record { keys = λ a b. Ordering.eq; ids = λ a b. Ordering.eq }

abbrev controller : DeviceProfile
controller = record {
  profile_key = "rc";
  version = 1;
  max_block_registers = 200;
  max_gap_registers = 0;
  declared = [];
  sections =
      record {
        key = "main";
        params =
            record { key = "b"; address = 11; register_type = holding; data_type = uint16 }
            ∷ record { key = "a"; address = 10; register_type = holding; data_type = int16 }
            ∷ record { key = "c"; address = 20; register_type = holding; data_type = uint32 }
            ∷ record { key = "d"; address = 5; register_type = input; data_type = uint16 }
            ∷ [];
      }
      ∷ [];
}

abbrev defaults : ReadPlanOptions
defaults = record {
  mode = none;
  max_block_registers = none;
  max_gap_registers = none;
  ignore_declared_blocks = none;
}

abbrev with_declared : DeviceProfile
with_declared = record controller {
  declared =
      record { id = "first"; register_type = holding; start_address = 10; register_count = 20 }
      ∷ [];
}

abbrev block_at : BlockId → RegisterType → ℕ → ℕ → List String → BlockSource → PlanBlock
block_at id type start count ks source = record {
  id = id;
  register_type = type;
  start_address = start;
  register_count = count;
  param_keys = ks;
  source = source;
}

abbrev merged_plan : ReadPlan
merged_plan = record {
  profile_key = "rc";
  profile_version = 1;
  mode = merged;
  blocks =
      block_at (merged_id holding 10) holding 10 2 ("a" ∷ "b" ∷ []) from_merged
      ∷ block_at (merged_id holding 20) holding 20 2 ("c" ∷ []) from_merged
      ∷ block_at (merged_id input 5) input 5 1 ("d" ∷ []) from_merged
      ∷ [];
  request_count = 3;
  register_count = 5;
  wasted_registers = 0;
}

abbrev naive_plan : ReadPlan
naive_plan = record {
  profile_key = "rc";
  profile_version = 1;
  mode = naive;
  blocks =
      block_at (naive_id "a") holding 10 1 ("a" ∷ []) from_naive
      ∷ block_at (naive_id "b") holding 11 1 ("b" ∷ []) from_naive
      ∷ block_at (naive_id "c") holding 20 2 ("c" ∷ []) from_naive
      ∷ block_at (naive_id "d") input 5 1 ("d" ∷ []) from_naive
      ∷ [];
  request_count = 4;
  register_count = 5;
  wasted_registers = 0;
}

-- The declared block takes the three holding parameters, and reads 16 registers for nothing.
abbrev declared_plan : ReadPlan
declared_plan = record {
  profile_key = "rc";
  profile_version = 1;
  mode = merged;
  blocks =
      block_at (declared_id "first") holding 10 20 ("a" ∷ "b" ∷ "c" ∷ []) from_declared
      ∷ block_at (merged_id input 5) input 5 1 ("d" ∷ []) from_merged
      ∷ [];
  request_count = 2;
  register_count = 21;
  wasted_registers = 16;
}

plan_merged : build_device_read_plan flat controller defaults ≡ built merged_plan
unfolding build_device_read_plan list_plan_entries sort_by merge_entries naive_blocks
    declared_blocks wasted_in_block
plan_merged = refl

plan_naive :
    build_device_read_plan flat controller (record defaults { mode = some naive })
    ≡ built naive_plan
unfolding build_device_read_plan list_plan_entries sort_by merge_entries naive_blocks
    declared_blocks wasted_in_block
plan_naive = refl

plan_declared : build_device_read_plan flat with_declared defaults ≡ built declared_plan
unfolding build_device_read_plan list_plan_entries sort_by merge_entries naive_blocks
    declared_blocks wasted_in_block entry_fits_block
plan_declared = refl

build_device_read_plan-Covers_example :
    All (λ e. Any (Covers e) declared_plan.blocks) (all_entries controller.sections)
    × All (Fits 125) declared_plan.blocks
    × All (Fits max_modbus_block) declared_plan.blocks
build_device_read_plan-Covers_example =
    build_device_read_plan-Covers flat with_declared defaults declared_plan
      (refl, (refl, (refl, (refl, tt)))) plan_declared

build_device_read_plan-IsBuilt_example :
    IsBuilt (build_device_read_plan flat with_declared defaults)
build_device_read_plan-IsBuilt_example =
    build_device_read_plan-IsBuilt flat with_declared defaults (omega arith) (omega arith)

merged-le-naive_example :
    (merged_plan.request_count ≤ naive_plan.request_count)
    × (naive_plan.request_count ≡ length (list_plan_entries flat controller))
unfolding build_device_read_plan
merged-le-naive_example =
    merged-le-naive flat controller defaults merged_plan naive_plan plan_merged plan_naive

build_device_read_plan-NoWaste_example : merged_plan.wasted_registers ≡ 0
build_device_read_plan-NoWaste_example =
    build_device_read_plan-NoWaste flat controller defaults merged_plan refl refl plan_merged
