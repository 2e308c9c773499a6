-- ===== src/ReadPlan/Types.antt =====
-- The data of packages/device-profiles/src/frames/read-plan.ts, and of the device profile of
-- packages/contracts/src/topology/device.ts as far as the plan reads it.
use Prim.Native.String.{String}
use fieldstream.Common.{ℕ, ◌+◌, ◌-◌, Bool, Option, List}
use fieldstream.Contracts.{RegisterType, DataType, words_by_data_type}

pub record ParamSpec : Type 0 where
  pub key : String
  pub address : ℕ
  pub register_type : RegisterType
  pub data_type : DataType

pub record SectionSpec : Type 0 where
  pub key : String
  pub params : List ParamSpec

pub record ReadBlock : Type 0 where
  pub id : String
  pub register_type : RegisterType
  pub start_address : ℕ
  pub register_count : ℕ

-- `declared` is `readPlan?.blocks ?? []`.
pub record DeviceProfile : Type 0 where
  pub profile_key : String
  pub version : ℕ
  pub max_block_registers : ℕ
  pub max_gap_registers : ℕ
  pub declared : List ReadBlock
  pub sections : List SectionSpec

pub data PlanMode : Type 0 where
  merged naive : PlanMode

pub record PlanEntry : Type 0 where
  pub section_key : String
  pub param : ParamSpec
  pub register_type : RegisterType
  pub start : ℕ
  pub end : ℕ
  pub words : ℕ

pub data BlockSource : Type 0 where
  from_declared from_merged from_naive : BlockSource

-- The source's `id` of a merged or naive block is a text made of the other fields; here it is that
-- choice of fields.
pub data BlockId : Type 0 where
  declared_id : String → BlockId
  merged_id : RegisterType → ℕ → BlockId
  naive_id : String → BlockId

pub record PlanBlock : Type 0 where
  pub id : BlockId
  pub register_type : RegisterType
  pub start_address : ℕ
  pub register_count : ℕ
  pub param_keys : List String
  pub source : BlockSource

pub record ReadPlan : Type 0 where
  pub profile_key : String
  pub profile_version : ℕ
  pub mode : PlanMode
  pub blocks : List PlanBlock
  pub request_count : ℕ
  pub register_count : ℕ
  pub wasted_registers : ℕ

pub record ReadPlanOptions : Type 0 where
  pub mode : Option PlanMode
  pub max_block_registers : Option ℕ
  pub max_gap_registers : Option ℕ
  pub ignore_declared_blocks : Option Bool

pub record BlockDraft : Type 0 where
  pub register_type : RegisterType
  pub start : ℕ
  pub end : ℕ
  pub keys : List String

-- The two errors that are thrown, with the limit that was broken.
pub data PlanError : Type 0 where
  entry_too_long : PlanEntry → ℕ → PlanError
  block_too_long : ReadBlock → ℕ → PlanError

pub data Built (A : Type 0) : Type 0 where
  built : A → Built A
  thrown : PlanError → Built A

infixl 5 ◌>>=◌
abbrev pub ◌>>=◌ : {A B : Type 0} → Built A → (A → Built B) → Built B
built a >>= f = f a
thrown e >>= f = thrown e

-- The entry of one parameter, in `listPlanEntries`.
abbrev pub entry_of : String → ParamSpec → PlanEntry
entry_of section p = record {
  section_key = section;
  param = p;
  register_type = p.register_type;
  start = p.address;
  end = p.address + words_by_data_type p.data_type - 1;
  words = words_by_data_type p.data_type;
}
