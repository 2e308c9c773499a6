-- ===== src/Contracts.antt =====
-- The vocabulary of packages/contracts/src that the components share: enumerations of
-- topology/device.ts, messages/health.ts, messages/alarms.ts and primitives.ts, and the alarm rule.
use fieldstream.Common.{ℕ, Bool, true, false, Option}
use Prim.Native.String.{String}

-- deviceModeSchema
pub data DeviceMode : Type 0 where
  cooling defrost service off : DeviceMode

abbrev pub mode_eq : DeviceMode → DeviceMode → Bool
mode_eq cooling cooling = true
mode_eq defrost defrost = true
mode_eq service service = true
mode_eq off off = true
mode_eq _ _ = false

-- `MUTED_MODES.includes(mode)`
abbrev pub is_muted : DeviceMode → Bool
is_muted service = true
is_muted off = true
is_muted _ = false

-- severitySchema
pub data Severity : Type 0 where
  info warning critical : Severity

-- qualitySchema
pub data Quality : Type 0 where
  ok stale substituted bad : Quality

abbrev pub is_bad : Quality → Bool
is_bad bad = true
is_bad _ = false

-- alarmStateSchema
pub data AlarmState : Type 0 where
  raised cleared : AlarmState

-- healthStatusSchema
pub data HealthStatus : Type 0 where
  online degraded offline unknown : HealthStatus

abbrev pub status_eq : HealthStatus → HealthStatus → Bool
status_eq online online = true
status_eq degraded degraded = true
status_eq offline offline = true
status_eq unknown unknown = true
status_eq _ _ = false

-- registerTypeSchema
pub data RegisterType : Type 0 where
  holding input : RegisterType

abbrev pub register_eq : RegisterType → RegisterType → Bool
register_eq holding holding = true
register_eq input input = true
register_eq _ _ = false

-- Arithmetic on the values of a metric, which are JavaScript numbers in the source.
pub record Numbers (V : Type 0) : Type 0 where
  pub lt : V → V → Bool
  pub add : V → V → V
  pub sub : V → V → V

-- alarmRuleSchema
pub record AlarmRule (V : Type 0) : Type 0 where
  pub device_code : String
  pub metric_key : String
  pub mode : DeviceMode
  pub min_value : Option V
  pub max_value : Option V
  pub hysteresis : V
  pub debounce_cycles : ℕ
  pub severity : Severity
  pub enabled : Bool

-- dataTypeSchema
pub data DataType : Type 0 where
  int16 uint16 int32 uint32 float32 bits16 : DataType

-- WORDS_BY_DATA_TYPE
abbrev pub words_by_data_type : DataType → ℕ
words_by_data_type int16 = 1
words_by_data_type uint16 = 1
words_by_data_type bits16 = 1
words_by_data_type int32 = 2
words_by_data_type uint32 = 2
words_by_data_type float32 = 2
