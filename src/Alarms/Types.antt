-- ===== src/Alarms/Types.antt =====
-- The data of packages/domain/src/alarms.ts.
use Prim.Native.String.{String}
use fieldstream.Common.{ℕ, ◌+◌, Bool, true, false, Option, none, some, List, if◌then◌else◌}
use fieldstream.Contracts.{DeviceMode, Severity, Quality, AlarmState, AlarmRule}

pub data AlarmBoundary : Type 0 where
  at_min at_max : AlarmBoundary

abbrev pub boundary_eq : AlarmBoundary → AlarmBoundary → Bool
boundary_eq at_min at_min = true
boundary_eq at_max at_max = true
boundary_eq _ _ = false

pub record MetricSample (V : Type 0) : Type 0 where
  pub value : Option V
  pub quality : Quality

-- The second member of the union `MetricAlarmState`.
pub record RaisedAlarm (V : Type 0) : Type 0 where
  pub boundary : AlarmBoundary
  pub severity : Severity
  pub threshold : V
  pub raised_at : ℕ
  pub mode : DeviceMode

-- `MetricAlarmState`: `quiet pending_boundary violation_cycles` is its first member.
pub data MetricAlarmState (V : Type 0) : Type 0 where
  quiet : Option AlarmBoundary → ℕ → MetricAlarmState V
  active : RaisedAlarm V → MetricAlarmState V

abbrev pub DeviceAlarmState : Type 0 → Type 0
DeviceAlarmState V = List (String × MetricAlarmState V)

pub record AlarmTransition (V : Type 0) : Type 0 where
  pub device_code : String
  pub metric_key : String
  pub mode : DeviceMode
  pub state : AlarmState
  pub severity : Severity
  pub value : Option V
  pub threshold : Option V
  pub boundary : AlarmBoundary
  pub occurred_at : ℕ
  pub raised_at : ℕ

pub record EvaluateInput (V : Type 0) : Type 0 where
  pub device_code : String
  pub mode : DeviceMode
  pub metrics : List (String × MetricSample V)
  pub rules : List (AlarmRule V)
  pub prev_state : DeviceAlarmState V
  pub now_ms : ℕ

abbrev pub idle_alarm_state : {V : Type 0} → MetricAlarmState V
idle_alarm_state = quiet none 0

abbrev pub Evaluation : Type 0 → Type 0
Evaluation V = List (AlarmTransition V) × DeviceAlarmState V

abbrev pub MetricEvaluation : Type 0 → Type 0
MetricEvaluation V = List (AlarmTransition V) × MetricAlarmState V

abbrev pub pending_is : Option AlarmBoundary → AlarmBoundary → Bool
pending_is none b = false
pending_is (some a) b = boundary_eq a b

-- `prev.pendingBoundary === violation.boundary ? prev.violationCycles + 1 : 1`
abbrev pub next_cycles : Option AlarmBoundary → ℕ → AlarmBoundary → ℕ
next_cycles pending cycles boundary = if pending_is pending boundary then cycles + 1 else 1
