-- ===== src/Alarms.antt =====
-- packages/domain/src/alarms.ts: the alarms of one device over one polling cycle. A `Record` keyed
-- by metric is an association list; times are whole milliseconds.
mod Types
pub mod Cycle
pub mod Episodes
pub mod Debounce
pub mod Hysteresis
mod Tests
pub use Types.*
use Prim.Native.String.{String}
use text.Mathlib.Text.{◌==◌ as str_eq}
use fieldstream.Common.{
  ℕ, ◌+◌, Bool, true, false, ◌&&◌, Option, none, some, List, [], ◌∷◌, ◌++◌, ltb, if◌then◌else◌,
}
use fieldstream.Common.Keys.{dedupe, sort, lookup, put, keys}
use fieldstream.Contracts.{
  DeviceMode, mode_eq, is_muted, Severity, Quality, is_bad, AlarmState, raised, cleared, Numbers,
  AlarmRule,
}

module _ {V : Type 0} (n : Numbers V) where
  open n use {lt, add, sub}

  abbrev pub over_max : Option V → V → Option (AlarmBoundary × V)
  over_max none v = none
  over_max (some limit) v = if lt limit v then some (at_max, limit) else none

  abbrev pub under_min : Option V → V → Option (AlarmBoundary × V)
  under_min none v = none
  under_min (some limit) v = if lt v limit then some (at_min, limit) else none

  unfoldable pub detect_violation : AlarmRule V → V → Option (AlarmBoundary × V)
  detect_violation rule v = elim (over_max rule.max_value v) [
    | some violation ↦ some violation
    | none ↦ under_min rule.min_value v
  ]

  abbrev pub below_margin : Option V → V → V → Bool
  below_margin none h v = true
  below_margin (some limit) h v = lt v (sub limit h)

  abbrev pub above_margin : Option V → V → V → Bool
  above_margin none h v = true
  above_margin (some limit) h v = lt (add limit h) v

  unfoldable pub is_back_to_normal : AlarmRule V → AlarmBoundary → V → Bool
  is_back_to_normal rule at_max v = below_margin rule.max_value rule.hysteresis v
  is_back_to_normal rule at_min v = above_margin rule.min_value rule.hysteresis v

-- `rulesForMode`: a later rule for the same metric replaces an earlier one.
module _ {V : Type 0} where
  abbrev pub applies : String → DeviceMode → AlarmRule V → Bool
  applies device mode rule =
      rule.enabled && str_eq rule.device_code device && mode_eq rule.mode mode

  pub collect_rules :
      String
      → DeviceMode
      → List (String × AlarmRule V)
      → List (AlarmRule V)
      → List (String × AlarmRule V)
  collect_rules device mode by_metric [] = by_metric
  collect_rules device mode by_metric (rule ∷ rules) =
      collect_rules device mode
        (if applies device mode rule then put rule.metric_key rule by_metric else by_metric) rules

  pub rules_for_mode : EvaluateInput V → List (String × AlarmRule V)
  unfolding collect_rules
  rules_for_mode i = collect_rules i.device_code i.mode [] i.rules

  unfoldable pub cleared_transition :
      EvaluateInput V → String → RaisedAlarm V → Option V → AlarmTransition V
  cleared_transition i metric_key prev value = record {
    device_code = i.device_code;
    metric_key = metric_key;
    mode = prev.mode;
    state = cleared;
    severity = prev.severity;
    value = value;
    threshold = some prev.threshold;
    boundary = prev.boundary;
    occurred_at = i.now_ms;
    raised_at = prev.raised_at;
  }

  unfoldable pub raised_transition :
      EvaluateInput V → String → AlarmRule V → V → AlarmBoundary × V → AlarmTransition V
  raised_transition i metric_key rule value violation = record {
    device_code = i.device_code;
    metric_key = metric_key;
    mode = i.mode;
    state = raised;
    severity = rule.severity;
    value = some value;
    threshold = some violation.1;
    boundary = violation.0;
    occurred_at = i.now_ms;
    raised_at = i.now_ms;
  }

  raised_state : EvaluateInput V → AlarmRule V → AlarmBoundary × V → RaisedAlarm V
  raised_state i rule violation = record {
    boundary = violation.0;
    severity = rule.severity;
    threshold = violation.1;
    raised_at = i.now_ms;
    mode = i.mode;
  }

  -- The branch that ends an alarm and forgets a pending violation.
  pub release : EvaluateInput V → String → MetricAlarmState V → Option V → MetricEvaluation V
  release i k (active prev) value = (cleared_transition i k prev value ∷ [], idle_alarm_state)
  release i k (quiet pending cycles) value = ([], idle_alarm_state)

  pub violated :
      EvaluateInput V
      → String
      → AlarmRule V
      → V
      → Option AlarmBoundary
      → ℕ
      → AlarmBoundary × V
      → MetricEvaluation V
  unfolding raised_state
  violated i k rule value pending cycles violation =
      let cycles' = next_cycles pending cycles violation.0 in
      if ltb cycles' rule.debounce_cycles
      then ([], quiet (some violation.0) cycles')
      else (raised_transition i k rule value violation ∷ [], active (raised_state i rule violation))

  abbrev pub usable_value : Option (MetricSample V) → Option V
  usable_value none = none
  usable_value (some sample) = if is_bad sample.quality then none else sample.value

  abbrev pub state_of : DeviceAlarmState V → String → MetricAlarmState V
  state_of states k = elim (lookup k states) [ none ↦ idle_alarm_state | some s ↦ s ]

  abbrev pub metric_keys : EvaluateInput V → List String
  metric_keys i = sort (dedupe (keys i.prev_state ++ keys (rules_for_mode i)))

module _ {V : Type 0} (n : Numbers V) where
  -- The value is known and an enabled rule covers the metric.
  pub judge : EvaluateInput V → String → AlarmRule V → V → MetricAlarmState V → MetricEvaluation V
  unfolding release violated
  judge i k rule value (active prev) =
      if is_back_to_normal n rule prev.boundary value
      then release i k (active prev) (some value)
      else ([], active prev)
  judge i k rule value (quiet pending cycles) = elim (detect_violation n rule value) [
    | none ↦ ([], idle_alarm_state)
    | some violation ↦ violated i k rule value pending cycles violation
  ]

  -- The body of the loop over the metric keys.
  pub evaluate_metric :
      EvaluateInput V
      → String
      → Option (AlarmRule V)
      → MetricAlarmState V
      → Option V
      → MetricEvaluation V
  unfolding judge
  evaluate_metric i k rule prev value =
      if is_muted i.mode then release i k prev value else elim rule [
        | none ↦ release i k prev value
        | some r ↦ elim value [ none ↦ ([], prev) | some v ↦ judge i k r v prev ]
      ]

  pub evaluate_key : EvaluateInput V → List (String × AlarmRule V) → String → MetricEvaluation V
  evaluate_key i rules k =
      evaluate_metric i k (lookup k rules) (state_of i.prev_state k)
        (usable_value (lookup k i.metrics))

  pub evaluate_keys : EvaluateInput V → List (String × AlarmRule V) → List String → Evaluation V
  evaluate_keys i rules [] = ([], [])
  evaluate_keys i rules (k ∷ ks) =
      let (transitions, state) = evaluate_key i rules k in
      let (later, states) = evaluate_keys i rules ks in (transitions ++ later, (k, state) ∷ states)

  pub evaluate_device_alarms : EvaluateInput V → Evaluation V
  unfolding evaluate_keys evaluate_key
  evaluate_device_alarms i = evaluate_keys i (rules_for_mode i) (metric_keys i)
