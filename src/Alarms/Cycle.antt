-- ===== src/Alarms/Cycle.antt =====
-- One cycle of `evaluateDeviceAlarms` (packages/domain/src/alarms.ts) seen metric by metric.
use Prim.Native.String.{String}
use text.Mathlib.Text.{◌==◌ as str_eq}
use text.Mathlib.TextEquality.{eq_iff}
use mathlib.Core.Path.{ap₂}
use mathlib.Core.List.{append-nil}
use fieldstream.Common.{
  ◌≡◌, refl, ap, ◌∙◌, inl, inr, Bool, true, false, ◌||◌, Option, none, some, List, [], ◌∷◌, ◌++◌,
  arith, if◌then◌else◌, keep, All, Bool-cases, ◌&&◌,
}
use fieldstream.Common.Keys.{
  contains, lookup, keys, dedupe, Distinct, contains-sort, contains-dedupe, contains-append,
  sort-dedupe-Distinct, lookup_absent, put, lookup-put,
}
use fieldstream.Contracts.{DeviceMode, Numbers, AlarmRule}
use fieldstream.Alarms.{
  AlarmTransition, EvaluateInput, MetricAlarmState, quiet, active, MetricEvaluation,
  idle_alarm_state, usable_value, state_of, evaluate_metric, applies, collect_rules, evaluate_key,
  evaluate_keys, evaluate_device_alarms, metric_keys, rules_for_mode, cleared_transition,
  raised_transition,
}

-- The transitions of one metric.
abbrev pub of_metric : {V : Type 0} → String → List (AlarmTransition V) → List (AlarmTransition V)
of_metric k = keep (λ t. str_eq t.metric_key k)

module _ {V : Type 0} (n : Numbers V) where
  evaluate_metric_named :
      (i : EvaluateInput V) (k : String) (rule : Option (AlarmRule V)) (prev : MetricAlarmState V)
      (value : Option V)
      → All (λ t. t.metric_key ≡ k) (evaluate_metric n i k rule prev value).0
  unfolding evaluate_metric cleared_transition raised_transition
  evaluate_metric_named i k rule (quiet pending cycles) value = ground arith
  evaluate_metric_named i k rule (active prev) value = ground arith

  evaluate_key-named :
      (i : EvaluateInput V) (rules : List (String × AlarmRule V)) (k : String)
      → All (λ t. t.metric_key ≡ k) (evaluate_key n i rules k).0
  unfolding evaluate_key
  evaluate_key-named i rules k = evaluate_metric_named i k (lookup k rules) _ _

module _ {V : Type 0} where
  pub of_metric-append :
      (k : String) (xs ys : List (AlarmTransition V))
      → of_metric k (xs ++ ys) ≡ of_metric k xs ++ of_metric k ys
  of_metric-append k [] ys = refl
  of_metric-append k (x ∷ xs) ys = ground (arith, of_metric-append k xs ys)

  of_metric_named :
      (k j : String) (ts : List (AlarmTransition V))
      → All (λ t. t.metric_key ≡ j) ts
      → of_metric k ts ≡ (if str_eq j k then ts else [])
  of_metric_named k j [] h = ground arith
  of_metric_named k j (t ∷ ts) h = ground (arith, of_metric_named k j ts)

  -- The rule that counts for a metric: the last one that is enabled and fits.
  abbrev pub last_rule :
      String
      → DeviceMode
      → String
      → Option (AlarmRule V)
      → List (AlarmRule V)
      → Option (AlarmRule V)
  last_rule device mode k found [] = found
  last_rule device mode k found (r ∷ rs) =
      last_rule device mode k
        (if applies device mode r && str_eq r.metric_key k then some r else found) rs

  lookup-collect_rules :
      (device : String) (mode : DeviceMode) (k : String) (acc : List (String × AlarmRule V))
      (rs : List (AlarmRule V))
      → lookup k (collect_rules device mode acc rs) ≡ last_rule device mode k (lookup k acc) rs
  unfolding collect_rules
  lookup-collect_rules device mode k acc [] = refl
  lookup-collect_rules device mode k acc (r ∷ rs) = elim (Bool-cases (applies device mode r)) [
    | inl yes' ↦ rw yes' (
        lookup-collect_rules device mode k (put r.metric_key r acc) rs
        ∙ ap (λ o. last_rule device mode k o rs) (lookup-put r.metric_key k r acc))
    | inr no' ↦ rw no' (lookup-collect_rules device mode k acc rs)
  ]

module _ {V : Type 0} (n : Numbers V) (i : EvaluateInput V)
    (rules : List (String × AlarmRule V)) where
  of_metric-evaluate_keys :
      (k : String) (ks : List String)
      → Distinct ks
      → of_metric k (evaluate_keys n i rules ks).0
        ≡ (if contains k ks then (evaluate_key n i rules k).0 else [])
  unfolding evaluate_keys
  of_metric-evaluate_keys k [] d = refl
  of_metric-evaluate_keys k (j ∷ js) d =
      of_metric-append k (evaluate_key n i rules j).0 (evaluate_keys n i rules js).0
      ∙ ap₂ (λ xs ys. xs ++ ys) (of_metric_named k j (evaluate_key n i rules j).0 named)
          (of_metric-evaluate_keys k js d.1)
      ∙ joined (str_eq j k) refl
    where
      named : All (λ t. t.metric_key ≡ j) (evaluate_key n i rules j).0
      named = evaluate_key-named n i rules j

      joined :
          (same : Bool)
          → str_eq j k ≡ same
          → (if same then (evaluate_key n i rules j).0 else [])
              ++ (if contains k js then (evaluate_key n i rules k).0 else [])
            ≡ (if same || contains k js then (evaluate_key n i rules k).0 else [])
      joined true e =
          let jk : j ≡ k = (eq_iff j k).0 e in
          ground (arith, jk, d.0, append-nil (evaluate_key n i rules j).0)
      joined false e = refl

  lookup-evaluate_keys :
      (k : String) (ks : List String)
      → lookup k (evaluate_keys n i rules ks).1
        ≡ (if contains k ks then some (evaluate_key n i rules k).1 else none)
  unfolding evaluate_keys
  lookup-evaluate_keys k [] = refl
  lookup-evaluate_keys k (j ∷ js) = ground (arith, lookup-evaluate_keys k js, eq_iff j k)

module _ {V : Type 0} (n : Numbers V) (i : EvaluateInput V) where
  abbrev pub own_evaluation : String → MetricEvaluation V
  own_evaluation k =
      evaluate_metric n i k (last_rule i.device_code i.mode k none i.rules)
        (state_of i.prev_state k) (usable_value (lookup k i.metrics))

  own_evaluation_lem : (k : String) → evaluate_key n i (rules_for_mode i) k ≡ own_evaluation k
  unfolding evaluate_key rules_for_mode
  own_evaluation_lem k = rw (lookup-collect_rules i.device_code i.mode k [] i.rules)

  contains-metric_keys :
      (k : String)
      → contains k (metric_keys i)
        ≡ (contains k (keys i.prev_state) || contains k (keys (rules_for_mode i)))
  contains-metric_keys k =
      contains-sort k (dedupe (keys i.prev_state ++ keys (rules_for_mode i)))
      ∙ contains-dedupe k (keys i.prev_state ++ keys (rules_for_mode i))
      ∙ contains-append k (keys i.prev_state) (keys (rules_for_mode i))

  idle_outside :
      (k : String)
      → contains k (metric_keys i) ≡ false
      → evaluate_key n i (rules_for_mode i) k ≡ ([], idle_alarm_state)
  unfolding evaluate_key evaluate_metric
  idle_outside k h = ground (
    arith,
    contains-metric_keys k,
    lookup_absent k i.prev_state,
    lookup_absent k (rules_for_mode i),
  )

  -- Whatever else the device measures, a metric's transitions of the cycle and its new state are
  -- those of the loop body at its own inputs: the last enabled rule for the device and mode that
  -- names the metric, the metric's previous state, idle if there is none, and its value.
  pub evaluate_device_alarms-own :
      (k : String)
      → (of_metric k (evaluate_device_alarms n i).0 ≡ (own_evaluation k).0)
        × (state_of (evaluate_device_alarms n i).1 k ≡ (own_evaluation k).1)
  unfolding evaluate_device_alarms
  evaluate_device_alarms-own k = ground (
    arith,
    of_metric-evaluate_keys n i (rules_for_mode i) k (metric_keys i)
        (sort-dedupe-Distinct (keys i.prev_state ++ keys (rules_for_mode i))),
    lookup-evaluate_keys n i (rules_for_mode i) k (metric_keys i),
    own_evaluation_lem k,
    idle_outside k,
  )
