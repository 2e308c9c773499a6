-- ===== src/Alarms/Tests.antt =====
-- Alarms of one chamber on concrete cycles, with whole numbers for values.
use fieldstream.Common.{
  ℕ, ◌+◌, ◌-◌, ◌≤◌, ◌≡◌, refl, true, none, some, List, [], ◌∷◌, arith, ltb, All, length,
}
use fieldstream.Common.Keys.{sort, dedupe, put}
use fieldstream.Contracts.{Numbers, AlarmRule, cooling, service, ok, critical, DeviceMode}
use fieldstream.Alarms.{
  EvaluateInput, quiet, active, RaisedAlarm, at_max, idle_alarm_state, state_of,
  evaluate_device_alarms, evaluate_metric, detect_violation, rules_for_mode, is_back_to_normal,
  cleared_transition,
}
use fieldstream.Alarms.Cycle.{of_metric, own_evaluation, evaluate_device_alarms-own}
use fieldstream.Alarms.Episodes.{Cycle, run, open_alarm, Alternates, episodes_alternate}
use fieldstream.Alarms.Debounce.{Violates, watch, raise_needs_debounce}
use fieldstream.Alarms.Hysteresis.{OrderedAt, known, Stands, debounce_raises, muted_releases}

abbrev whole : Numbers ℕ
whole = record { lt = ltb; add = λ a b. a + b; sub = λ a b. a - b }

abbrev too_warm : AlarmRule ℕ
too_warm = record {
  device_code = "RC-101";
  metric_key = "t1";
  mode = cooling;
  min_value = none;
  max_value = some 10;
  hysteresis = 2;
  debounce_cycles = 2;
  severity = critical;
  enabled = true;
}

abbrev cycle_at : ℕ → ℕ → DeviceMode → Cycle ℕ
cycle_at now v mode = record {
  mode = mode;
  metrics = ("t1", record { value = some v; quality = ok }) ∷ [];
  rules = too_warm ∷ [];
  now_ms = now;
}

abbrev day : List (Cycle ℕ)
day =
    cycle_at 1 12 cooling ∷ cycle_at 2 13 cooling ∷ cycle_at 3 9 cooling ∷ cycle_at 4 7 cooling ∷ []

abbrev raised_at_2 : RaisedAlarm ℕ
raised_at_2 = record {
  boundary = at_max;
  severity = critical;
  threshold = 10;
  raised_at = 2;
  mode = cooling;
}

abbrev at_service : EvaluateInput ℕ
at_service = record {
  device_code = "RC-101";
  mode = service;
  metrics = [];
  rules = too_warm ∷ [];
  prev_state = ("t1", active raised_at_2) ∷ [];
  now_ms = 9;
}

abbrev at_cooling : EvaluateInput ℕ
at_cooling = record at_service { mode = cooling; prev_state = [] }

-- The second violation in a row raises, 9 is inside the return zone, and 7 clears.
day_states :
    (state_of (run whole "RC-101" [] (cycle_at 1 12 cooling ∷ [])).1 "t1" ≡ quiet (some at_max) 1)
    × (state_of (run whole "RC-101" [] day).1 "t1" ≡ idle_alarm_state)
    × (length (run whole "RC-101" [] day).0 ≡ 2)
unfolding evaluate_device_alarms evaluate_metric detect_violation sort dedupe rules_for_mode put
    is_back_to_normal
day_states = (refl, refl, refl)

evaluate_device_alarms-own_example :
    (of_metric "t1" (evaluate_device_alarms whole at_service).0
      ≡ (own_evaluation whole at_service "t1").0)
    × (state_of (evaluate_device_alarms whole at_service).1 "t1"
        ≡ (own_evaluation whole at_service "t1").1)
evaluate_device_alarms-own_example = evaluate_device_alarms-own whole at_service "t1"

episodes_alternate_example :
    Alternates "RC-101" none
      (of_metric "t1" (run whole "RC-101" [] day).0)
      (open_alarm (state_of (run whole "RC-101" [] day).1 "t1"))
episodes_alternate_example = episodes_alternate whole "RC-101" "t1" day

abbrev two_warm : List ℕ
two_warm = 13 ∷ 12 ∷ []

raise_needs_debounce_example : (2 ≤ length two_warm) × All (Violates whole too_warm at_max) two_warm
unfolding evaluate_metric detect_violation
raise_needs_debounce_example =
    raise_needs_debounce whole at_cooling "t1" too_warm (some 12 ∷ none ∷ []) 13 (some at_max) 1
      (record raised_at_2 { raised_at = 9 }) refl refl refl

whole-OrderedAt : OrderedAt whole 2
whole-OrderedAt = record {
  asym = λ a b h. ground arith;
  below = λ v limit h. ground arith;
  above = λ v limit h. ground arith;
}

debounce_raises_example :
    Stands at_max
      (watch whole at_cooling "t1" too_warm idle_alarm_state (known (11 ∷ 12 ∷ 13 ∷ [])))
unfolding detect_violation
debounce_raises_example =
    debounce_raises whole at_cooling "t1" too_warm at_max (11 ∷ 12 ∷ 13 ∷ []) none 0 refl
      whole-OrderedAt ((10, refl), ((10, refl), ((10, refl), tt))) (omega arith) (omega arith)

muted_releases_example :
    (state_of (evaluate_device_alarms whole at_service).1 "t1" ≡ idle_alarm_state)
    × (of_metric "t1" (evaluate_device_alarms whole at_service).0
        ≡ cleared_transition at_service "t1" raised_at_2 none ∷ [])
muted_releases_example = muted_releases whole at_service "t1" refl
