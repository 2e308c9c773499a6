-- ===== src/Alarms/Episodes.antt =====
-- Alarm episodes over the life of a device: cycles of `evaluateDeviceAlarms`
-- (packages/domain/src/alarms.ts) that hand the state on from one to the next.
use Prim.Native.String.{String}
use fieldstream.Common.{
  ltb, Bool-cases, inl, inr, ℕ, ◌≡◌, refl, Option, none, some, List, [], ◌∷◌, ◌++◌, arith,
}
use fieldstream.Contracts.{DeviceMode, Numbers, AlarmRule, is_muted, raised, cleared}
use fieldstream.Alarms.{
  MetricSample, AlarmTransition, EvaluateInput, MetricAlarmState, quiet, active, RaisedAlarm,
  DeviceAlarmState, Evaluation, AlarmBoundary, violated, judge, detect_violation, next_cycles,
  raised_state, state_of, evaluate_metric, evaluate_device_alarms, cleared_transition,
  raised_transition,
}
use fieldstream.Alarms.Cycle.{
  of_metric, own_evaluation, evaluate_device_alarms-own, of_metric-append,
}

-- What one polling cycle brings: mode, samples, rules and time may all change from cycle to cycle.
pub record Cycle (V : Type 0) : Type 0 where
  pub mode : DeviceMode
  pub metrics : List (String × MetricSample V)
  pub rules : List (AlarmRule V)
  pub now_ms : ℕ

abbrev pub input_of : {V : Type 0} → String → DeviceAlarmState V → Cycle V → EvaluateInput V
input_of device state c = record {
  device_code = device;
  mode = c.mode;
  metrics = c.metrics;
  rules = c.rules;
  prev_state = state;
  now_ms = c.now_ms;
}

abbrev pub run :
    {V : Type 0} → Numbers V → String → DeviceAlarmState V → List (Cycle V) → Evaluation V
run n device state [] = ([], state)
run n device state (c ∷ cs) =
    let now = evaluate_device_alarms n (input_of device state c) in
    let later = run n device now.1 cs in (now.0 ++ later.0, later.1)

module _ {V : Type 0} where
  abbrev pub open_alarm : MetricAlarmState V → Option (RaisedAlarm V)
  open_alarm (quiet pending cycles) = none
  open_alarm (active alarm) = some alarm

  -- A transition reports the alarm it is about: mode, severity, threshold, boundary, time of raise.
  pub record Reports (device : String) (t : AlarmTransition V) (a : RaisedAlarm V) : Type 0 where
    pub device_ok : t.device_code ≡ device
    pub mode_ok : t.mode ≡ a.mode
    pub severity_ok : t.severity ≡ a.severity
    pub threshold_ok : t.threshold ≡ some a.threshold
    pub boundary_ok : t.boundary ≡ a.boundary
    pub raised_at_ok : t.raised_at ≡ a.raised_at

  -- Raises and clears take turns, from an open alarm or none to an open alarm or none; a raise
  -- happens at the time it reports, and a clear reports the alarm that the raise before it opened.
  abbrev pub Alternates :
      String → Option (RaisedAlarm V) → List (AlarmTransition V) → Option (RaisedAlarm V) → Type 0
  Alternates device before [] after = before ≡ after
  Alternates device none (t ∷ ts) after =
      (a : RaisedAlarm V) × (t.state ≡ raised)
      × (t.occurred_at ≡ a.raised_at)
      × Reports device t a
      × Alternates device (some a) ts after
  Alternates device (some a) (t ∷ ts) after =
      (t.state ≡ cleared) × Reports device t a × Alternates device none ts after

module _ {V : Type 0} (n : Numbers V) where
  violated-Alternates :
      (i : EvaluateInput V) (k : String) (r : AlarmRule V) (v : V) (pending : Option AlarmBoundary)
      (cycles : ℕ) (violation : AlarmBoundary × V)
      → let out = violated i k r v pending cycles violation in
        Alternates i.device_code none out.0 (open_alarm out.1)
  unfolding violated raised_transition
  violated-Alternates i k r v pending cycles violation =
      elim (Bool-cases (ltb (next_cycles pending cycles violation.0) r.debounce_cycles)) [
        | inl early ↦ rw early refl
        | inr late ↦ rw late (
          raised_state i r violation,
          refl,
          refl,
          record {
            device_ok = refl;
            mode_ok = refl;
            severity_ok = refl;
            threshold_ok = refl;
            boundary_ok = refl;
            raised_at_ok = refl;
          },
          refl,
        )
      ]

  evaluate_metric-Alternates :
      (i : EvaluateInput V) (k : String) (rule : Option (AlarmRule V)) (prev : MetricAlarmState V)
      (value : Option V)
      → let out = evaluate_metric n i k rule prev value in
        Alternates i.device_code (open_alarm prev) out.0 (open_alarm out.1)
  unfolding evaluate_metric cleared_transition
  evaluate_metric-Alternates i k none (quiet pending cycles) value = ground arith
  evaluate_metric-Alternates i k (some r) (quiet pending cycles) none = ground arith
  evaluate_metric-Alternates i k (some r) (quiet pending cycles) (some v) =
      elim (Bool-cases (is_muted i.mode)) [
        | inl quieted ↦ rw quieted refl
        | inr heard ↦ rw heard (of_violation (detect_violation n r v) refl)
      ]
    where
      of_violation :
          (o : Option (AlarmBoundary × V))
          → detect_violation n r v ≡ o
          → let out = judge n i k r v (quiet pending cycles) in
            Alternates i.device_code none out.0 (open_alarm out.1)
      of_violation none e = rw (e, judge) refl
      of_violation (some violation) e =
          rw (e, judge) (violated-Alternates i k r v pending cycles violation)
  evaluate_metric-Alternates i k rule (active prev) value = ground arith

  Alternates-append :
      (device : String) (a b c : Option (RaisedAlarm V)) (xs ys : List (AlarmTransition V))
      → Alternates device a xs b
      → Alternates device b ys c
      → Alternates device a (xs ++ ys) c
  Alternates-append device a b c [] ys h g = rw h g
  Alternates-append device none b c (x ∷ xs) ys h g =
      (h.0, h.1, h.2, h.3, Alternates-append device (some h.0) b c xs ys h.4 g)
  Alternates-append device (some a) b c (x ∷ xs) ys h g =
      (h.0, h.1, Alternates-append device none b c xs ys h.2 g)

  run-Alternates :
      (device k : String) (state : DeviceAlarmState V) (cs : List (Cycle V))
      → Alternates device
          (open_alarm (state_of state k))
          (of_metric k (run n device state cs).0)
          (open_alarm (state_of (run n device state cs).1 k))
  run-Alternates device k state [] = refl
  run-Alternates device k state (c ∷ cs) =
      let i : EvaluateInput V = input_of device state c in
      let out = evaluate_device_alarms n i in
      rw (of_metric-append k out.0 (run n device out.1 cs).0) (
        Alternates-append device (open_alarm (state_of state k)) (open_alarm (state_of out.1 k))
          (open_alarm (state_of (run n device out.1 cs).1 k)) (of_metric k out.0)
          (of_metric k (run n device out.1 cs).0) (first i out (evaluate_device_alarms-own n i k))
          (run-Alternates device k out.1 cs))
    where
      first :
          (i : EvaluateInput V) (out : Evaluation V)
          → (of_metric k out.0 ≡ (own_evaluation n i k).0)
            × (state_of out.1 k ≡ (own_evaluation n i k).1)
          → Alternates i.device_code
              (open_alarm (state_of i.prev_state k))
              (of_metric k out.0)
              (open_alarm (state_of out.1 k))
      first i out e = rw (e.0, e.1) (evaluate_metric-Alternates i k _ _ _)

  -- Over the whole life of a device, from no alarms, with any modes, rules, samples and times: the
  -- transitions of each metric are a raise, its clear, the next raise and so on; each raise happens
  -- at the time it reports; each clear reports the device, mode, severity, threshold, boundary and
  -- time of the raise before it; and the metric's last state holds the alarm of a raise that has no
  -- clear yet, or none.
  pub episodes_alternate :
      (device k : String) (cs : List (Cycle V))
      → Alternates device none
          (of_metric k (run n device [] cs).0)
          (open_alarm (state_of (run n device [] cs).1 k))
  episodes_alternate device k cs = run-Alternates device k [] cs
