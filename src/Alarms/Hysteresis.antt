-- ===== src/Alarms/Hysteresis.antt =====
-- How an alarm holds and how it is let go: the return zone and the muted modes of
-- packages/domain/src/alarms.ts.
use Prim.Native.String.{String}
use mathlib.Core.Path.{subst}
use fieldstream.Common.{
  ltb, Bool-cases, inl, inr, ℕ, ◌+◌, ◌≤◌, ◌<◌, ◌⊎◌, ◌≡◌, refl, sym, ap, ◌∙◌, true, false, Option,
  none, some, List, [], ◌∷◌, arith, if◌then◌else◌, All, length,
}
use fieldstream.Contracts.{Numbers, AlarmRule, is_muted}
use fieldstream.Alarms.{
  AlarmTransition, EvaluateInput, MetricAlarmState, quiet, active, RaisedAlarm, idle_alarm_state,
  AlarmBoundary, at_min, at_max, evaluate_metric, evaluate_device_alarms, cleared_transition,
  raised_transition, detect_violation, is_back_to_normal, judge, violated, raised_state, pending_is,
  next_cycles, state_of, release, usable_value,
}
use fieldstream.Alarms.Cycle.{of_metric, evaluate_device_alarms-own}
use fieldstream.Alarms.Debounce.{Violates, watch}
use fieldstream.Common.Keys.{lookup}

-- What the rules use of the order of finite numbers, at a hysteresis `h` that is not negative.
pub record OrderedAt {V : Type 0} (n : Numbers V) (h : V) : Type 0 where
  pub asym : (a b : V) → n.lt a b ≡ true → n.lt b a ≡ false
  pub below : (v limit : V) → n.lt v (n.sub limit h) ≡ true → n.lt v limit ≡ true
  pub above : (v limit : V) → n.lt (n.add limit h) v ≡ true → n.lt limit v ≡ true

module _ {V : Type 0} where
  abbrev pub known : List V → List (Option V)
  known [] = []
  known (v ∷ vs) = some v ∷ known vs

abbrev credit : Option AlarmBoundary → ℕ → AlarmBoundary → ℕ
credit pending c b = if pending_is pending b then c else 0

credit_next :
    (pending : Option AlarmBoundary) (c : ℕ) (b : AlarmBoundary)
    → next_cycles pending c b ≡ credit pending c b + 1
credit_next pending c b = ground arith

credit_self : (b : AlarmBoundary) (c : ℕ) → credit (some b) c b ≡ c
credit_self at_min c = refl
credit_self at_max c = refl

module _ {V : Type 0} where
  -- An alarm of the boundary `b` stands.
  abbrev pub Stands : AlarmBoundary → MetricAlarmState V → Type 0
  Stands b s = (a : RaisedAlarm V) × (s ≡ active a) × (a.boundary ≡ b)

  state_cases :
      (s : MetricAlarmState V)
      → ((pending : Option AlarmBoundary) × (c : ℕ) × (s ≡ quiet pending c))
        ⊎ ((a : RaisedAlarm V) × (s ≡ active a))
  state_cases (quiet pending c) = inl (pending, c, refl)
  state_cases (active a) = inr (a, refl)

  -- What a metric's state leaves to report when its alarm is let go.
  abbrev pub release_report :
      EvaluateInput V → String → MetricAlarmState V → Option V → List (AlarmTransition V)
  release_report i k (quiet pending c) value = []
  release_report i k (active a) value = cleared_transition i k a value ∷ []

module _ {V : Type 0} (n : Numbers V) where
  -- A value that breaks a limit is not back to normal for the same boundary.
  violation-not_normal :
      (rule : AlarmRule V) (b : AlarmBoundary) (v : V)
      → OrderedAt n rule.hysteresis
      → Violates n rule b v
      → is_back_to_normal n rule b v ≡ false
  unfolding is_back_to_normal detect_violation
  violation-not_normal rule at_max v o (limit, e) = max_case rule.max_value refl
    where
      max_case : (m : Option V) → rule.max_value ≡ m → is_back_to_normal n rule at_max v ≡ false
      max_case none me = absurd (ground arith)
      max_case (some m) me = ground (arith, o.below v m, o.asym v m)
  violation-not_normal rule at_min v o (limit, e) = min_case rule.min_value refl
    where
      min_case : (m : Option V) → rule.min_value ≡ m → is_back_to_normal n rule at_min v ≡ false
      min_case none me = absurd (ground arith)
      min_case (some m) me = ground (arith, o.above v m, o.asym m v)

  holds_on :
      (i : EvaluateInput V) (k : String) (rule : AlarmRule V) (a : RaisedAlarm V) (vs : List V)
      → is_muted i.mode ≡ false
      → OrderedAt n rule.hysteresis
      → All (Violates n rule a.boundary) vs
      → watch n i k rule (active a) (known vs) ≡ active a
  unfolding evaluate_metric judge
  holds_on i k rule a [] m o h = refl
  holds_on i k rule a (v ∷ vs) m o h =
      let kept : evaluate_metric n i k (some rule) (active a) (some v) ≡ ([], active a) =
        ground (arith, violation-not_normal rule a.boundary v o h.0) in
      ap (λ out. watch n i k rule out.1 (known vs)) kept ∙ holds_on i k rule a vs m o h.1

  rises :
      (i : EvaluateInput V) (k : String) (rule : AlarmRule V) (b : AlarmBoundary) (vs : List V)
      (pending : Option AlarmBoundary) (c : ℕ)
      → is_muted i.mode ≡ false
      → OrderedAt n rule.hysteresis
      → All (Violates n rule b) vs
      → 0 < length vs
      → rule.debounce_cycles ≤ credit pending c b + length vs
      → Stands b (watch n i k rule (quiet pending c) (known vs))
  unfolding evaluate_metric judge violated raised_state
  rises i k rule b [] pending c m o h pos le = absurd (omega arith)
  rises i k rule b (v ∷ vs) pending c m o h pos le =
      let (limit, e) = h.0 in
      let next = next_cycles pending c b in
      let heard : evaluate_metric n i k (some rule) (quiet pending c) (some v)
          ≡ violated i k rule v pending c (b, limit) =
        ground (arith, m, e) in
      subst (λ out. Stands b (watch n i k rule out.1 (known vs))) (sym heard)
        (elim (Bool-cases (ltb next rule.debounce_cycles)) [
          | inl early ↦
              subst (λ out. Stands b (watch n i k rule out.1 (known vs))) (sym (pends early))
                (rises i k rule b vs (some b) next m o h.1 (ground (arith, credit_next pending c b))
                  (ground (arith, credit_next pending c b, credit_self b next)))
          | inr late ↦
              subst (λ out. Stands b (watch n i k rule out.1 (known vs))) (sym (fires late))
                (
                  raised_state i rule (b, limit),
                  holds_on i k rule (raised_state i rule (b, limit)) vs m o h.1,
                  refl,
                )
        ])
    where
      pends :
          ltb (next_cycles pending c b) rule.debounce_cycles ≡ true
          → violated i k rule v pending c (b, h.0.0)
            ≡ ([], quiet (some b) (next_cycles pending c b))
      pends early = rw early

      fires :
          ltb (next_cycles pending c b) rule.debounce_cycles ≡ false
          → violated i k rule v pending c (b, h.0.0) ≡ (
            raised_transition i k rule v (b, h.0.0) ∷ [],
            active (raised_state i rule (b, h.0.0)),
          )
      fires late = rw late

  -- With one rule and a mode that is not muted: from any state with no alarm, a run of one or more
  -- known values that all break the limit of one boundary, no fewer than the rule's debounce, ends
  -- with an alarm of that boundary.
  pub debounce_raises :
      (i : EvaluateInput V) (k : String) (rule : AlarmRule V) (b : AlarmBoundary) (vs : List V)
      (pending : Option AlarmBoundary) (c : ℕ)
      → is_muted i.mode ≡ false
      → OrderedAt n rule.hysteresis
      → All (Violates n rule b) vs
      → 0 < length vs
      → rule.debounce_cycles ≤ length vs
      → Stands b (watch n i k rule (quiet pending c) (known vs))
  debounce_raises i k rule b vs pending c m o h pos le =
      rises i k rule b vs pending c m o h pos (omega arith)

  -- In a muted mode every metric of the device ends the cycle with no alarm and nothing pending, and
  -- the cycle reports the clear of its alarm if one stood, and nothing else.
  pub muted_releases :
      (i : EvaluateInput V) (k : String)
      → is_muted i.mode ≡ true
      → (state_of (evaluate_device_alarms n i).1 k ≡ idle_alarm_state)
        × (of_metric k (evaluate_device_alarms n i).0
            ≡ release_report i k (state_of i.prev_state k) (usable_value (lookup k i.metrics)))
  unfolding evaluate_metric release
  muted_releases i k m =
      let own = evaluate_device_alarms-own n i k in
      elim (state_cases (state_of i.prev_state k)) [
        | inl (pending, c, e) ↦ ground (arith, own, e)
        | inr (a, e) ↦ ground (arith, own, e)
      ]
