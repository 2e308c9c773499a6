-- ===== src/Alarms/Debounce.antt =====
-- When an alarm of one metric is raised and when it is let go: debounce, hysteresis and muted modes
-- of packages/domain/src/alarms.ts.
use Prim.Native.String.{String}
use native.Mathlib.Numerals.{add-one}
use mathlib.Core.Path.{subst}
use fieldstream.Common.{
  ltb, Bool-cases, inl, inr, ℕ, suc, zero, ◌≤◌, ◌≡◌, refl, false, Option, none, some, List, [], ◌∷◌,
  arith, All, length, take,
}
use fieldstream.Contracts.{Numbers, AlarmRule, is_muted}
use fieldstream.Alarms.{
  EvaluateInput, MetricAlarmState, quiet, active, RaisedAlarm, idle_alarm_state, AlarmBoundary,
  at_min, at_max, judge, next_cycles, evaluate_metric, detect_violation,
}

module _ {V : Type 0} (n : Numbers V) where
  -- The value breaks the limit of the rule that stands for the boundary.
  abbrev pub Violates : AlarmRule V → AlarmBoundary → V → Type 0
  Violates rule b v = (limit : V) × (detect_violation n rule v ≡ some (b, limit))

  -- The state of one metric over cycles whose mode is not muted and whose rule is `rule`; a value
  -- that is missing or bad is `none`.
  abbrev pub watch :
      EvaluateInput V
      → String
      → AlarmRule V
      → MetricAlarmState V
      → List (Option V)
      → MetricAlarmState V
  watch i k rule s [] = s
  watch i k rule s (v ∷ vs) = watch i k rule (evaluate_metric n i k (some rule) s v).1 vs

  -- The known values, the newest first.
  abbrev pub newest : List V → List (Option V) → List V
  newest seen [] = seen
  newest seen (none ∷ vs) = newest seen vs
  newest seen (some v ∷ vs) = newest (v ∷ seen) vs

  abbrev Streak : AlarmRule V → MetricAlarmState V → List V → Type 0
  Streak rule (quiet none c) seen = c ≡ 0
  Streak rule (quiet (some b) c) seen = (c ≤ length seen) × All (Violates rule b) (take c seen)
  Streak rule (active a) seen = Unit

  Streak-grows :
      (rule : AlarmRule V) (pending : Option AlarmBoundary) (c : ℕ) (seen : List V) (v : V)
      (b : AlarmBoundary) (limit : V)
      → Streak rule (quiet pending c) seen
      → detect_violation n rule v ≡ some (b, limit)
      → (next_cycles pending c b ≤ length (v ∷ seen))
        × All (Violates rule b) (take (next_cycles pending c b) (v ∷ seen))
  Streak-grows rule none c seen v b limit h e = (omega arith, ((limit, e), tt))
  Streak-grows rule (some at_min) c seen v at_min limit h e =
      (omega (arith, h.0), rw (add-one c) ((limit, e), h.1))
  Streak-grows rule (some at_max) c seen v at_max limit h e =
      (omega (arith, h.0), rw (add-one c) ((limit, e), h.1))
  Streak-grows rule (some at_min) c seen v at_max limit h e = (omega arith, ((limit, e), tt))
  Streak-grows rule (some at_max) c seen v at_min limit h e = (omega arith, ((limit, e), tt))

  judge-Streak :
      (i : EvaluateInput V) (k : String) (rule : AlarmRule V) (s : MetricAlarmState V)
      (seen : List V) (v : V)
      → Streak rule s seen
      → Streak rule (judge n i k rule v s).1 (v ∷ seen)
  unfolding judge
  judge-Streak i k rule (active prev) seen v h = ground arith
  judge-Streak i k rule (quiet pending c) seen v h = of_violation (detect_violation n rule v) refl
    where
      of_violation :
          (o : Option (AlarmBoundary × V))
          → detect_violation n rule v ≡ o
          → Streak rule (judge n i k rule v (quiet pending c)).1 (v ∷ seen)
      of_violation none e = rw (e, judge) refl
      of_violation (some (b, limit)) e =
          let grown = Streak-grows rule pending c seen v b limit h e in
          elim (Bool-cases (ltb (next_cycles pending c b) rule.debounce_cycles)) [
            | inl early ↦ rw (e, judge) (rw early grown)
            | inr late ↦ rw (e, judge) (rw late tt)
          ]

  watch-Streak :
      (i : EvaluateInput V) (k : String) (rule : AlarmRule V) (s : MetricAlarmState V)
      (seen : List V) (vs : List (Option V))
      → is_muted i.mode ≡ false
      → Streak rule s seen
      → Streak rule (watch i k rule s vs) (newest seen vs)
  unfolding evaluate_metric
  watch-Streak i k rule s seen [] m h = h
  watch-Streak i k rule s seen (none ∷ vs) m h = rw m (watch-Streak i k rule s seen vs m h)
  watch-Streak i k rule s seen (some v ∷ vs) m h = rw m (
      watch-Streak i k rule (judge n i k rule v s).1 (v ∷ seen) vs m
        (judge-Streak i k rule s seen v h))

  All-take-le :
      (rule : AlarmRule V) (b : AlarmBoundary) (j m : ℕ) (xs : List V)
      → j ≤ m
      → All (Violates rule b) (take m xs)
      → All (Violates rule b) (take j xs)
  All-take-le rule b zero m xs le h = tt
  All-take-le rule b (suc j) zero xs le h = absurd (omega arith)
  All-take-le rule b (suc j) (suc m) [] le h = tt
  All-take-le rule b (suc j) (suc m) (x ∷ xs) le h =
      (h.0, All-take-le rule b j m xs (omega arith) h.1)

  raise_of_Streak :
      (i : EvaluateInput V) (k : String) (rule : AlarmRule V) (pending : Option AlarmBoundary)
      (c : ℕ) (seen : List V) (v : V) (a : RaisedAlarm V)
      → Streak rule (quiet pending c) seen
      → (judge n i k rule v (quiet pending c)).1 ≡ active a
      → (rule.debounce_cycles ≤ length (v ∷ seen))
        × All (Violates rule a.boundary) (take rule.debounce_cycles (v ∷ seen))
  unfolding judge
  raise_of_Streak i k rule pending c seen v a h up = of_violation (detect_violation n rule v) refl
    where
      of_violation :
          (o : Option (AlarmBoundary × V))
          → detect_violation n rule v ≡ o
          → (rule.debounce_cycles ≤ length (v ∷ seen))
            × All (Violates rule a.boundary) (take rule.debounce_cycles (v ∷ seen))
      of_violation none e = absurd (ground arith)
      of_violation (some (b, limit)) e =
          let grown = Streak-grows rule pending c seen v b limit h e in
          let (same, enough) : (a.boundary ≡ b) × (rule.debounce_cycles ≤ next_cycles pending c b) =
            ground arith in
          (
            omega (arith, grown.0, enough),
            rw same (
                All-take-le rule b rule.debounce_cycles (next_cycles pending c b) (v ∷ seen) enough
                  grown.1),
          )

  -- With one rule and a mode that is not muted, starting from no alarm: if the metric is quiet after
  -- the values `vs`, and the next known value `v` raises an alarm, then as many of the newest known
  -- values, `v` included, as the rule's debounce asks for exist and all break the limit that the
  -- alarm names. Missing and bad values neither count nor interrupt.
  pub raise_needs_debounce :
      (i : EvaluateInput V) (k : String) (rule : AlarmRule V) (vs : List (Option V)) (v : V)
      (pending : Option AlarmBoundary) (c : ℕ) (a : RaisedAlarm V)
      → is_muted i.mode ≡ false
      → watch i k rule idle_alarm_state vs ≡ quiet pending c
      → (evaluate_metric n i k (some rule) (quiet pending c) (some v)).1 ≡ active a
      → (rule.debounce_cycles ≤ length (v ∷ newest [] vs))
        × All (Violates rule a.boundary) (take rule.debounce_cycles (v ∷ newest [] vs))
  unfolding evaluate_metric
  raise_needs_debounce i k rule vs v pending c a m calm up =
      raise_of_Streak i k rule pending c (newest [] vs) v a
        (subst (λ s. Streak rule s (newest [] vs)) calm
          (watch-Streak i k rule idle_alarm_state [] vs m refl))
        (rw m at up)
