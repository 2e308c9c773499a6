-- ===== src/Line/Watch.antt =====
-- What holds of a worker of services/edge-collector/src/polling/line-worker.ts over any history of
-- passes, answers, watchdog alarms and answers that come too late.
use mathlib.Core.Path.{subst}
use fieldstream.Common.{
  ℕ, zero, suc, ◌+◌, ◌≤◌, ◌<◌, ◌≡◌, refl, sym, ap, ◌∙◌, Option, none, some, List, [], ◌∷◌, arith,
  length, All,
}
use fieldstream.ReadPlan.{Collation}
use fieldstream.Polling.{cycle_watchdog_ms}
use fieldstream.Line.{Line, reconnect_history, publish_status, set_plan_mode, set_poll_interval}
use fieldstream.Line.Pass.{Progress, waits, reports, throws, Wake, begin, wake}
use fieldstream.Line.Lifecycle.{
  Waiting, System, Event, begins, wakes, trips, wakes_abandoned, closes, changes_mode,
  changes_interval, closes_cycle, progressed, without_place, nth, still_waiting, begun, woken_pass,
  tripped, woken_late, step, run,
}
use fieldstream.Line.Stray.{Calm, SamePass, SameReadings, wake-Calm, begin-Calm, wake-stale}

abbrev OfGeneration : ℕ → Option Waiting → Type 0
OfGeneration g none = Unit
OfGeneration g (some w) = w.pass.generation ≡ g

abbrev pub Older : ℕ → List Waiting → Type 0
Older g ws = All (λ w. w.pass.generation < g) ws

pub record Inv (s : System) : Type 0 where
  pub own : OfGeneration s.line.generation s.current
  pub older : Older s.line.generation s.abandoned
  pub history : length s.line.reconnects ≤ reconnect_history
  pub trips : s.line.watchdog_trips ≤ s.line.generation

Older-nth :
    (g k : ℕ) (ws : List Waiting) (w : Waiting)
    → Older g ws
    → nth k ws ≡ some w
    → w.pass.generation < g
Older-nth g k [] w h e = cc
Older-nth g zero (v ∷ ws) w h e = ground (arith, h.0, e)
Older-nth g (suc k) (v ∷ ws) w h e = Older-nth g k ws w h.1 e

Older-without_place : (g k : ℕ) (ws : List Waiting) → Older g ws → Older g (without_place k ws)
Older-without_place g k [] h = tt
Older-without_place g zero (v ∷ ws) h = h.1
Older-without_place g (suc k) (v ∷ ws) h = (h.0, Older-without_place g k ws h.1)

Older-suc : (g : ℕ) (ws : List Waiting) → Older g ws → Older (g + 1) ws
Older-suc g [] h = tt
Older-suc g (w ∷ ws) h = (omega (arith, h.0), Older-suc g ws h.1)

Older-same : (g g' : ℕ) (ws : List Waiting) → g' ≡ g → Older g ws → Older g' ws
Older-same g g' [] e h = tt
Older-same g g' (w ∷ ws) e h = (omega (arith, e, h.0), Older-same g g' ws e h.1)

progressed-Inv :
    (s : System) (l : Line) (begun_at now : ℕ) (r : Line × Progress)
    → Inv s
    → l.generation ≡ s.line.generation
    → l.watchdog_trips ≡ s.line.watchdog_trips
    → l.reconnects ≡ s.line.reconnects
    → Calm l s.line.generation r
    → Inv (progressed s begun_at now r)
unfolding progressed closes_cycle publish_status
progressed-Inv s l begun_at now (l', waits wait pass) v same_g same_t same_r calm = record {
  own = calm.pass ∙ sym same_g ∙ sym calm.same_generation;
  older =
      Older-same s.line.generation l'.generation s.abandoned (calm.same_generation ∙ same_g)
        v.older;
  history = calm.history (omega (arith, ap length same_r, v.history));
  trips = omega (arith, calm.same_trips, calm.same_generation, same_g, same_t, v.trips);
}
progressed-Inv s l begun_at now (l', reports report) v same_g same_t same_r calm = record {
  own = tt;
  older =
      Older-same s.line.generation l'.generation s.abandoned (calm.same_generation ∙ same_g)
        v.older;
  history = calm.history (omega (arith, ap length same_r, v.history));
  trips = omega (arith, calm.same_trips, calm.same_generation, same_g, same_t, v.trips);
}
progressed-Inv s l begun_at now (l', throws) v same_g same_t same_r calm = record {
  own = tt;
  older = Older-suc l'.generation s.abandoned (
      Older-same s.line.generation l'.generation s.abandoned (calm.same_generation ∙ same_g)
        v.older);
  history = calm.history (omega (arith, ap length same_r, v.history));
  trips = omega (arith, calm.same_trips, calm.same_generation, same_g, same_t, v.trips);
}

abbrev pub started : Line → System
started l = record { line = l; current = none; abandoned = []; done = [] }

module _ (collate : Collation) where
  still_waiting-Older :
      (g : ℕ) (w : Waiting) (pr : Progress) (ws : List Waiting)
      → w.pass.generation < g
      → SamePass w.pass.generation pr
      → Older g ws
      → Older g (still_waiting w pr ws)
  still_waiting-Older g w (waits wait pass) ws lt same h = (omega (arith, lt, same), h)
  still_waiting-Older g w (reports report) ws lt same h = h
  still_waiting-Older g w throws ws lt same h = h

  woken_late-Inv :
      (s : System) (k : ℕ) (a : Wake) (found : Option Waiting)
      → nth k s.abandoned ≡ found
      → Inv s
      → Inv (woken_late collate found k a s)
  unfolding woken_late
  woken_late-Inv s k a none e v = v
  woken_late-Inv s k a (some w) e v =
      let calm = wake-Calm collate s.line w.pass w.wait a in
      let late = wake collate s.line w.pass w.wait a in
      record {
        own = own_kept s.current v.own calm.same_generation;
        older =
            still_waiting-Older late.0.generation w late.1 (without_place k s.abandoned)
              (omega (
                arith,
                calm.same_generation,
                Older-nth s.line.generation k s.abandoned w v.older e,
              ))
              calm.pass
              (Older-without_place late.0.generation k s.abandoned (
                Older-same s.line.generation late.0.generation s.abandoned calm.same_generation
                  v.older));
        history = calm.history v.history;
        trips = omega (arith, calm.same_trips, calm.same_generation, v.trips);
      }
    where
      own_kept :
          {g g' : ℕ} (current : Option Waiting)
          → OfGeneration g current
          → g' ≡ g
          → OfGeneration g' current
      own_kept none h e = tt
      own_kept (some w) h e = h ∙ sym e

  begun-Inv :
      (s : System) (now trace_id : ℕ) (current : Option Waiting)
      → Inv s
      → Inv (begun collate current now trace_id s)
  unfolding begun
  begun-Inv s now trace_id (some w) v = v
  begun-Inv s now trace_id none v =
      let l = record s.line { cycle_limit_ms = some (cycle_watchdog_ms s.line.poll_interval_ms) } in
      progressed-Inv s l now now (begin collate l now trace_id) v refl refl refl
        (begin-Calm collate l now trace_id)

  woken_pass-Inv :
      (s : System) (a : Wake) (now : ℕ) (current : Option Waiting)
      → OfGeneration s.line.generation current
      → Inv s
      → Inv (woken_pass collate current a now s)
  unfolding woken_pass
  woken_pass-Inv s a now none own v = v
  woken_pass-Inv s a now (some w) own v =
      progressed-Inv s s.line w.begun_at now (wake collate s.line w.pass w.wait a) v refl refl refl
        (subst (λ g. Calm s.line g (wake collate s.line w.pass w.wait a)) own
          (wake-Calm collate s.line w.pass w.wait a))

  tripped-Inv :
      (s : System) (now : ℕ) (current : Option Waiting)
      → OfGeneration s.line.generation current
      → Inv s
      → Inv (tripped collate current now s)
  unfolding tripped closes_cycle publish_status
  tripped-Inv s now none own v = v
  tripped-Inv s now (some w) own v = record {
    own = tt;
    older = (omega (arith, own), Older-suc s.line.generation s.abandoned v.older);
    history = v.history;
    trips = omega (arith, v.trips);
  }

  step-Inv : (e : Event) (s : System) → Inv s → Inv (step collate e s)
  unfolding step set_plan_mode set_poll_interval publish_status
  step-Inv (begins now trace_id) s v = begun-Inv s now trace_id s.current v
  step-Inv (wakes answer now) s v = woken_pass-Inv s answer now s.current v.own v
  step-Inv (trips now) s v = tripped-Inv s now s.current v.own v
  step-Inv (wakes_abandoned k answer) s v = woken_late-Inv s k answer (nth k s.abandoned) refl v
  step-Inv closes s v = record {
    own = v.own;
    older = v.older;
    history = v.history;
    trips = v.trips;
  }
  step-Inv (changes_mode mode now) s v = record {
    own = v.own;
    older = v.older;
    history = v.history;
    trips = v.trips;
  }
  step-Inv (changes_interval ms now) s v = record {
    own = v.own;
    older = v.older;
    history = v.history;
    trips = v.trips;
  }

  run-Inv : (es : List Event) (s : System) → Inv s → Inv (run collate es s)
  unfolding run
  run-Inv [] s v = v
  run-Inv (e ∷ es) s v = run-Inv es (step collate e s) (step-Inv e s v)

  woken_late-SameReadings :
      (s : System) (k : ℕ) (a : Wake) (found : Option Waiting)
      → nth k s.abandoned ≡ found
      → Inv s
      → SameReadings s.line (woken_late collate found k a s).line
  unfolding woken_late
  woken_late-SameReadings s k a none e v = ground arith
  woken_late-SameReadings s k a (some w) e v =
      wake-stale collate s.line w.pass w.wait a
        (ground (arith, Older-nth s.line.generation k s.abandoned w v.older e))

  -- After any history of a worker that starts with no pass under way: a pass under way is of the
  -- worker's generation and every abandoned one of an older generation, at most twelve reconnection
  -- steps are remembered, and there were no more watchdog alarms than generations.
  pub worker_run-Inv :
      (l : Line) (es : List Event)
      → length l.reconnects ≤ reconnect_history
      → l.watchdog_trips ≤ l.generation
      → Inv (run collate es (started l))
  worker_run-Inv l es short few =
      run-Inv es (started l) (record { own = tt; older = tt; history = short; trips = few })

  -- After any such history, an answer that comes to an abandoned pass changes no breaker, adds no
  -- frame and no response time, and publishes no status of the line.
  pub late_answer-SameReadings :
      (l : Line) (es : List Event) (k : ℕ) (a : Wake)
      → length l.reconnects ≤ reconnect_history
      → l.watchdog_trips ≤ l.generation
      → SameReadings
          (run collate es (started l)).line
          (step collate (wakes_abandoned k a) (run collate es (started l))).line
  unfolding step
  late_answer-SameReadings l es k a short few =
      let s = run collate es (started l) in
      woken_late-SameReadings s k a (nth k s.abandoned) refl (worker_run-Inv l es short few)
