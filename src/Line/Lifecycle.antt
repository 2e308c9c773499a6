-- ===== src/Line/Lifecycle.antt =====
-- The passes of one worker in turn: `guardedCycle` and `runCycle` of
-- services/edge-collector/src/polling/line-worker.ts, with the watchdog, and with the passes that it
-- has abandoned, which still wait for their answers.
use fieldstream.Common.{ℕ, zero, suc, ◌+◌, ◌-◌, false, Option, none, some, List, [], ◌∷◌, ◌++◌}
use fieldstream.ReadPlan.{Collation, PlanMode}
use fieldstream.Polling.{cycle_watchdog_ms}
use fieldstream.Line.{
  Line, CycleReport, watchdog, watchdog_retry_ms, publish_status, set_plan_mode, set_poll_interval,
}
use fieldstream.Line.Pass.{Pass, Wait, Progress, waits, reports, throws, Wake, begin, wake}

pub record Waiting : Type 0 where
  pub wait : Wait
  pub pass : Pass
  pub begun_at : ℕ

pub record System : Type 0 where
  pub line : Line
  pub current : Option Waiting
  pub abandoned : List Waiting
  pub done : List CycleReport

pub data Event : Type 0 where
  -- The loop starts a pass, at a time, under a trace number.
  begins : ℕ → ℕ → Event
  -- The pass is woken; it reads the clock at its end a second time.
  wakes : Wake → ℕ → Event
  -- The watchdog's timer goes off.
  trips : ℕ → Event
  -- An abandoned pass, by its place, is woken.
  wakes_abandoned : ℕ → Wake → Event
  -- The port closes by itself.
  closes : Event
  changes_mode : PlanMode → ℕ → Event
  changes_interval : ℕ → ℕ → Event

-- `guardedCycle` gives up on a pass.
abbrev pub watchdog_report : ℕ → ℕ → CycleReport
watchdog_report started_at now = record {
  outcome = watchdog;
  duration_ms = now - started_at;
  polled = 0;
  failed = 0;
  next_delay_ms = watchdog_retry_ms;
}

abbrev pub given_up : Line → Line
given_up l = record l { generation = l.generation + 1; connected = false }

-- The rest of `runCycle`, after its report.
unfoldable pub closes_cycle : Line → CycleReport → ℕ → Line
unfolding publish_status
closes_cycle l report now =
    publish_status
      (record l {
        cycle_started_at = none;
        cycle_limit_ms = none;
        last_cycle = some (record { at = now; report = report });
      })
      now

unfoldable pub progressed : System → ℕ → ℕ → Line × Progress → System
unfolding closes_cycle
progressed s begun_at now (l, waits wait pass) = record s {
  line = l;
  current = some (record { wait = wait; pass = pass; begun_at = begun_at });
}
progressed s begun_at now (l, reports report) = record s {
  line = closes_cycle l report now;
  current = none;
  done = s.done ++ report ∷ [];
}
progressed s begun_at now (l, throws) =
    let report = watchdog_report begun_at now in
    record s {
      line = closes_cycle (given_up l) report now;
      current = none;
      done = s.done ++ report ∷ [];
    }

abbrev pub without_place : ℕ → List Waiting → List Waiting
without_place k [] = []
without_place zero (w ∷ ws) = ws
without_place (suc k) (w ∷ ws) = w ∷ without_place k ws

abbrev pub nth : ℕ → List Waiting → Option Waiting
nth k [] = none
nth zero (w ∷ ws) = some w
nth (suc k) (w ∷ ws) = nth k ws

-- Nobody waits for what an abandoned pass returns or throws.
abbrev pub still_waiting : Waiting → Progress → List Waiting → List Waiting
still_waiting w (waits wait pass) rest = record w { wait = wait; pass = pass } ∷ rest
still_waiting w _ rest = rest

module _ (collate : Collation) where
  -- A pass begins where none is under way.
  unfoldable pub begun : Option Waiting → ℕ → ℕ → System → System
  unfolding begin progressed cycle_watchdog_ms
  begun (some w) now trace_id s = s
  begun none now trace_id s = progressed s now now (
      begin collate
        (record s.line { cycle_limit_ms = some (cycle_watchdog_ms s.line.poll_interval_ms) }) now
        trace_id)

  unfoldable pub woken_pass : Option Waiting → Wake → ℕ → System → System
  unfolding wake progressed
  woken_pass none answer now s = s
  woken_pass (some w) answer now s =
      progressed s w.begun_at now (wake collate s.line w.pass w.wait answer)

  -- The hard timeout of `guardedCycle`.
  unfoldable pub tripped : Option Waiting → ℕ → System → System
  unfolding closes_cycle
  tripped none now s = s
  tripped (some w) now s =
      let report = watchdog_report w.begun_at now in
      record s {
        line =
            closes_cycle (record (given_up s.line) { watchdog_trips = s.line.watchdog_trips + 1 })
              report now;
        current = none;
        abandoned = w ∷ s.abandoned;
        done = s.done ++ report ∷ [];
      }

  unfoldable pub woken_late : Option Waiting → ℕ → Wake → System → System
  unfolding wake
  woken_late none k answer s = s
  woken_late (some w) k answer s =
      let late = wake collate s.line w.pass w.wait answer in
      record s { line = late.0; abandoned = still_waiting w late.1 (without_place k s.abandoned) }

  unfoldable pub step : Event → System → System
  unfolding begun woken_pass tripped woken_late set_plan_mode set_poll_interval
  step (begins now trace_id) s = begun s.current now trace_id s
  step (wakes answer now) s = woken_pass s.current answer now s
  step (trips now) s = tripped s.current now s
  step (wakes_abandoned k answer) s = woken_late (nth k s.abandoned) k answer s
  step closes s = record s { line = record s.line { connected = false } }
  step (changes_mode mode now) s = record s { line = set_plan_mode s.line mode now }
  step (changes_interval ms now) s = record s { line = set_poll_interval s.line ms now }

  unfoldable pub run : List Event → System → System
  run [] s = s
  run (e ∷ es) s = run es (step e s)
