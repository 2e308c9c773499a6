-- ===== src/Line/Stray.antt =====
-- What passes that the watchdog has abandoned can still do to the worker of
-- services/edge-collector/src/polling/line-worker.ts.
use fieldstream.Common.{
  ℕ, ◌-◌, ◌≤◌, ◌≡◌, refl, inl, inr, true, false, not, some, List, [], ◌∷◌, arith, ◌==◌,
  if◌then◌else◌, length, keep, Bool-cases, length-drop,
}
use fieldstream.ReadPlan.{Collation, ReadPlan, Built, built, thrown}
use fieldstream.Breaker.{breaker_allows}
use fieldstream.Polling.Device.{poll_device}
use fieldstream.Line.{idle, Line, Slot, reconnect_history, publish_status}
use fieldstream.Line.Pass.{
  Pass, Wait, connecting, reading, Progress, waits, reports, throws, Wake, port_opened,
  port_refused, port_answered, refused, report_unreachable, take_poll, keep_last, counted_poll,
  idle_delay_ms, plan_for, start_reading, loop_head, begin, wake_slot, wake, finished,
}

abbrev pub SamePass : ℕ → Progress → Type 0
SamePass g (waits wait p) = p.generation ≡ g
SamePass g _ = Unit

-- A step of a pass of generation `g` leaves the worker's generation and watchdog alone.
pub record Calm (l : Line) (g : ℕ) (r : Line × Progress) : Type 0 where
  pub same_generation : r.0.generation ≡ l.generation
  pub same_trips : r.0.watchdog_trips ≡ l.watchdog_trips
  pub history : length l.reconnects ≤ reconnect_history → length r.0.reconnects ≤ reconnect_history
  pub pass : SamePass g r.1

-- What the readings of devices are kept in.
pub record SameReadings (l l' : Line) : Type 0 where
  pub same_breakers : l'.breakers ≡ l.breakers
  pub same_frames : l'.frames ≡ l.frames
  pub same_latency : l'.latency ≡ l.latency
  pub same_statuses : l'.statuses ≡ l.statuses

keep_last-short : {A : Type 0} (n : ℕ) (xs : List A) → length (keep_last n xs) ≤ n
keep_last-short n xs = omega (arith, length-drop (length xs - n) xs)

module _ (collate : Collation) where
  start_reading-Calm :
      (l : Line) (p : Pass) (slot : Slot) → Calm l p.generation (start_reading collate l p slot)
  unfolding start_reading
  start_reading-Calm l p slot = by_plan (plan_for collate l slot)
    where
      by_plan :
          (b : Built ReadPlan)
          → Calm l p.generation
              (elim b [ built plan ↦ (l, waits (reading plan) p) | thrown e ↦ (l, throws) ])
      by_plan (built plan) = ground arith
      by_plan (thrown e) = ground arith

  start_reading-SameReadings :
      (l : Line) (p : Pass) (slot : Slot) → SameReadings l (start_reading collate l p slot).0
  unfolding start_reading
  start_reading-SameReadings l p slot = by_plan (plan_for collate l slot)
    where
      by_plan :
          (b : Built ReadPlan)
          → SameReadings l
              (elim b as (λ _. Line × Progress) [
                | built plan ↦ (l, waits (reading plan) p)
                | thrown e ↦ (l, throws)
              ]).0
      by_plan (built plan) = ground arith
      by_plan (thrown e) = ground arith

  loop_head-Calm : (l : Line) (p : Pass) (now : ℕ) → Calm l p.generation (loop_head collate l p now)
  unfolding loop_head
  loop_head-Calm l p now = by_slots p.remaining
    where
      by_slots :
          (ss : List Slot)
          → Calm l p.generation (elim ss [
            | [] ↦ (l, reports (finished l p now))
            | slot ∷ rest ↦
                if not (p.generation == l.generation)
                then (l, reports (finished l p now))
                else if l.connected
                then start_reading collate l p slot
                else (l, waits connecting p)
          ])
      by_slots [] = ground arith
      by_slots (slot ∷ rest) = ground (arith, start_reading-Calm l p slot)

  wake_slot-Calm :
      (l : Line) (p : Pass) (w : Wait) (a : Wake) (slot : Slot) (rest : List Slot)
      → Calm l p.generation (wake_slot collate l p w a slot rest)
  unfolding wake_slot refused report_unreachable take_poll
  wake_slot-Calm l p connecting (port_opened now) slot rest =
      let calm = start_reading-Calm (record l { connected = true; reconnect_attempt = 0 }) p slot in
      record {
        same_generation = calm.same_generation;
        same_trips = calm.same_trips;
        history = calm.history;
        pass = calm.pass;
      }
  wake_slot-Calm l p connecting (port_refused error jitter now) slot rest = record {
    same_generation = refl;
    same_trips = refl;
    history = λ _. omega (arith, keep_last-short reconnect_history _);
    pass = tt;
  }
  wake_slot-Calm l p (reading plan) (port_answered answer started ended) slot rest =
      elim (Bool-cases (p.generation == l.generation)) [
        | inl own ↦
            let poll = poll_device answer started ended plan.blocks in
            let calm =
              loop_head-Calm (take_poll l p slot poll ended) (counted_poll p poll rest) ended in
            rw (own, wake_slot)
              (record {
                same_generation = calm.same_generation;
                same_trips = calm.same_trips;
                history = calm.history;
                pass = calm.pass;
              })
        | inr stale ↦ rw (stale, wake_slot) (ground arith)
      ]
  wake_slot-Calm l p connecting (port_answered answer started ended) slot rest = ground arith
  wake_slot-Calm l p (reading plan) (port_opened now) slot rest = ground arith
  wake_slot-Calm l p (reading plan) (port_refused error jitter now) slot rest = ground arith

  pub wake-Calm :
      (l : Line) (p : Pass) (w : Wait) (a : Wake) → Calm l p.generation (wake collate l p w a)
  unfolding wake
  wake-Calm l p w a = by_slots p.remaining
    where
      by_slots :
          (ss : List Slot)
          → Calm l p.generation
              (elim ss [ [] ↦ (l, waits w p) | slot ∷ rest ↦ wake_slot collate l p w a slot rest ])
      by_slots [] = ground arith
      by_slots (slot ∷ rest) = wake_slot-Calm l p w a slot rest

  pub begin-Calm :
      (l : Line) (now trace_id : ℕ) → Calm l l.generation (begin collate l now trace_id)
  unfolding begin publish_status
  begin-Calm l now trace_id = by_due (keep (λ s. breaker_allows (l.breakers s.place) now) l.slots)
    where
      by_due :
          (due : List Slot)
          → Calm l l.generation (elim due [
            | [] ↦ (
              l,
              reports (record {
                outcome = idle;
                duration_ms = 0;
                polled = 0;
                failed = 0;
                next_delay_ms = idle_delay_ms l now;
              }),
            )
            | first ∷ rest ↦
                loop_head collate
                  (publish_status (record l { cycle_started_at = some now }) now)
                  (record {
                    generation = l.generation;
                    trace_id = trace_id;
                    started_at = now;
                    remaining = first ∷ rest;
                    polled_so_far = 0;
                    failed_so_far = 0;
                  })
                  now
          ])
      by_due [] = ground arith
      by_due (first ∷ rest) =
          let calm =
            loop_head-Calm (publish_status (record l { cycle_started_at = some now }) now)
              (record {
                generation = l.generation;
                trace_id = trace_id;
                started_at = now;
                remaining = first ∷ rest;
                polled_so_far = 0;
                failed_so_far = 0;
              })
              now in
          record {
            same_generation = calm.same_generation;
            same_trips = calm.same_trips;
            history = calm.history;
            pass = calm.pass;
          }

  -- A pass of an old generation leaves the readings as they are.
  wake_slot-stale :
      (l : Line) (p : Pass) (w : Wait) (a : Wake) (slot : Slot) (rest : List Slot)
      → (p.generation == l.generation) ≡ false
      → SameReadings l (wake_slot collate l p w a slot rest).0
  unfolding wake_slot refused report_unreachable
  wake_slot-stale l p connecting (port_opened now) slot rest old =
      let same =
        start_reading-SameReadings (record l { connected = true; reconnect_attempt = 0 }) p slot in
      record {
        same_breakers = same.same_breakers;
        same_frames = same.same_frames;
        same_latency = same.same_latency;
        same_statuses = same.same_statuses;
      }
  wake_slot-stale l p connecting (port_refused error jitter now) slot rest old = ground arith
  wake_slot-stale l p (reading plan) (port_answered answer started ended) slot rest old =
      rw (old, wake_slot) (ground arith)
  wake_slot-stale l p connecting (port_answered answer started ended) slot rest old = ground arith
  wake_slot-stale l p (reading plan) (port_opened now) slot rest old = ground arith
  wake_slot-stale l p (reading plan) (port_refused error jitter now) slot rest old = ground arith

  pub wake-stale :
      (l : Line) (p : Pass) (w : Wait) (a : Wake)
      → (p.generation == l.generation) ≡ false
      → SameReadings l (wake collate l p w a).0
  unfolding wake
  wake-stale l p w a old = by_slots p.remaining
    where
      by_slots :
          (ss : List Slot)
          → SameReadings l
              (elim ss as (λ _. Line × Progress) [
                | [] ↦ (l, waits w p)
                | slot ∷ rest ↦ wake_slot collate l p w a slot rest
              ]).0
      by_slots [] = ground arith
      by_slots (slot ∷ rest) = wake_slot-stale l p w a slot rest old
