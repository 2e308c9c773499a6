-- ===== src/Line/Pass.antt =====
-- One pass over a line: `pollLine`, `ensureLink` and `reportUnreachable` of
-- services/edge-collector/src/polling/line-worker.ts. The pass runs from one wait to the next; an
-- answer wakes it where it waits. The clock is read once after an answer.
use fieldstream.Common.{
  ℕ, ◌+◌, ◌-◌, min, Bool, true, false, not, ◌&&◌, Option, none, some, List, [], ◌∷◌, ◌++◌, ◌==◌,
  if◌then◌else◌, length, drop, keep, map,
}
use fieldstream.Common.Int.{ℤ}
use fieldstream.Breaker.{Breaker, breaker_allows, breaker_view, record_success, record_failure}
use fieldstream.ReadPlan.{Collation, ReadPlan, Built, built, thrown, build_device_read_plan}
use fieldstream.Polling.{
  ErrorKind, Failure, classify_error, needs_reconnect, BackoffStep, reconnect_delay,
}
use fieldstream.Polling.Latency.{
  answered, unanswered, LatencyTracker, record_outcome, latency_window_size,
}
use fieldstream.Polling.Device.{Answer, DevicePoll, poll_device}
use fieldstream.Line.Frames.{build_raw_frame, build_poll_cycle}
use fieldstream.Line.{
  Slot, PollCycle, polled, idle, disconnected, CycleReport, Line, reconnect_history, publish_status,
}

-- A pass that has begun: the slots still to be asked, and what it has counted.
pub record Pass : Type 0 where
  pub generation : ℕ
  pub trace_id : ℕ
  pub started_at : ℕ
  pub remaining : List Slot
  pub polled_so_far : ℕ
  pub failed_so_far : ℕ

-- Where a pass waits: for the port to open, or for the answers of the first of its slots to a plan.
pub data Wait : Type 0 where
  connecting : Wait
  reading : ReadPlan → Wait

pub data Progress : Type 0 where
  waits : Wait → Pass → Progress
  reports : CycleReport → Progress
  throws : Progress

-- What wakes a pass. A poll comes with the clock at its start and end.
pub data Wake : Type 0 where
  port_opened : ℕ → Wake
  port_refused : Failure → (ℕ → ℤ) → ℕ → Wake
  port_answered : (ℕ → Answer) → ℕ → ℕ → Wake

abbrev pub put_breaker : (ℕ → Breaker) → ℕ → Breaker → ℕ → Breaker
put_breaker breakers place b other = if other == place then b else breakers other

abbrev pub keep_last : {A : Type 0} → ℕ → List A → List A
keep_last n xs = drop (length xs - n) xs

abbrev pub finished : Line → Pass → ℕ → CycleReport
finished l p now = record {
  outcome = polled;
  duration_ms = now - p.started_at;
  polled = p.polled_so_far;
  failed = p.failed_so_far;
  next_delay_ms = l.poll_interval_ms - (now - p.started_at);
}

-- The cycle event of a slot that the port could not be opened for.
abbrev pub unreachable_cycle : Line → ErrorKind → BackoffStep → ℕ → ℕ → Slot → PollCycle
unreachable_cycle l kind step now trace_id slot =
    build_poll_cycle slot.context
      (record {
        ok = false;
        error_kind = some kind;
        duration_ms = 0;
        request_count = 0;
        plan_mode = l.plan_mode;
        backoff = some step;
        state = breaker_view (l.breakers slot.place) now;
        next_probe_at = (l.breakers slot.place).next_probe_at;
      })
      now trace_id

unfoldable pub report_unreachable : Line → List Slot → Failure → BackoffStep → ℕ → ℕ → Line
unfolding classify_error
report_unreachable l due error step now trace_id = record l {
  cycles = l.cycles ++ map (unreachable_cycle l (classify_error error) step now trace_id) due;
}

-- The branch of `ensureLink` that catches.
unfoldable pub refused : Line → BackoffStep → ℕ → Line
refused l step now = record l {
  reconnects =
      keep_last reconnect_history
        (l.reconnects ++ record { attempt = l.reconnect_attempt; at = now; step = step } ∷ []);
  reconnect_attempt = l.reconnect_attempt + 1;
}

-- The outcomes of a poll in the ring of response times.
abbrev pub record_durations : LatencyTracker → List ℕ → LatencyTracker
record_durations t [] = t
record_durations t (d ∷ ds) =
    record_durations (record_outcome latency_window_size t (answered d)) ds

abbrev pub record_poll : LatencyTracker → DevicePoll → LatencyTracker
record_poll t poll =
    let measured = record_durations t poll.request_durations_ms in
    if poll.timed_out then record_outcome latency_window_size measured unanswered else measured

abbrev pub next_breaker : Breaker → DevicePoll → ℕ → Breaker
next_breaker b poll now = if poll.ok then record_success else record_failure b now

abbrev pub poll_cycle : Line → DevicePoll → Breaker → ℕ → ℕ → Slot → PollCycle
poll_cycle l poll breaker now trace_id slot =
    build_poll_cycle slot.context
      (record {
        ok = poll.ok;
        error_kind = poll.error_kind;
        duration_ms = poll.duration_ms;
        request_count = poll.request_count;
        plan_mode = l.plan_mode;
        backoff = none;
        state = breaker_view breaker now;
        next_probe_at = breaker.next_probe_at;
      })
      now trace_id

abbrev pub drops_port : Option ErrorKind → Bool
drops_port none = false
drops_port (some kind) = needs_reconnect kind

-- What the loop does with the poll of a slot.
unfoldable pub take_poll : Line → Pass → Slot → DevicePoll → ℕ → Line
take_poll l p slot poll now =
    let breaker = next_breaker (l.breakers slot.place) poll now in
    record l {
      latency = record_poll l.latency poll;
      breakers = put_breaker l.breakers slot.place breaker;
      connected = if poll.ok then l.connected else l.connected && not (drops_port poll.error_kind);
      frames =
          if poll.ok
          then l.frames
            ++ build_raw_frame slot.context poll.blocks now poll.duration_ms p.trace_id ∷ []
          else l.frames;
      cycles = l.cycles ++ poll_cycle l poll breaker now p.trace_id slot ∷ [];
    }

abbrev pub counted_poll : Pass → DevicePoll → List Slot → Pass
counted_poll p poll rest = record p {
  remaining = rest;
  polled_so_far = p.polled_so_far + 1;
  failed_so_far = if poll.ok then p.failed_so_far else p.failed_so_far + 1;
}

abbrev pub next_probe : (ℕ → Breaker) → List Slot → Option ℕ
next_probe breakers [] = none
next_probe breakers (s ∷ ss) =
    let rest = next_probe breakers ss in
    elim (breakers s.place).next_probe_at [
      | none ↦ rest
      | some at ↦ elim rest [ none ↦ some at | some other ↦ some (min at other) ]
    ]

unfoldable pub idle_delay_ms : Line → ℕ → ℕ
idle_delay_ms l now = elim (next_probe l.breakers l.slots) [
  | none ↦ l.poll_interval_ms
  | some at ↦ min l.poll_interval_ms (at - now)
]

module _ (collate : Collation) where
  abbrev pub plan_for : Line → Slot → Built ReadPlan
  plan_for l slot = build_device_read_plan collate slot.context.profile (record {
    mode = some l.plan_mode;
    max_block_registers = none;
    max_gap_registers = none;
    ignore_declared_blocks = none;
  })

  -- `pollDevice` is called for the first slot.
  unfoldable pub start_reading : Line → Pass → Slot → Line × Progress
  start_reading l p slot = elim (plan_for l slot) [
    | built plan ↦ (l, waits (reading plan) p)
    | thrown e ↦ (l, throws)
  ]

  -- The head of the loop over the slots, to the next wait.
  unfoldable pub loop_head : Line → Pass → ℕ → Line × Progress
  unfolding start_reading
  loop_head l p now = elim p.remaining [
    | [] ↦ (l, reports (finished l p now))
    | slot ∷ rest ↦
        if not (p.generation == l.generation)
        then (l, reports (finished l p now))
        else if l.connected
        then start_reading l p slot
        else (l, waits connecting p)
  ]

  -- `pollLine` up to its first wait.
  unfoldable pub begin : Line → ℕ → ℕ → Line × Progress
  unfolding publish_status loop_head idle_delay_ms
  begin l started_at trace_id =
      let due = keep (λ s. breaker_allows (l.breakers s.place) started_at) l.slots in
      elim due [
        | [] ↦ (
          l,
          reports (record {
            outcome = idle;
            duration_ms = 0;
            polled = 0;
            failed = 0;
            next_delay_ms = idle_delay_ms l started_at;
          }),
        )
        | first ∷ rest ↦
            loop_head (publish_status (record l { cycle_started_at = some started_at }) started_at)
              (record {
                generation = l.generation;
                trace_id = trace_id;
                started_at = started_at;
                remaining = first ∷ rest;
                polled_so_far = 0;
                failed_so_far = 0;
              })
              started_at
      ]

  -- The pass goes on from the wait, for its first slot. No check of the generation stands between
  -- the opening of the port and the requests to the device.
  unfoldable pub wake_slot : Line → Pass → Wait → Wake → Slot → List Slot → Line × Progress
  unfolding report_unreachable refused take_poll loop_head start_reading reconnect_delay
  wake_slot l p connecting (port_opened now) slot rest =
      start_reading (record l { connected = true; reconnect_attempt = 0 }) p slot
  wake_slot l p connecting (port_refused error jitter now) slot rest =
      let step = reconnect_delay l.reconnect_attempt jitter in
      (
        report_unreachable (refused l step now) p.remaining error step now p.trace_id,
        reports (record {
          outcome = disconnected;
          duration_ms = now - p.started_at;
          polled = p.polled_so_far;
          failed = p.failed_so_far + length p.remaining;
          next_delay_ms = step.chosen_ms;
        }),
      )
  wake_slot l p (reading plan) (port_answered answer started ended) slot rest =
      let poll = poll_device answer started ended plan.blocks in
      if not (p.generation == l.generation)
      then (l, reports (finished l p ended))
      else loop_head (take_poll l p slot poll ended) (counted_poll p poll rest) ended
  wake_slot l p wait other slot rest = (l, waits wait p)

  unfoldable pub wake : Line → Pass → Wait → Wake → Line × Progress
  unfolding wake_slot
  wake l p wait answer = elim p.remaining [
    | [] ↦ (l, waits wait p)
    | slot ∷ rest ↦ wake_slot l p wait answer slot rest
  ]
