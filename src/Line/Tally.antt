-- ===== src/Line/Tally.antt =====
-- The events and frames that a pass of services/edge-collector/src/polling/line-worker.ts publishes,
-- counted against the slots that were due.
use mathlib.Core.List.{append_assoc, append-nil}
use fieldstream.Common.{
  ℕ, suc, ◌+◌, ◌≡◌, refl, sym, ap, ◌∙◌, ◌⊎◌, inl, false, Option, none, some, List, [], ◌∷◌, ◌++◌,
  arith, if◌then◌else◌, length, keep, map,
}
use fieldstream.Breaker.{breaker_allows}
use fieldstream.Polling.{ErrorKind, BackoffStep}
use fieldstream.Line.{Line, Slot, PollCycle, TelemetryRaw, code_of}
use fieldstream.ReadPlan.{Collation, ReadPlan, built}
use fieldstream.Polling.Device.{Answer, RawBlock, poll_device}
use fieldstream.Line.Pass.{
  Wait, connecting, reading, Progress, waits, reports, throws, unreachable_cycle, plan_for,
}

-- The cycles of devices that did not answer.
abbrev pub failures : List PollCycle → ℕ
failures [] = 0
failures (c ∷ cs) = if c.ok then failures cs else suc (failures cs)

-- The cycles of devices that were asked.
abbrev pub asked : List PollCycle → ℕ
asked [] = 0
asked (c ∷ cs) = elim c.backoff [ none ↦ suc (asked cs) | some step ↦ asked cs ]

abbrev pub due_slots : Line → ℕ → List Slot
due_slots l now = keep (λ s. breaker_allows (l.breakers s.place) now) l.slots

-- The frame that goes with a device's event: of the device, with the blocks read.
abbrev pub frame_of : Slot → PollCycle → List RawBlock → TelemetryRaw
frame_of s c blocks = record {
  ts = c.ts;
  site_code = s.context.site_code;
  gateway_code = s.context.gateway_code;
  line_code = s.context.line_code;
  device_code = s.context.device.code;
  slave_id = s.context.device.slave_id;
  profile_key = s.context.profile.profile_key;
  profile_version = s.context.profile.version;
  blocks = blocks;
  cycle_ms = c.duration_ms;
  trace_id = c.trace_id;
}

-- What is told of one slot, in a pass that began on `l`; `Came` says of answers to the requests of a
-- poll, with the clock at its start and end, that the port gave them.
module _ (collate : Collation) (Came : (ℕ → Answer) → ℕ → ℕ → Type 0) (l : Line) where
  -- The slot was asked for its plan: the event is of the poll that the answers make, and a frame of the
  -- blocks that it read goes with it where it has read them all.
  pub record Exchange (s : Slot) (c : PollCycle) (frames : List TelemetryRaw) : Type 0 where
    pub plan : ReadPlan
    pub answer : ℕ → Answer
    pub started : ℕ
    pub ended : ℕ
    pub planned : plan_for collate l s ≡ built plan
    pub came : Came answer started ended
    pub told_ok : c.ok ≡ (poll_device answer started ended plan.blocks).ok
    pub told_kind : c.error_kind ≡ (poll_device answer started ended plan.blocks).error_kind
    pub told_count : c.request_count ≡ (poll_device answer started ended plan.blocks).request_count
    pub told_duration : c.duration_ms ≡ (poll_device answer started ended plan.blocks).duration_ms
    pub told_at : c.ts ≡ ended
    pub sent : frames ≡ (
        if c.ok
        then frame_of s c (poll_device answer started ended plan.blocks).blocks ∷ []
        else [])

  -- The port could not be opened for the slot.
  abbrev pub Unreachable : PollCycle → List TelemetryRaw → Type 0
  Unreachable c frames = (c.ok ≡ false) × (c.request_count ≡ 0) × (frames ≡ [])

  abbrev pub Told : Slot → PollCycle → List TelemetryRaw → Type 0
  Told s c frames =
      (c.device_code ≡ code_of s)
      × (c.line_code ≡ s.context.line_code)
      × (Unreachable c frames ⊎ Exchange s c frames)

  -- Events and frames of the slots in their order, up to those that are left.
  abbrev pub Entries : List Slot → List PollCycle → List TelemetryRaw → List Slot → Type 0
  Entries slots [] frames left = (frames ≡ []) × (slots ≡ left)
  Entries [] (c ∷ cs) frames left = ⊥
  Entries (s ∷ ss) (c ∷ cs) frames left =
      (own : List TelemetryRaw) × (later : List TelemetryRaw) × (frames ≡ own ++ later)
      × Told s c own
      × Entries ss cs later left

  -- The plan that a pass reads is that of its first slot.
  abbrev pub ReadsPlan : Wait → List Slot → Type 0
  ReadsPlan connecting ss = Unit
  ReadsPlan (reading plan) [] = Unit
  ReadsPlan (reading plan) (s ∷ ss) = plan_for collate l s ≡ built plan

  -- Where a pass has got to, and what it has counted.
  abbrev pub Tally : List Slot → List PollCycle → Progress → Type 0
  Tally left new (waits w p) =
      (left ≡ p.remaining)
      × ReadsPlan w p.remaining
      × (p.polled_so_far ≡ asked new)
      × (p.failed_so_far ≡ failures new)
  Tally left new (reports report) =
      (left ≡ []) × (report.polled ≡ asked new) × (report.failed ≡ failures new)
  Tally left new throws = Unit

  -- A pass over the slots `due` has published new events and frames.
  pub record Accounted (due : List Slot) (r : Line × Progress) : Type 0 where
    pub new : List PollCycle
    pub sent : List TelemetryRaw
    pub left : List Slot
    pub published : r.0.cycles ≡ l.cycles ++ new
    pub framed : r.0.frames ≡ l.frames ++ sent
    pub entries : Entries due new sent left
    pub tally : Tally left new r.1
    pub same_mode : r.0.plan_mode ≡ l.plan_mode

  -- One more event, of the next slot.
  pub Entries-snoc :
      (slots : List Slot) (cs : List PollCycle) (frames : List TelemetryRaw) (s : Slot)
      (left : List Slot) (c : PollCycle) (own : List TelemetryRaw)
      → Entries slots cs frames (s ∷ left)
      → Told s c own
      → Entries slots (cs ++ c ∷ []) (frames ++ own) left
  Entries-snoc slots [] frames s left c own (none_yet, all_left) told =
      rw (none_yet, all_left) (own, [], sym (append-nil own), told, (refl, refl))
  Entries-snoc [] (c' ∷ cs) frames s left c own h told = elim h [ ]
  Entries-snoc (s' ∷ ss) (c' ∷ cs) frames s left c own (first, later, e, told', rest) told = (
    first,
    later ++ own,
    ap (λ fs. fs ++ own) e ∙ append_assoc first later own,
    told',
    Entries-snoc ss cs later s left c own rest told,
  )

  module _ (kind : ErrorKind) (step : BackoffStep) (now trace_id : ℕ) (l' : Line) where
    Entries-unreachable :
        (left : List Slot)
        → Entries left (map (unreachable_cycle l' kind step now trace_id) left) [] []
    Entries-unreachable [] = (refl, refl)
    Entries-unreachable (s ∷ left) =
        ([], [], refl, (refl, refl, inl (refl, refl, refl)), Entries-unreachable left)

    -- Events of all the slots that are left.
    pub Entries-refused :
        (slots : List Slot) (cs : List PollCycle) (frames : List TelemetryRaw) (left : List Slot)
        → Entries slots cs frames left
        → Entries slots (cs ++ map (unreachable_cycle l' kind step now trace_id) left) frames []
    Entries-refused slots [] frames left (none_yet, all_left) =
        rw (none_yet, all_left) (Entries-unreachable left)
    Entries-refused [] (c ∷ cs) frames left h = elim h [ ]
    Entries-refused (s ∷ ss) (c ∷ cs) frames left (own, later, e, told, rest) =
        (own, later, e, told, Entries-refused ss cs later left rest)

pub failures-append : (cs ds : List PollCycle) → failures (cs ++ ds) ≡ failures cs + failures ds
failures-append [] ds = omega arith
failures-append (c ∷ cs) ds = ground (arith, failures-append cs ds)

pub asked-append : (cs ds : List PollCycle) → asked (cs ++ ds) ≡ asked cs + asked ds
asked-append [] ds = omega arith
asked-append (c ∷ cs) ds = by_backoff c.backoff (asked-append cs ds)
  where
    by_backoff :
        (b : Option BackoffStep)
        → asked (cs ++ ds) ≡ asked cs + asked ds
        → elim b [ none ↦ suc (asked (cs ++ ds)) | some step ↦ asked (cs ++ ds) ]
          ≡ elim b [ none ↦ suc (asked cs) | some step ↦ asked cs ] + asked ds
    by_backoff none e = omega (arith, e)
    by_backoff (some step) e = e

module _ (l : Line) (kind : ErrorKind) (step : BackoffStep) (now trace_id : ℕ) where
  pub failures-unreachable :
      (due : List Slot)
      → failures (map (unreachable_cycle l kind step now trace_id) due) ≡ length due
  failures-unreachable [] = refl
  failures-unreachable (s ∷ due) = omega (arith, failures-unreachable due)

  pub asked-unreachable :
      (due : List Slot) → asked (map (unreachable_cycle l kind step now trace_id) due) ≡ 0
  asked-unreachable [] = refl
  asked-unreachable (s ∷ due) = asked-unreachable due
