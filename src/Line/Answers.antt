-- ===== src/Line/Answers.antt =====
-- One wait of a pass of services/edge-collector/src/polling/line-worker.ts after another: how the
-- account of what it has published goes on through `pollLine` and `reportUnreachable`.
use mathlib.Core.Path.{subst}
use mathlib.Core.List.{append_assoc, append-nil}
use fieldstream.Common.{
  ℕ, ◌≡◌, refl, sym, ap, ◌∙◌, inl, inr, Bool, true, false, not, List, [], ◌∷◌, ◌++◌, arith, ◌==◌,
  if◌then◌else◌, map, Bool-cases,
}
use fieldstream.ReadPlan.{Collation, ReadPlan, Built, built, thrown}
use fieldstream.Polling.{classify_error, reconnect_delay}
use fieldstream.Polling.Device.{Answer, poll_device}
use fieldstream.Line.{Line, Slot, TelemetryRaw}
use fieldstream.Line.Frames.{build_raw_frame}
use fieldstream.Line.Pass.{
  Pass, Wait, connecting, reading, Progress, waits, reports, throws, Wake, port_opened,
  port_refused, port_answered, refused, report_unreachable, unreachable_cycle, take_poll,
  poll_cycle, next_breaker, counted_poll, plan_for, start_reading, loop_head, wake_slot, wake,
  finished,
}
use fieldstream.Line.Tally.{
  Entries, ReadsPlan, Accounted, failures-append, asked-append, failures-unreachable,
  asked-unreachable, Entries-snoc, Entries-refused,
}

-- An answer that the port gave to a poll.
abbrev pub Comes : ((ℕ → Answer) → ℕ → ℕ → Type 0) → Wake → Type 0
Comes Came (port_answered answer started ended) = Came answer started ended
Comes Came _ = Unit

module _ (collate : Collation) (Came : (ℕ → Answer) → ℕ → ℕ → Type 0) (l₀ : Line)
    (due : List Slot) where
  abbrev Kept : Line × Progress → Type 0
  Kept = Accounted collate Came l₀ due

  plan_for-same :
      (l : Line) (slot : Slot)
      → l.plan_mode ≡ l₀.plan_mode
      → plan_for collate l slot ≡ plan_for collate l₀ slot
  plan_for-same l slot e = ap (λ m. plan_for collate (record l₀ { plan_mode = m }) slot) e

  connects : (l : Line) (p : Pass) (w : Wait) → Kept (l, waits w p) → Kept (l, waits connecting p)
  connects l p w a = record {
    new = a.new;
    sent = a.sent;
    left = a.left;
    published = a.published;
    framed = a.framed;
    entries = a.entries;
    tally = (a.tally.0, tt, a.tally.2, a.tally.3);
    same_mode = a.same_mode;
  }

  start_reading-Accounted :
      (l : Line) (p : Pass) (slot : Slot) (rest : List Slot) (w : Wait)
      → p.remaining ≡ slot ∷ rest
      → Kept (l, waits w p)
      → Kept (start_reading collate l p slot)
  unfolding start_reading
  start_reading-Accounted l p slot rest w e a = by_plan (plan_for collate l slot) refl
    where
      by_plan :
          (b : Built ReadPlan)
          → plan_for collate l slot ≡ b
          → Kept (elim b [ built plan ↦ (l, waits (reading plan) p) | thrown x ↦ (l, throws) ])
      by_plan (built plan) f = record {
        new = a.new;
        sent = a.sent;
        left = a.left;
        published = a.published;
        framed = a.framed;
        entries = a.entries;
        tally = (
          a.tally.0,
          subst (ReadsPlan collate Came l₀ (reading plan)) (sym e)
              (sym (plan_for-same l slot a.same_mode) ∙ f),
          a.tally.2,
          a.tally.3,
        );
        same_mode = a.same_mode;
      }
      by_plan (thrown x) f = record {
        new = a.new;
        sent = a.sent;
        left = a.left;
        published = a.published;
        framed = a.framed;
        entries = a.entries;
        tally = tt;
        same_mode = a.same_mode;
      }

  pub loop_head-Accounted :
      (l : Line) (p : Pass) (now : ℕ) (w : Wait)
      → p.generation ≡ l.generation
      → Kept (l, waits w p)
      → Kept (loop_head collate l p now)
  unfolding loop_head
  loop_head-Accounted l p now w own a = by_slots p.remaining refl
    where
      by_slots :
          (ss : List Slot)
          → p.remaining ≡ ss
          → Kept (elim ss [
            | [] ↦ (l, reports (finished l p now))
            | slot ∷ rest ↦
                if not (p.generation == l.generation)
                then (l, reports (finished l p now))
                else if l.connected
                then start_reading collate l p slot
                else (l, waits connecting p)
          ])
      by_slots [] e = record {
        new = a.new;
        sent = a.sent;
        left = a.left;
        published = a.published;
        framed = a.framed;
        entries = a.entries;
        tally = (a.tally.0 ∙ e, a.tally.2, a.tally.3);
        same_mode = a.same_mode;
      }
      by_slots (slot ∷ rest) e =
          ground (arith, own, start_reading-Accounted l p slot rest w e a, connects l p w a)

  -- A slot is asked: one more event, and a frame when it answered.
  take_poll-Accounted :
      (l : Line) (p : Pass) (slot : Slot) (rest : List Slot) (plan : ReadPlan) (answer : ℕ → Answer)
      (started ended : ℕ)
      → p.remaining ≡ slot ∷ rest
      → Came answer started ended
      → Kept (l, waits (reading plan) p)
      → let poll = poll_device answer started ended plan.blocks in
        Kept (take_poll l p slot poll ended, waits connecting (counted_poll p poll rest))
  unfolding take_poll
  take_poll-Accounted l p slot rest plan answer started ended e came a =
      let poll = poll_device answer started ended plan.blocks in
      let c =
        poll_cycle l poll (next_breaker (l.breakers slot.place) poll ended) ended p.trace_id slot in
      let frame = build_raw_frame slot.context poll.blocks ended poll.duration_ms p.trace_id in
      let own = if poll.ok then frame ∷ [] else [] in
      record {
        new = a.new ++ c ∷ [];
        sent = a.sent ++ own;
        left = rest;
        published = ap (λ cs. cs ++ c ∷ []) a.published ∙ append_assoc l₀.cycles a.new (c ∷ []);
        framed =
            if_framed poll.ok l.frames frame
            ∙ ap (λ fs. fs ++ own) a.framed
            ∙ append_assoc l₀.frames a.sent own;
        entries =
            Entries-snoc collate Came l₀ due a.new a.sent slot rest c own
              (subst (Entries collate Came l₀ due a.new a.sent) (a.tally.0 ∙ e) a.entries)
              (
                refl,
                refl,
                inr (record {
                  plan = plan;
                  answer = answer;
                  started = started;
                  ended = ended;
                  planned = subst (ReadsPlan collate Came l₀ (reading plan)) e a.tally.1;
                  came = came;
                  told_ok = refl;
                  told_kind = refl;
                  told_count = refl;
                  told_duration = refl;
                  told_at = refl;
                  sent = refl;
                }),
              );
        tally = (
          refl,
          tt,
          omega (arith, asked-append a.new (c ∷ []), a.tally.2),
          ground (arith, failures-append a.new (c ∷ []), a.tally.3),
        );
        same_mode = a.same_mode;
      }
    where
      if_framed :
          (ok : Bool) (frames : List TelemetryRaw) (frame : TelemetryRaw)
          → (if ok then frames ++ frame ∷ [] else frames)
            ≡ frames ++ (if ok then frame ∷ [] else [])
      if_framed true frames frame = refl
      if_framed false frames frame = sym (append-nil frames)

  wake_slot-Accounted :
      (l : Line) (p : Pass) (w : Wait) (answer : Wake) (slot : Slot) (rest : List Slot)
      → p.generation ≡ l.generation
      → p.remaining ≡ slot ∷ rest
      → Comes Came answer
      → Kept (l, waits w p)
      → Kept (wake_slot collate l p w answer slot rest)
  unfolding wake_slot refused report_unreachable
  wake_slot-Accounted l p connecting (port_opened now) slot rest own e comes a =
      start_reading-Accounted (record l { connected = true; reconnect_attempt = 0 }) p slot rest
        connecting e
        (record {
          new = a.new;
          sent = a.sent;
          left = a.left;
          published = a.published;
          framed = a.framed;
          entries = a.entries;
          tally = a.tally;
          same_mode = a.same_mode;
        })
  wake_slot-Accounted l p connecting (port_refused error jitter now) slot rest own e comes a =
      let step = reconnect_delay l.reconnect_attempt jitter in
      let l' = refused l step now in
      let kind = classify_error error in
      let cs = map (unreachable_cycle l' kind step now p.trace_id) p.remaining in
      record {
        new = a.new ++ cs;
        sent = a.sent;
        left = [];
        published = ap (λ xs. xs ++ cs) a.published ∙ append_assoc l₀.cycles a.new cs;
        framed = a.framed;
        entries =
            Entries-refused collate Came l₀ kind step now p.trace_id l' due a.new a.sent p.remaining
              (subst (Entries collate Came l₀ due a.new a.sent) a.tally.0 a.entries);
        tally = (
          refl,
          omega (
            arith,
            asked-append a.new cs,
            a.tally.2,
            asked-unreachable l' kind step now p.trace_id p.remaining,
          ),
          omega (
            arith,
            failures-append a.new cs,
            a.tally.3,
            failures-unreachable l' kind step now p.trace_id p.remaining,
          ),
        );
        same_mode = a.same_mode;
      }
  wake_slot-Accounted l p (reading plan) (port_answered answer started ended) slot rest own e comes
        a =
      let poll = poll_device answer started ended plan.blocks in
      elim (Bool-cases (p.generation == l.generation)) [
        | inl same ↦
            rw (same, wake_slot)
              (loop_head-Accounted (take_poll l p slot poll ended) (counted_poll p poll rest) ended
                connecting own
                (take_poll-Accounted l p slot rest plan answer started ended e comes a))
        | inr stale ↦ ground (arith, own, stale)
      ]
  wake_slot-Accounted l p connecting (port_answered answer started ended) slot rest own e comes a =
      a
  wake_slot-Accounted l p (reading plan) (port_opened now) slot rest own e comes a = a
  wake_slot-Accounted l p (reading plan) (port_refused error jitter now) slot rest own e comes a = a

  pub wake-Accounted :
      (l : Line) (p : Pass) (w : Wait) (answer : Wake)
      → p.generation ≡ l.generation
      → Comes Came answer
      → Kept (l, waits w p)
      → Kept (wake collate l p w answer)
  unfolding wake
  wake-Accounted l p w answer own comes a = by_slots p.remaining refl
    where
      by_slots :
          (ss : List Slot)
          → p.remaining ≡ ss
          → Kept (elim ss [
            | [] ↦ (l, waits w p)
            | slot ∷ rest ↦ wake_slot collate l p w answer slot rest
          ])
      by_slots [] e = a
      by_slots (slot ∷ rest) e = wake_slot-Accounted l p w answer slot rest own e comes a
