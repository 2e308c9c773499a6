-- ===== src/Publisher/Bounds.antt =====
-- What holds of the buffer of services/edge-collector/src/publish/bounded-publisher.ts at all times.
use fieldstream.Common.{
  ℕ, ◌+◌, ◌-◌, ◌≤◌, ◌≡◌, ◌≢◌, refl, ◌⊎◌, inl, inr, true, List, [], ◌∷◌, ◌++◌, arith, length, take,
  Bool-cases, length-append, length-take, length-drop,
}
use fieldstream.Publisher.{
  Options, Publisher, Phase, stopped, sending, sleeping, ended, created, enqueue, send_resolved,
  send_rejected, woken, settle, close, trim, kick, pump_head,
}
use fieldstream.Publisher.Run.{
  Event, puts, resolves, rejects, wakes, settles, closes, History, step, run,
}

abbrev pub fresh : {M : Type 0} → History M
fresh = record { now = created; delivered = []; put_in = [] }

module _ {M : Type 0} where
  pub record Inv (o : Options) (h : History M) : Type 0 where
    pub bounded : length h.now.queue ≤ o.capacity
    pub batched : length h.now.in_flight ≤ o.batch_size
    pub waits : h.now.phase ≢ sending → h.now.in_flight ≡ []
    pub awake : h.now.phase ≡ stopped → (h.now.queue ≡ []) ⊎ (h.now.closed ≡ true)
    pub conserved :
        length h.put_in
        ≡ length h.delivered + length h.now.in_flight + length h.now.queue + h.now.dropped

  -- What the head of the loop leaves of a buffer with nothing in flight.
  record Headed (o : Options) (p q : Publisher M) : Type 0 where
    shared : length q.queue + length q.in_flight ≡ length p.queue
    batched : length q.in_flight ≤ o.batch_size
    waits : ((q.phase ≡ sending) ⊎ ((q.phase ≡ ended) × (q.in_flight ≡ [])))
    dropped_same : q.dropped ≡ p.dropped

  pump_head-Headed : (o : Options) (p : Publisher M) → p.in_flight ≡ [] → Headed o p (pump_head o p)
  unfolding pump_head
  pump_head-Headed o p e = ground (
    arith,
    length-take o.batch_size p.queue,
    length-drop (length (take o.batch_size p.queue)) p.queue,
  )

  length-trim :
      (o : Options) (p : Publisher M)
      → (length (trim o p).queue ≤ o.capacity)
        × (length (trim o p).queue + (trim o p).dropped ≡ length p.queue + p.dropped)
  unfolding trim
  length-trim o p = omega (arith, length-drop (length p.queue - o.capacity) p.queue)

  abbrev enqueued : Publisher M → M → ℕ → Publisher M
  enqueued p m at = record p { queue = p.queue ++ record { message = m; at = at } ∷ [] }

  pub kick_cases :
      (o : Options) (q : Publisher M)
      → ((kick o q ≡ q) × ((q.phase ≢ stopped) ⊎ (q.closed ≡ true)))
        ⊎ ((kick o q ≡ pump_head o q) × (q.phase ≡ stopped))
  unfolding kick
  kick_cases o q = by_phase q.phase refl
    where
      by_phase :
          (f : Phase)
          → q.phase ≡ f
          → ((kick o q ≡ q) × ((q.phase ≢ stopped) ⊎ (q.closed ≡ true)))
            ⊎ ((kick o q ≡ pump_head o q) × (q.phase ≡ stopped))
      by_phase stopped e = elim (Bool-cases q.closed) [
        | inl shut ↦ inl (ground arith, inr shut)
        | inr open' ↦ inr (ground arith, e)
      ]
      by_phase sending e = inl (ground arith, inl (ground arith))
      by_phase sleeping e = inl (ground arith, inl (ground arith))
      by_phase ended e = inl (ground arith, inl (ground arith))

  -- All of the invariant but that the pump is awake, of a buffer `q` in place of that of the history.
  record Settled (o : Options) (h : History M) (q : Publisher M) : Type 0 where
    bounded : length q.queue ≤ o.capacity
    batched : length q.in_flight ≤ o.batch_size
    waits : q.phase ≢ sending → q.in_flight ≡ []
    conserved :
        length h.put_in ≡ length h.delivered + length q.in_flight + length q.queue + q.dropped

  kick-Inv :
      (o : Options) (h : History M) (q : Publisher M)
      → Settled o h q
      → Inv o (record h { now = kick o q })
  kick-Inv o h q v = elim (kick_cases o q) [
    | inl (same, why) ↦ rw same (ground arith)
    | inr (headed, stop) ↦ rw headed (ground (arith, pump_head-Headed o q (v.waits (ground arith))))
  ]

  puts-Inv : (o : Options) (m : M) (at : ℕ) (h : History M) → Inv o h → Inv o (step o (puts m at) h)
  unfolding step enqueue
  puts-Inv o m at h v =
      kick-Inv o (record h { put_in = h.put_in ++ record { message = m; at = at } ∷ [] })
        (trim o (enqueued h.now m at)) (trimmed (length-trim o (enqueued h.now m at)))
    where
      trimmed :
          (length (trim o (enqueued h.now m at)).queue ≤ o.capacity)
            × (length (trim o (enqueued h.now m at)).queue + (trim o (enqueued h.now m at)).dropped
                ≡ length (enqueued h.now m at).queue + h.now.dropped)
          → Settled o
              (record h { put_in = h.put_in ++ record { message = m; at = at } ∷ [] })
              (trim o (enqueued h.now m at))
      trimmed facts = record {
        bounded = facts.0;
        batched = v.batched;
        waits = v.waits;
        conserved = omega (
          arith,
          facts,
          v.conserved,
          length-append h.now.queue (record { message = m; at = at } ∷ []),
          length-append h.put_in (record { message = m; at = at } ∷ []),
        );
      }

  resolves-Inv : (o : Options) (h : History M) → Inv o h → Inv o (step o resolves h)
  unfolding step send_resolved
  resolves-Inv o h v = ground (
    arith,
    pump_head-Headed o (record h.now { in_flight = [] }) refl,
    length-append h.delivered h.now.in_flight,
  )

  rejects-Inv : (o : Options) (h : History M) → Inv o h → Inv o (step o rejects h)
  unfolding step send_rejected
  rejects-Inv o h v = ground (
    arith,
    length-trim o (record h.now { queue = h.now.in_flight ++ h.now.queue; in_flight = [] }),
    length-append h.now.in_flight h.now.queue,
  )

  wakes-Inv : (o : Options) (h : History M) → Inv o h → Inv o (step o wakes h)
  unfolding step woken
  wakes-Inv o h v = ground (arith, pump_head-Headed o h.now)

  settles-Inv : (o : Options) (h : History M) → Inv o h → Inv o (step o settles h)
  unfolding step settle
  settles-Inv o h v = ground (arith, pump_head-Headed o (record h.now { phase = stopped }))

  pub fresh-Inv : (o : Options) → Inv o fresh
  fresh-Inv o = ground arith

  pub step-Inv : (o : Options) (e : Event M) (h : History M) → Inv o h → Inv o (step o e h)
  unfolding step close
  step-Inv o (puts m at) h v = puts-Inv o m at h v
  step-Inv o closes h v = ground arith
  step-Inv o resolves h v = resolves-Inv o h v
  step-Inv o rejects h v = rejects-Inv o h v
  step-Inv o wakes h v = wakes-Inv o h v
  step-Inv o settles h v = settles-Inv o h v

  run_from-Inv : (o : Options) (es : List (Event M)) (h : History M) → Inv o h → Inv o (run o es h)
  unfolding run
  run_from-Inv o [] h v = v
  run_from-Inv o (e ∷ es) h v = run_from-Inv o es (step o e h) (step-Inv o e h v)

pub run-Inv : {M : Type 0} (o : Options) (es : List (Event M)) → Inv o (run o es fresh)
run-Inv o es = run_from-Inv o es fresh (fresh-Inv o)
