-- ===== src/Publisher/Order.antt =====
-- The order of delivery through services/edge-collector/src/publish/bounded-publisher.ts.
use mathlib.Core.List.{append_assoc}
use mathlib.Core.Path.{subst}
use fieldstream.Common.{
  ℕ, zero, suc, ◌-◌, ◌≡◌, ◌≢◌, refl, sym, ap, ◌∙◌, inl, inr, List, [], ◌∷◌, ◌++◌, arith, length,
  take, drop, Bool, true, false, ◌⊎◌, if◌then◌else◌,
}
use fieldstream.Publisher.{
  Options, Pending, Publisher, Phase, stopped, sending, sleeping, ended, is_empty, enqueue,
  send_resolved, send_rejected, woken, settle, close, trim, kick, pump_head,
}
use fieldstream.Publisher.Run.{
  Event, puts, resolves, rejects, wakes, settles, closes, History, pump_step, step, run,
}
use fieldstream.Publisher.Bounds.{fresh, Inv, step-Inv, fresh-Inv, kick_cases}

-- The first list is the second with elements left out, in the same order.
pub data KeptFrom {A : Type 0} : List A → List A → Type 0 where
  all_kept : KeptFrom [] []
  kept : {x : A} {xs ys : List A} → KeptFrom xs ys → KeptFrom (x ∷ xs) (x ∷ ys)
  left_out : {y : A} {xs ys : List A} → KeptFrom xs ys → KeptFrom xs (y ∷ ys)

module _ {A : Type 0} where
  KeptFrom-nil : (ys : List A) → KeptFrom [] ys
  KeptFrom-nil [] = all_kept
  KeptFrom-nil (y ∷ ys) = left_out (KeptFrom-nil ys)

  KeptFrom-refl : (xs : List A) → KeptFrom xs xs
  KeptFrom-refl [] = all_kept
  KeptFrom-refl (x ∷ xs) = kept (KeptFrom-refl xs)

  KeptFrom-trans :
      {ys zs : List A} → KeptFrom ys zs → {xs : List A} → KeptFrom xs ys → KeptFrom xs zs
  KeptFrom-trans all_kept k = k
  KeptFrom-trans (left_out l) k = left_out (KeptFrom-trans l k)
  KeptFrom-trans (kept l) (kept k) = kept (KeptFrom-trans l k)
  KeptFrom-trans (kept l) (left_out k) = left_out (KeptFrom-trans l k)

  KeptFrom-drop : (n : ℕ) (ys : List A) → KeptFrom (drop n ys) ys
  KeptFrom-drop zero ys = KeptFrom-refl ys
  KeptFrom-drop (suc n) [] = all_kept
  KeptFrom-drop (suc n) (y ∷ ys) = left_out (KeptFrom-drop n ys)

  KeptFrom-behind : (xs : List A) {ys zs : List A} → KeptFrom ys zs → KeptFrom (xs ++ ys) (xs ++ zs)
  KeptFrom-behind [] k = k
  KeptFrom-behind (x ∷ xs) k = kept (KeptFrom-behind xs k)

  KeptFrom-snoc : {xs zs : List A} (y : A) → KeptFrom xs zs → KeptFrom (xs ++ y ∷ []) (zs ++ y ∷ [])
  KeptFrom-snoc y all_kept = kept all_kept
  KeptFrom-snoc y (kept k) = kept (KeptFrom-snoc y k)
  KeptFrom-snoc y (left_out k) = left_out (KeptFrom-snoc y k)

  take-drop : (n : ℕ) (xs : List A) → take n xs ++ drop (length (take n xs)) xs ≡ xs
  take-drop zero xs = refl
  take-drop (suc n) [] = refl
  take-drop (suc n) (x ∷ xs) = ap (λ r. x ∷ r) (take-drop n xs)

module _ {M : Type 0} where
  -- What is still to be delivered, in order.
  abbrev pub waiting : Publisher M → List (Pending M)
  waiting p = p.in_flight ++ p.queue

  abbrev pub InOrder : History M → Publisher M → Type 0
  InOrder h p = KeptFrom (h.delivered ++ waiting p) h.put_in

  waiting-pump_head :
      (o : Options) (p : Publisher M) → p.in_flight ≡ [] → waiting (pump_head o p) ≡ p.queue
  unfolding pump_head
  waiting-pump_head o p e = ground (arith, take-drop o.batch_size p.queue)

  waiting-kick :
      (o : Options) (p : Publisher M)
      → (p.phase ≢ sending → p.in_flight ≡ [])
      → waiting (kick o p) ≡ waiting p
  waiting-kick o p waits = elim (kick_cases o p) [
    | inl (same, why) ↦ rw same refl
    | inr (headed, stop) ↦
        rw headed
          (ground (arith, waiting-pump_head o p (waits (ground arith)), waits (ground arith)))
  ]

  -- Trimming what waits in the queue leaves out some of the oldest of it.
  InOrder-trim :
      (o : Options) (done : List (Pending M)) (q : Publisher M) {all : List (Pending M)}
      → KeptFrom (done ++ q.queue) all
      → KeptFrom (done ++ (trim o q).queue) all
  unfolding trim
  InOrder-trim o done q k =
      KeptFrom-trans k (KeptFrom-behind done (KeptFrom-drop (length q.queue - o.capacity) q.queue))

  puts-InOrder :
      (o : Options) (m : M) (at : ℕ) (h : History M)
      → (h.now.phase ≢ sending → h.now.in_flight ≡ [])
      → InOrder h h.now
      → InOrder (step o (puts m at) h) (step o (puts m at) h).now
  unfolding step enqueue trim
  puts-InOrder o m at h waits k =
      subst (λ w. KeptFrom (h.delivered ++ w) (h.put_in ++ item))
        (sym (waiting-kick o trimmed waits))
        (subst (λ w. KeptFrom w (h.put_in ++ item))
          (append_assoc h.delivered h.now.in_flight trimmed.queue)
          (InOrder-trim o (h.delivered ++ h.now.in_flight) longer joined))
    where
      item : List (Pending M)
      item = record { message = m; at = at } ∷ []

      longer : Publisher M
      longer = record h.now { queue = h.now.queue ++ item }

      trimmed : Publisher M
      trimmed = trim o longer

      joined : KeptFrom ((h.delivered ++ h.now.in_flight) ++ longer.queue) (h.put_in ++ item)
      joined =
          subst (λ w. KeptFrom w (h.put_in ++ item))
            (ap (λ w. w ++ item) (sym (append_assoc h.delivered h.now.in_flight h.now.queue))
              ∙ append_assoc (h.delivered ++ h.now.in_flight) h.now.queue item)
            (KeptFrom-snoc (record { message = m; at = at }) k)

  resolves-InOrder :
      (o : Options) (h : History M)
      → KeptFrom (h.delivered ++ waiting h.now) h.put_in
      → KeptFrom ((h.delivered ++ h.now.in_flight) ++ waiting (send_resolved o h.now)) h.put_in
  unfolding send_resolved
  resolves-InOrder o h k =
      subst (λ w. KeptFrom ((h.delivered ++ h.now.in_flight) ++ w) h.put_in)
        (sym (waiting-pump_head o (record h.now { in_flight = [] }) refl))
        (subst (λ w. KeptFrom w h.put_in)
          (sym (append_assoc h.delivered h.now.in_flight h.now.queue)) k)

  rejects-InOrder :
      (o : Options) (h : History M)
      → KeptFrom (h.delivered ++ waiting h.now) h.put_in
      → KeptFrom (h.delivered ++ waiting (send_rejected o h.now)) h.put_in
  unfolding send_rejected trim
  rejects-InOrder o h k =
      InOrder-trim o h.delivered
        (record h.now { queue = h.now.in_flight ++ h.now.queue; in_flight = [] }) k

  wakes-InOrder :
      (o : Options) (h : History M) (q : Publisher M)
      → (q.queue ≡ h.now.queue)
      → q.in_flight ≡ []
      → h.now.in_flight ≡ []
      → KeptFrom (h.delivered ++ waiting h.now) h.put_in
      → KeptFrom (h.delivered ++ waiting (pump_head o q)) h.put_in
  wakes-InOrder o h q same nothing none_left k =
      subst (λ w. KeptFrom (h.delivered ++ w) h.put_in)
        (ground (arith, waiting-pump_head o q nothing)) k

  settle_cases :
      (o : Options) (p : Publisher M)
      → (settle o p ≡ record p { phase = stopped })
        ⊎ (settle o p ≡ kick o (record p { phase = stopped }))
  unfolding settle
  settle_cases o p = by_emptiness (is_empty p.queue) (record p { phase = stopped })
    where
      by_emptiness :
          (b : Bool) (q : Publisher M)
          → ((if b then q else kick o q) ≡ q) ⊎ ((if b then q else kick o q) ≡ kick o q)
      by_emptiness true q = inl refl
      by_emptiness false q = inr refl

  waiting-settle :
      (o : Options) (p : Publisher M) → p.in_flight ≡ [] → waiting (settle o p) ≡ waiting p
  waiting-settle o p e = elim (settle_cases o p) [
    | inl same ↦ rw same refl
    | inr kicked ↦ rw kicked (waiting-kick o (record p { phase = stopped }) (λ _. e))
  ]

  pump_step-InOrder :
      (o : Options) (f : Phase) (e : Event M) (h : History M)
      → (f ≢ sending → h.now.in_flight ≡ [])
      → InOrder h h.now
      → InOrder (pump_step o f e h) (pump_step o f e h).now
  unfolding pump_step woken
  pump_step-InOrder o sending resolves h waits k = resolves-InOrder o h k
  pump_step-InOrder o sending rejects h waits k = rejects-InOrder o h k
  pump_step-InOrder o sleeping wakes h waits k =
      wakes-InOrder o h h.now refl (waits (ground arith)) (waits (ground arith)) k
  pump_step-InOrder o ended settles h waits k =
      subst (λ w. KeptFrom (h.delivered ++ w) h.put_in)
        (sym (waiting-settle o h.now (waits (ground arith)))) k
  pump_step-InOrder o _ _ h waits k = k

  step-InOrder :
      (o : Options) (e : Event M) (h : History M)
      → Inv o h
      → InOrder h h.now
      → InOrder (step o e h) (step o e h).now
  unfolding step close
  step-InOrder o (puts m at) h v k = puts-InOrder o m at h v.waits k
  step-InOrder o closes h v k = k
  step-InOrder o resolves h v k = pump_step-InOrder o h.now.phase resolves h v.waits k
  step-InOrder o rejects h v k = pump_step-InOrder o h.now.phase rejects h v.waits k
  step-InOrder o wakes h v k = pump_step-InOrder o h.now.phase wakes h v.waits k
  step-InOrder o settles h v k = pump_step-InOrder o h.now.phase settles h v.waits k

  run_from-InOrder :
      (o : Options) (es : List (Event M)) (h : History M)
      → Inv o h
      → InOrder h h.now
      → InOrder (run o es h) (run o es h).now
  unfolding run
  run_from-InOrder o [] h v k = k
  run_from-InOrder o (e ∷ es) h v k =
      run_from-InOrder o es (step o e h) (step-Inv o e h v) (step-InOrder o e h v k)

-- After any history from an empty buffer, what was delivered, then what is in flight, then what is
-- queued, is what was put in with some messages left out: messages go out in the order in which they
-- came in, also over failures, and none goes out twice or in another's place.
pub run-InOrder :
    {M : Type 0} (o : Options) (es : List (Event M)) → InOrder (run o es fresh) (run o es fresh).now
run-InOrder o es = run_from-InOrder o es fresh (fresh-Inv o) all_kept
