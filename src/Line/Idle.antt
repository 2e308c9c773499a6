-- ===== src/Line/Idle.antt =====
-- How long the worker of services/edge-collector/src/polling/line-worker.ts sleeps when no device of
-- the line may be asked.
use fieldstream.Common.{
  ℕ, ◌+◌, ◌-◌, ◌≤◌, ◌<◌, ◌≡◌, ◌≢◌, refl, ◌⊎◌, inl, inr, Bool, true, false, Option, none, some, List,
  [], ◌∷◌, arith, min, leb, keep, Bool-cases,
}
use fieldstream.Breaker.{Breaker, breaker_allows}
use fieldstream.Line.{Line, Slot}
use fieldstream.Line.Pass.{next_probe, idle_delay_ms}
use fieldstream.Line.Tally.{due_slots}

-- `t` comes before the probe, where there is one, and reaches it.
abbrev Before : Option ℕ → ℕ → Type 0
Before none t = Unit
Before (some at) t = t < at

abbrev earliest : Option ℕ → Option ℕ → Option ℕ
earliest a b = elim a [
  | none ↦ b
  | some at ↦ elim b [ none ↦ some at | some other ↦ some (min at other) ]
]

Before-earliest : (a b : Option ℕ) (t : ℕ) → Before (earliest a b) t → Before a t × Before b t
Before-earliest none b t h = (tt, h)
Before-earliest (some at) none t h = (h, tt)
Before-earliest (some at) (some other) t h = (omega (arith, h), omega (arith, h))

denied_until :
    (b : Breaker) (now t : ℕ)
    → breaker_allows b now ≡ false
    → Before b.next_probe_at t
    → breaker_allows b t ≡ false
unfolding breaker_allows
denied_until b now t shut early = by_probe b.next_probe_at shut early
  where
    by_probe :
        (o : Option ℕ)
        → breaker_allows (record b { next_probe_at = o }) now ≡ false
        → Before o t
        → breaker_allows (record b { next_probe_at = o }) t ≡ false
    by_probe none shut early = ground arith
    by_probe (some at) shut early = ground arith

allowed_from :
    (b : Breaker) (now at t : ℕ)
    → breaker_allows b now ≡ false
    → b.next_probe_at ≡ some at
    → at ≤ t
    → breaker_allows b t ≡ true
unfolding breaker_allows
allowed_from b now at t shut e reached = rw (e, breaker_allows) (ground (arith, shut))

min-le : (a b t : ℕ) → min a b ≤ t → (a ≤ t) ⊎ (b ≤ t)
min-le a b t h = ground arith

module _ (breakers : ℕ → Breaker) where
  abbrev allowed : ℕ → Slot → Bool
  allowed t s = breaker_allows (breakers s.place) t

  denied_all_until :
      (now t : ℕ) (ss : List Slot)
      → keep (allowed now) ss ≡ []
      → Before (next_probe breakers ss) t
      → keep (allowed t) ss ≡ []
  denied_all_until now t [] none_due early = refl
  denied_all_until now t (s ∷ ss) none_due early = elim (Bool-cases (allowed now s)) [
    | inl ready ↦ ground (arith, ready, none_due)
    | inr shut ↦
        let parts =
          Before-earliest (breakers s.place).next_probe_at (next_probe breakers ss) t early in
        ground (
          arith,
          denied_until (breakers s.place) now t shut parts.0,
          denied_all_until now t ss (ground (arith, shut, none_due)) parts.1,
        )
  ]

  keep-here :
      (t : ℕ) (s : Slot) (ss : List Slot) → allowed t s ≡ true → keep (allowed t) (s ∷ ss) ≢ []
  keep-here t s ss ready = rw ready (λ e. cc)

  keep-later :
      (t : ℕ) (s : Slot) (ss : List Slot)
      → keep (allowed t) ss ≢ []
      → keep (allowed t) (s ∷ ss) ≢ []
  keep-later t s ss some_later = elim (Bool-cases (allowed t s)) [
    | inl ready ↦ keep-here t s ss ready
    | inr shut ↦ rw shut some_later
  ]

  probe_reached :
      (now at t : ℕ) (ss : List Slot)
      → keep (allowed now) ss ≡ []
      → next_probe breakers ss ≡ some at
      → at ≤ t
      → keep (allowed t) ss ≢ []
  probe_reached now at t [] none_due e reached = cc
  probe_reached now at t (s ∷ ss) none_due e reached = elim (Bool-cases (allowed now s)) [
    | inl ready ↦ ground (arith, ready, none_due)
    | inr shut ↦
        by_probe (breakers s.place).next_probe_at refl (next_probe breakers ss) refl shut
          (ground (arith, shut, none_due)) e (λ other. probe_reached now other t ss)
  ]
    where
      by_probe :
          (a : Option ℕ)
          → (breakers s.place).next_probe_at ≡ a
          → (b : Option ℕ) → next_probe breakers ss ≡ b
          → allowed now s ≡ false
          → keep (allowed now) ss ≡ []
          → earliest a b ≡ some at
          → ((other : ℕ)
              → keep (allowed now) ss ≡ []
              → next_probe breakers ss ≡ some other
              → other ≤ t
              → keep (allowed t) ss ≢ [])
          → keep (allowed t) (s ∷ ss) ≢ []
      by_probe none ea none eb shut rest e later = cc
      by_probe none ea (some b) eb shut rest e later =
          keep-later t s ss (later b rest eb (ground (arith, e, reached)))
      by_probe (some a) ea none eb shut rest e later =
          keep-here t s ss
            (allowed_from (breakers s.place) now a t shut ea (ground (arith, e, reached)))
      by_probe (some a) ea (some b) eb shut rest e later =
          elim (min-le a b t (ground (arith, e, reached))) [
            | inl first ↦ keep-here t s ss (allowed_from (breakers s.place) now a t shut ea first)
            | inr second ↦ keep-later t s ss (later b rest eb second)
          ]

abbrev sleep : Line → ℕ → Option ℕ → ℕ
sleep l now o = elim o [ none ↦ l.poll_interval_ms | some at ↦ min l.poll_interval_ms (at - now) ]

-- While no device is due, the worker sleeps no longer than its interval, and not past the moment when
-- a device is due: none is at any time before its sleep ends, and where the sleep is shorter than
-- the interval, one is when it ends.
pub idle_delay_ms_lem :
    (l : Line) (now d : ℕ)
    → due_slots l now ≡ []
    → (idle_delay_ms l now ≤ l.poll_interval_ms)
      × ((idle_delay_ms l now ≤ d) ⊎ (due_slots l (now + d) ≡ []))
      × ((idle_delay_ms l now ≡ l.poll_interval_ms)
          ⊎ (due_slots l (now + idle_delay_ms l now) ≢ []))
unfolding idle_delay_ms
idle_delay_ms_lem l now d none_due = by_probe (next_probe l.breakers l.slots) refl
  where
    by_probe :
        (o : Option ℕ)
        → next_probe l.breakers l.slots ≡ o
        → (sleep l now o ≤ l.poll_interval_ms)
          × ((sleep l now o ≤ d) ⊎ (due_slots l (now + d) ≡ []))
          × ((sleep l now o ≡ l.poll_interval_ms) ⊎ (due_slots l (now + sleep l now o) ≢ []))
    by_probe none e = (
      omega arith,
      inr (denied_all_until l.breakers now (now + d) l.slots none_due (rw e tt)),
      inl refl,
    )
    by_probe (some at) e = (
      omega arith,
      elim (Bool-cases (leb (sleep l now (some at)) d)) [
        | inl long ↦ inl (ground (arith, long))
        | inr short ↦ inr (
            denied_all_until l.breakers now (now + d) l.slots none_due
              (rw e (ground (arith, short))))
      ],
      elim (Bool-cases (leb l.poll_interval_ms (at - now))) [
        | inl long ↦ inl (ground (arith, long))
        | inr short ↦ inr (
            probe_reached l.breakers now at (now + sleep l now (some at)) l.slots none_due e
              (ground (arith, short)))
      ],
    )
