-- ===== src/Spikes/Confirmation.antt =====
-- When the filter of packages/domain/src/filters.ts takes a new level.
use mathlib.Core.Path.{subst}
use fieldstream.Common.{
  ℕ, zero, suc, ◌+◌, ◌≤◌, ◌≡◌, refl, inl, inr, true, false, Option, none, some, List, [], ◌∷◌,
  arith, leb, leb→le, sym, ap, ◌∙◌, if◌then◌else◌, Bool-cases,
}
use fieldstream.Contracts.{Numbers}
use fieldstream.Spikes.{
  SpikeFilterState, SpikeFilterConfig, SpikeFilterResult, idle_spike_filter_state, near, accept,
  judge_far, spike_filter,
}

module _ {V : Type 0} (n : Numbers V) (config : SpikeFilterConfig V) where
  abbrev pub Far : V → V → Type 0
  Far x y = near n config x y ≡ false

  -- The value `c` and the `k` values before it (newest first) are far from the level `a`, and each is
  -- near to the one before.
  abbrev pub Confirmed : V → ℕ → V → List V → Type 0
  Confirmed a zero c before = Far c a
  Confirmed a (suc k) c [] = ⊥
  Confirmed a (suc k) c (w ∷ before) = Far c a × (near n config c w ≡ true) × Confirmed a k w before

  -- The values that came, newest first, as the state remembers them.
  pub data Trail : List V → SpikeFilterState V → Type 0 where
    calm :
        {seen : List V} {a : Option V}
        → Trail seen (record { accepted = a; candidate = none; candidate_cycles = 0 })
    waiting :
        {before : List V} {a c : V} {k : ℕ}
        → Confirmed a k c before
        → Trail
            (c ∷ before)
            (record { accepted = some a; candidate = some c; candidate_cycles = suc k })

  abbrev pub seen_with : Option V → List V → List V
  seen_with none seen = seen
  seen_with (some v) seen = v ∷ seen

  abbrev pub after : SpikeFilterState V → List (Option V) → SpikeFilterState V
  after s [] = s
  after s (v ∷ vs) = after (spike_filter n config s v).state vs

  abbrev pub seen_after : List V → List (Option V) → List V
  seen_after seen [] = seen
  seen_after seen (v ∷ vs) = seen_after (seen_with v seen) vs

  -- What a jump to a value far from the accepted one takes.
  unfoldable pub Jumped : V → V → List V → Type 0
  Jumped a v seen = (k : ℕ) × (config.accept_after ≤ suc k) × Confirmed a k v seen

  record Outcome (a v : V) (seen : List V) (r : SpikeFilterResult V) : Type 0 where
    trail : Trail (v ∷ seen) r.state
    jumped : r.rejected ≡ false → Jumped a v seen

  held : V → V → ℕ → SpikeFilterResult V
  held a v cycles = record {
    value = some a;
    rejected = true;
    state = record { accepted = some a; candidate = some v; candidate_cycles = cycles };
  }

  judged-Outcome :
      (a v : V) (cycles k : ℕ) (seen : List V)
      → cycles ≡ suc k
      → Confirmed a k v seen
      → Outcome a v seen
          (if leb config.accept_after cycles then accept n config v else held a v cycles)
  unfolding held Jumped
  judged-Outcome a v cycles k seen e sure = elim (Bool-cases (leb config.accept_after cycles)) [
    | inl enough ↦ rw enough (record {
      trail = calm;
      jumped = λ _. (k, omega (arith, leb→le config.accept_after cycles enough, e), sure);
    })
    | inr short ↦ rw short (record {
      trail =
          subst
            (λ i.
              Trail (v ∷ seen)
                (record { accepted = some a; candidate = some v; candidate_cycles = i }))
            (sym e) (waiting sure);
      jumped = λ same. cc;
    })
  ]

  calm-Outcome :
      (a v : V) (seen : List V)
      → Far v a
      → Outcome a v seen (
          judge_far n config
            (record { accepted = some a; candidate = none; candidate_cycles = 0 })
            v)
  unfolding judge_far held
  calm-Outcome a v seen far = judged-Outcome a v 1 0 seen refl far

  waiting-Outcome :
      (a v c : V) (k : ℕ) (before : List V)
      → Far v a
      → Confirmed a k c before
      → Outcome a v (c ∷ before) (
          judge_far n config
            (record { accepted = some a; candidate = some c; candidate_cycles = suc k })
            v)
  unfolding judge_far held
  waiting-Outcome a v c k before far sure = elim (Bool-cases (near n config v c)) [
    | inl close ↦
        rw close
          (judged-Outcome a v (suc k + 1) (suc k) (c ∷ before) (omega arith) (far, close, sure))
    | inr apart ↦ rw apart (judged-Outcome a v 1 0 (c ∷ before) refl far)
  ]

  some_injective : (a b : V) → some a ≡ some b → a ≡ b
  some_injective a b e = cc

  -- At the accepted value of the state itself.
  own-Outcome :
      (v : V) (seen : List V) (s : SpikeFilterState V) (a : V)
      → s.accepted ≡ some a
      → Trail seen s
      → (near n config v a ≡ false → Outcome a v seen (judge_far n config s v))
  own-Outcome v _ _ a e (calm {a = none}) far = cc
  own-Outcome v seen _ a e (calm {a = some a'}) far =
      subst
        (λ b. Outcome b v seen (
          judge_far n config (record { accepted = some a'; candidate = none; candidate_cycles = 0 })
            v))
        (some_injective a' a e)
        (calm-Outcome a' v seen (subst (λ b. Far v b) (sym (some_injective a' a e)) far))
  own-Outcome v _ _ a e (waiting {before = before} {a = a'} {c = c} {k = k} sure) far =
      subst
        (λ b. Outcome b v (c ∷ before) (
          judge_far n config
            (record { accepted = some a'; candidate = some c; candidate_cycles = suc k }) v))
        (some_injective a' a e)
        (waiting-Outcome a' v c k before (subst (λ b. Far v b) (sym (some_injective a' a e)) far)
          sure)

  spike_filter-Far :
      (s : SpikeFilterState V) (a v : V)
      → s.accepted ≡ some a
      → Far v a
      → spike_filter n config s (some v) ≡ judge_far n config s v
  unfolding spike_filter
  spike_filter-Far s a v e far = ground (arith, e, far)

  step-Trail :
      (v : Option V) (seen : List V) (s : SpikeFilterState V)
      → Trail seen s
      → Trail (seen_with v seen) (spike_filter n config s v).state
  unfolding spike_filter
  step-Trail none seen s t = t
  step-Trail (some v) seen s t = by_level s.accepted refl
    where
      by_level :
          (level : Option V)
          → s.accepted ≡ level
          → Trail (v ∷ seen) (spike_filter n config s (some v)).state
      by_level none e = rw e calm
      by_level (some a) e = elim (Bool-cases (near n config v a)) [
        | inl close ↦ rw e (rw close calm)
        | inr far ↦
            subst (λ r. Trail (v ∷ seen) r.state) (sym (spike_filter-Far s a v e far))
              (own-Outcome v seen s a e t far).trail
      ]

  after-Trail :
      (vs : List (Option V)) (seen : List V) (s : SpikeFilterState V)
      → Trail seen s
      → Trail (seen_after seen vs) (after s vs)
  after-Trail [] seen s t = t
  after-Trail (v ∷ vs) seen s t =
      after-Trail vs (seen_with v seen) (spike_filter n config s v).state (step-Trail v seen s t)

  -- After any values, present or missing, from the idle filter: a value far from the accepted one is
  -- let through only where it and at least `accept_after - 1` present values right before it are all
  -- far from the accepted one, each near to the one before it.
  pub new_level_needs_confirmation :
      (vs : List (Option V)) (a v : V)
      → (after idle_spike_filter_state vs).accepted ≡ some a
      → Far v a
      → (spike_filter n config (after idle_spike_filter_state vs) (some v)).rejected ≡ false
      → Jumped a v (seen_after [] vs)
  new_level_needs_confirmation vs a v e far through =
      let s : SpikeFilterState V = after idle_spike_filter_state vs in
      let outcome =
        own-Outcome v (seen_after [] vs) s a e (after-Trail vs [] idle_spike_filter_state calm)
          far in
      outcome.jumped (ap (λ r. r.rejected) (sym (spike_filter-Far s a v e far)) ∙ through)
