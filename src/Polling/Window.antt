-- ===== src/Polling/Window.antt =====
-- What the ring of services/edge-collector/src/polling/latency.ts holds and what its summary counts.
use fieldstream.Common.{
  ℕ, zero, suc, ◌+◌, ◌-◌, ◌%◌, ◌≤◌, ◌<◌, ◌≡◌, refl, sym, ap, ◌∙◌, ◌⊎◌, inl, inr, List, [], ◌∷◌,
  ◌++◌, arith, ltb, ltb→lt, length, take, drop, Bool-cases, length-append, length-drop, drop-append,
  drop-nil, drop-drop,
}
use mathlib.Core.List.{append_assoc, append-nil}
use mathlib.Core.Path.{subst}
use native.Mathlib.Nat.{mod-lt, mod_self, mod-eq_of_lt}
use fieldstream.Polling.Latency.{
  RequestOutcome, LatencyTracker, new_tracker, set_at, record_outcome,
}

-- The outcomes of the ring, oldest first.
abbrev pub oldest_first : LatencyTracker → List RequestOutcome
oldest_first t = drop t.next t.outcomes ++ take t.next t.outcomes

unfoldable pub record_all : ℕ → LatencyTracker → List RequestOutcome → LatencyTracker
record_all capacity t [] = t
record_all capacity t (o ∷ os) = record_all capacity (record_outcome capacity t o) os

module _ {A : Type 0} where
  drop-set_at : (xs : List A) (i : ℕ) (v : A) → drop (suc i) (set_at xs i v) ≡ drop (suc i) xs
  drop-set_at [] i v = refl
  drop-set_at (x ∷ xs) zero v = refl
  drop-set_at (x ∷ xs) (suc i) v = drop-set_at xs i v

  take-set_at :
      (xs : List A) (i : ℕ) (v : A)
      → i < length xs
      → take (suc i) (set_at xs i v) ≡ take i xs ++ v ∷ []
  take-set_at [] i v lt = absurd (omega (arith, lt))
  take-set_at (x ∷ xs) zero v lt = refl
  take-set_at (x ∷ xs) (suc i) v lt = ap (λ r. x ∷ r) (take-set_at xs i v (omega (arith, lt)))

  length-set_at : (xs : List A) (i : ℕ) (v : A) → length (set_at xs i v) ≡ length xs
  length-set_at [] i v = refl
  length-set_at (x ∷ xs) zero v = refl
  length-set_at (x ∷ xs) (suc i) v = ap suc (length-set_at xs i v)

  take-all : (n : ℕ) (xs : List A) → length xs ≤ n → take n xs ≡ xs
  take-all zero [] le = refl
  take-all zero (x ∷ xs) le = absurd (omega (arith, le))
  take-all (suc n) [] le = refl
  take-all (suc n) (x ∷ xs) le = ap (λ r. x ∷ r) (take-all n xs (omega (arith, le)))

  drop-all : (n : ℕ) (xs : List A) → length xs ≤ n → drop n xs ≡ []
  drop-all zero [] le = refl
  drop-all zero (x ∷ xs) le = absurd (omega (arith, le))
  drop-all (suc n) [] le = refl
  drop-all (suc n) (x ∷ xs) le = drop-all n xs (omega (arith, le))

  -- Taking one off the front of the list rotated at `i`.
  drop_one-rotated :
      (xs : List A) (i : ℕ)
      → i < length xs
      → drop 1 (drop i xs ++ take i xs) ≡ drop (suc i) xs ++ take i xs
  drop_one-rotated xs i lt =
      drop-append 1 (drop i xs) (take i xs) (omega (arith, lt, length-drop i xs))
      ∙ ap (λ r. r ++ take i xs) (drop-drop i 1 (suc i) xs (omega arith))

  -- Writing at the oldest place of a full ring and moving on by one.
  rotated-set_at :
      (xs : List A) (i next : ℕ) (v : A)
      → i < length xs
      → ((next ≡ suc i) ⊎ ((next ≡ 0) × (suc i ≡ length xs)))
      → drop next (set_at xs i v) ++ take next (set_at xs i v)
        ≡ drop 1 (drop i xs ++ take i xs) ++ v ∷ []
  rotated-set_at xs i next v lt (inl e) =
      ap (λ k. drop k (set_at xs i v) ++ take k (set_at xs i v)) e
      ∙ ap (λ r. r ++ take (suc i) (set_at xs i v)) (drop-set_at xs i v)
      ∙ ap (λ r. drop (suc i) xs ++ r) (take-set_at xs i v lt)
      ∙ sym (append_assoc (drop (suc i) xs) (take i xs) (v ∷ []))
      ∙ ap (λ r. r ++ v ∷ []) (sym (drop_one-rotated xs i lt))
  rotated-set_at xs i next v lt (inr (e, last)) =
      ap (λ k. drop k (set_at xs i v) ++ take k (set_at xs i v)) e
      ∙ append-nil (set_at xs i v)
      ∙ sym (take-all (suc i) (set_at xs i v) (omega (arith, last, length-set_at xs i v)))
      ∙ take-set_at xs i v lt
      ∙ ap (λ r. (r ++ take i xs) ++ v ∷ []) (sym (drop-all (suc i) xs (omega (arith, last))))
      ∙ ap (λ r. r ++ v ∷ []) (sym (drop_one-rotated xs i lt))

-- The ring after the outcomes `seen`.
record Holds (capacity : ℕ) (t : LatencyTracker) (seen : List RequestOutcome) : Type 0 where
  newest : oldest_first t ≡ drop (length seen - capacity) seen
  within : t.next < capacity
  sized : length t.outcomes + (length seen - capacity) ≡ length seen
  filling : length seen < capacity → t.next ≡ 0

module _ (capacity : ℕ) (t : LatencyTracker) (seen : List RequestOutcome) (o : RequestOutcome) where
  filling-Holds :
      Holds capacity t seen
      → length t.outcomes < capacity
      → Holds capacity (record t { outcomes = t.outcomes ++ o ∷ [] }) (seen ++ o ∷ [])
  filling-Holds h room = record {
    newest =
        ap (λ k. drop k (t.outcomes ++ o ∷ []) ++ take k (t.outcomes ++ o ∷ [])) at_front
        ∙ append-nil (t.outcomes ++ o ∷ [])
        ∙ ap (λ r. r ++ o ∷ []) all_seen
        ∙ none_gone;
    within = h.within;
    sized = omega (arith, room, h.sized, grown, length-append t.outcomes (o ∷ []));
    filling = λ _. at_front;
  }
    where
      grown : length (seen ++ o ∷ []) ≡ length seen + 1
      grown = length-append seen (o ∷ [])

      at_front : t.next ≡ 0
      at_front = h.filling (omega (arith, room, h.sized))

      none_gone : seen ++ o ∷ [] ≡ drop (length (seen ++ o ∷ []) - capacity) (seen ++ o ∷ [])
      none_gone = ap (λ k. drop k (seen ++ o ∷ [])) {x = 0} (omega (arith, grown, room, h.sized))

      none_before : drop (length seen - capacity) seen ≡ seen
      none_before = ap (λ k. drop k seen) {y = 0} (omega (arith, room, h.sized))

      all_seen : t.outcomes ≡ seen
      all_seen =
          sym (append-nil t.outcomes)
          ∙ ap (λ k. drop k t.outcomes ++ take k t.outcomes) (sym at_front)
          ∙ h.newest
          ∙ none_before

  wrap_cases : (i c : ℕ) → i < c → ((i + 1) % c ≡ suc i) ⊎ (((i + 1) % c ≡ 0) × (suc i ≡ c))
  wrap_cases i c lt = elim (lt_or_eq (suc i) c lt) [
    | inl below ↦ inl (mod-eq_of_lt {n = i + 1} {m = c} (omega (arith, below)) ∙ omega arith)
    | inr e ↦ inr (ap (λ k. k % c) {x = i + 1} {y = c} (omega (arith, e)) ∙ mod_self c, e)
  ]
    where
      lt_or_eq : (a b : ℕ) → a ≤ b → (a < b) ⊎ (a ≡ b)
      lt_or_eq a b le = omega (arith, le)

  full-Holds :
      Holds capacity t seen
      → capacity ≤ length t.outcomes
      → Holds capacity
          (record { outcomes = set_at t.outcomes t.next o; next = (t.next + 1) % capacity })
          (seen ++ o ∷ [])
  full-Holds h full = record {
    newest =
        rotated-set_at t.outcomes t.next ((t.next + 1) % capacity) o (omega (arith, full, h.within))
          (wraps (wrap_cases t.next capacity h.within))
        ∙ ap (λ r. drop 1 r ++ o ∷ []) h.newest
        ∙ ap (λ r. r ++ o ∷ [])
            (drop-drop (length seen - capacity) 1 (length seen + 1 - capacity) seen
              (omega (arith, full, h.sized)))
        ∙ sym
            (drop-append (length seen + 1 - capacity) seen (o ∷ []) (omega (arith, full, h.sized)))
        ∙ ap (λ k. drop k (seen ++ o ∷ [])) (omega (arith, grown));
    within = mod-lt (t.next + 1) (omega (arith, h.within));
    sized = omega (arith, grown, full, h.sized, length-set_at t.outcomes t.next o);
    filling = λ lt. absurd (omega (arith, lt, grown, full, h.sized));
  }
    where
      grown : length (seen ++ o ∷ []) ≡ length seen + 1
      grown = length-append seen (o ∷ [])

      same_size : capacity ≡ length t.outcomes
      same_size = omega (arith, full, h.sized)

      wraps :
          ((t.next + 1) % capacity ≡ suc t.next)
            ⊎ (((t.next + 1) % capacity ≡ 0) × (suc t.next ≡ capacity))
          → ((t.next + 1) % capacity ≡ suc t.next)
            ⊎ (((t.next + 1) % capacity ≡ 0) × (suc t.next ≡ length t.outcomes))
      wraps (inl e) = inl e
      wraps (inr (e, last)) = inr (e, omega (arith, last, same_size))

record_outcome-Holds :
    (capacity : ℕ) (t : LatencyTracker) (seen : List RequestOutcome) (o : RequestOutcome)
    → Holds capacity t seen
    → Holds capacity (record_outcome capacity t o) (seen ++ o ∷ [])
unfolding record_outcome
record_outcome-Holds capacity t seen o h = elim (Bool-cases (ltb (length t.outcomes) capacity)) [
  | inl room ↦
      rw room (filling-Holds capacity t seen o h (ltb→lt (length t.outcomes) capacity room))
  | inr full ↦ rw full (full-Holds capacity t seen o h (ground (arith, full)))
]

record_all-Holds :
    (capacity : ℕ) (t : LatencyTracker) (seen os : List RequestOutcome)
    → Holds capacity t seen
    → Holds capacity (record_all capacity t os) (seen ++ os)
unfolding record_all
record_all-Holds capacity t seen [] h = subst (Holds capacity t) (sym (append-nil seen)) h
record_all-Holds capacity t seen (o ∷ os) h =
    subst (Holds capacity (record_all capacity (record_outcome capacity t o) os))
      (append_assoc seen (o ∷ []) os)
      (record_all-Holds capacity (record_outcome capacity t o) (seen ++ o ∷ []) os
        (record_outcome-Holds capacity t seen o h))

-- A ring with room for at least one outcome holds, read from the oldest on, exactly the last
-- `capacity` of the outcomes recorded, in their order.
pub record_all-newest :
    (capacity : ℕ) (os : List RequestOutcome)
    → 1 ≤ capacity
    → oldest_first (record_all capacity new_tracker os) ≡ drop (length os - capacity) os
record_all-newest capacity os room = holds.newest
  where
    holds : Holds capacity (record_all capacity new_tracker os) os
    holds = record_all-Holds capacity new_tracker [] os (record {
      newest = sym (drop-nil (0 - capacity));
      within = room;
      sized = omega arith;
      filling = λ _. refl;
    })
