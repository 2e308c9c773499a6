-- ===== src/ModeSpans/Coverage.antt =====
-- What the spans of packages/domain/src/mode-spans.ts cover and show.
use mathlib.Core.Path.{subst}
use fieldstream.Common.{
  sort_by, insert_by, ℕ, ◌≤◌, ◌<◌, ◌≡◌, refl, sym, ◌⊎◌, inl, inr, true, some, List, [], ◌∷◌, arith,
  leb, if◌then◌else◌, All, Any,
}
use fieldstream.Contracts.{DeviceMode, mode_eq}
use fieldstream.ModeSpans.{
  ModeChange, ModeSpansInput, ModeSpan, Change, not_after, readable, sorted_changes, spans_from,
  build_mode_spans,
}

-- The spans follow one another without a gap or an overlap from `start` to `to`.
abbrev pub Tiles : ℕ → ℕ → List ModeSpan → Type 0
Tiles start to [] = start ≡ to
Tiles start to (s ∷ ss) = (s.from ≡ start) × (start ≤ s.to) × Tiles s.to to ss

-- The mode after the last change at or before `t`.
unfoldable pub mode_at : DeviceMode → List Change → ℕ → DeviceMode
mode_at mode [] t = mode
mode_at mode (c ∷ cs) t = mode_at (if leb c.at_ms t then c.mode else mode) cs t

abbrev pub Shows : ℕ → DeviceMode → ModeSpan → Type 0
Shows t mode s = (s.from ≤ t) × (t < s.to) × (s.mode ≡ mode)

abbrev InTime : List Change → Type 0
InTime [] = Unit
InTime (c ∷ cs) = All (λ d. c.at_ms ≤ d.at_ms) cs × InTime cs

insert-NoEarlier :
    (a : ℕ) (c : Change) (cs : List Change)
    → a ≤ c.at_ms
    → All (λ d. a ≤ d.at_ms) cs
    → All (λ d. a ≤ d.at_ms) (insert_by not_after c cs)
unfolding insert_by
insert-NoEarlier a c [] h hs = (h, tt)
insert-NoEarlier a c (d ∷ ds) h hs = ground (arith, insert-NoEarlier a c ds h hs.1)

NoEarlier-trans :
    (a b : ℕ) (cs : List Change) → a ≤ b → All (λ d. b ≤ d.at_ms) cs → All (λ d. a ≤ d.at_ms) cs
NoEarlier-trans a b [] h hs = tt
NoEarlier-trans a b (d ∷ ds) h hs = (omega (arith, h, hs.0), NoEarlier-trans a b ds h hs.1)

insert-InTime : (c : Change) (cs : List Change) → InTime cs → InTime (insert_by not_after c cs)
unfolding insert_by
insert-InTime c [] h = (tt, tt)
insert-InTime c (d ∷ ds) h = ground (
  arith,
  insert-InTime c ds h.1,
  insert-NoEarlier d.at_ms c ds,
  NoEarlier-trans c.at_ms d.at_ms ds,
)

sort-InTime : (cs : List Change) → InTime (sort_by not_after cs)
unfolding sort_by
sort-InTime [] = tt
sort-InTime (c ∷ cs) = insert-InTime c (sort_by not_after cs) (sort-InTime cs)

mode_at-late :
    (m : DeviceMode) (cs : List Change) (t a : ℕ)
    → t < a
    → All (λ d. a ≤ d.at_ms) cs
    → mode_at m cs t ≡ m
unfolding mode_at
mode_at-late m [] t a h hs = refl
mode_at-late m (c ∷ cs) t a h hs = ground (arith, mode_at-late m cs t a h hs.1)

mode_eq→≡ : (a b : DeviceMode) → mode_eq a b ≡ true → a ≡ b
mode_eq→≡ a b h = ground (arith, h)

-- A change is at or before the window's start, or not before the span that is open.
abbrev Ahead : ℕ → ℕ → List Change → Type 0
Ahead from started cs = All (λ c. (c.at_ms ≤ from) ⊎ (started ≤ c.at_ms)) cs

Ahead-NoEarlier :
    (from started : ℕ) (cs : List Change) → All (λ d. started ≤ d.at_ms) cs → Ahead from started cs
Ahead-NoEarlier from started [] h = tt
Ahead-NoEarlier from started (c ∷ cs) h = (inr h.0, Ahead-NoEarlier from started cs h.1)

Ahead-start : (from : ℕ) (cs : List Change) → Ahead from from cs
Ahead-start from [] = tt
Ahead-start from (c ∷ cs) = (omega arith, Ahead-start from cs)

spans_from-Tiles :
    (from to : ℕ) (m : DeviceMode) (started : ℕ) (cs : List Change)
    → started ≤ to
    → InTime cs
    → Ahead from started cs
    → Tiles started to (spans_from from to m started cs)
unfolding spans_from
spans_from-Tiles from to m started [] le order ahead = (refl, le, refl)
spans_from-Tiles from to m started (c ∷ cs) le order ahead = ground (
  arith,
  ahead.0,
  spans_from-Tiles from to c.mode started cs le order.1 ahead.1,
  spans_from-Tiles from to m started cs le order.1 ahead.1,
  (λ (h : c.at_ms ≤ to).
      spans_from-Tiles from to c.mode c.at_ms cs h order.1
        (Ahead-NoEarlier from c.at_ms cs order.0)),
)

spans_from_cases :
    (from to : ℕ) (m : DeviceMode) (started : ℕ) (c : Change) (cs : List Change)
    → ((c.at_ms ≤ from)
        × (spans_from from to m started (c ∷ cs) ≡ spans_from from to c.mode started cs))
      ⊎ ((to ≤ c.at_ms)
          × (spans_from from to m started (c ∷ cs)
              ≡ record { mode = m; from = started; to = to } ∷ []))
      ⊎ ((c.mode ≡ m) × (spans_from from to m started (c ∷ cs) ≡ spans_from from to m started cs))
      ⊎ ((from < c.at_ms)
          × (spans_from from to m started (c ∷ cs)
              ≡ record { mode = m; from = started; to = c.at_ms }
                ∷ spans_from from to c.mode c.at_ms cs))
unfolding spans_from
spans_from_cases from to m started c cs = ground (arith, mode_eq→≡ c.mode m)

Any-Shows :
    (t : ℕ) {m n : DeviceMode} {xs ys : List ModeSpan}
    → xs ≡ ys
    → m ≡ n
    → Any (Shows t n) ys
    → Any (Shows t m) xs
Any-Shows t {m = m} {n = n} {xs = xs} {ys = ys} same_spans same_mode h =
    subst (λ zs. Any (Shows t m) zs) (sym same_spans)
      (subst (λ k. Any (Shows t k) ys) (sym same_mode) h)

mode_at-past :
    (m : DeviceMode) (c : Change) (cs : List Change) (t : ℕ)
    → c.at_ms ≤ t
    → mode_at m (c ∷ cs) t ≡ mode_at c.mode cs t
unfolding mode_at
mode_at-past m c cs t h = ground (arith, h)

mode_at-same :
    (m : DeviceMode) (c : Change) (cs : List Change) (t : ℕ)
    → c.mode ≡ m
    → mode_at m (c ∷ cs) t ≡ mode_at m cs t
unfolding mode_at
mode_at-same m c cs t h = ground (arith, h)

mode_at-before :
    (m : DeviceMode) (c : Change) (cs : List Change) (t : ℕ)
    → t < c.at_ms
    → InTime (c ∷ cs)
    → mode_at m (c ∷ cs) t ≡ m
unfolding mode_at
mode_at-before m c cs t h order = ground (arith, mode_at-late m cs t c.at_ms h order.0)

lt_or_le : (a b : ℕ) → (a < b) ⊎ (b ≤ a)
lt_or_le a b = omega arith

spans_from-Shows :
    (from to : ℕ) (m : DeviceMode) (started : ℕ) (cs : List Change) (t : ℕ)
    → from ≤ started
    → started ≤ t
    → t < to
    → InTime cs
    → Any (Shows t (mode_at m cs t)) (spans_from from to m started cs)
unfolding spans_from mode_at
spans_from-Shows from to m started [] t fs st tt' order = inl (st, tt', refl)
spans_from-Shows from to m started (c ∷ cs) t fs st tt' order =
    elim (spans_from_cases from to m started c cs) [
      | inl (past, same) ↦
          Any-Shows t same (mode_at-past m c cs t (omega (arith, past, fs, st)))
            (spans_from-Shows from to c.mode started cs t fs st tt' order.1)
      | inr (inl (beyond, same)) ↦
          Any-Shows t same (mode_at-before m c cs t (omega (arith, beyond, tt')) order)
            (inl (st, tt', refl))
      | inr (inr (inl (kept, same))) ↦
          Any-Shows t same (mode_at-same m c cs t kept)
            (spans_from-Shows from to m started cs t fs st tt' order.1)
      | inr (inr (inr (later, same))) ↦ elim (lt_or_le t c.at_ms) [
        | inl earlier ↦
            Any-Shows t same (mode_at-before m c cs t earlier order) (inl (st, earlier, refl))
        | inr reached ↦ Any-Shows t same (mode_at-past m c cs t reached) (
            inr (
              spans_from-Shows from to c.mode c.at_ms cs t (omega (arith, later)) reached tt'
                order.1))
      ]
    ]

module _ (initial : DeviceMode) (changes : List ModeChange) (from to : ℕ) where
  abbrev pub window : ModeSpansInput
  window = record { from = some from; to = some to; initial_mode = initial; changes = changes }

  window-spans :
      from < to → build_mode_spans window ≡ spans_from from to initial from (sorted_changes changes)
  unfolding build_mode_spans
  window-spans h = ground (arith, h)

  -- The spans of a window that is not empty follow one another from its start to its end without a
  -- gap or an overlap.
  pub build_mode_spans-Tiles : from < to → Tiles from to (build_mode_spans window)
  unfolding sorted_changes
  build_mode_spans-Tiles h = subst (Tiles from to) (sym (window-spans h)) (
      spans_from-Tiles from to initial from (sorted_changes changes) (omega (arith, h))
        (sort-InTime (readable changes)) (Ahead-start from (sorted_changes changes)))

  -- At each instant of a window that is not empty some span is over that instant and shows the mode
  -- after the last change, in the order of their times, at or before it.
  pub build_mode_spans-Shows :
      (t : ℕ)
      → from ≤ t
      → t < to
      → Any (Shows t (mode_at initial (sorted_changes changes) t)) (build_mode_spans window)
  unfolding sorted_changes
  build_mode_spans-Shows t h k = Any-Shows t (window-spans (omega (arith, h, k))) refl (
      spans_from-Shows from to initial from (sorted_changes changes) t (omega arith) h k
        (sort-InTime (readable changes)))
