-- ===== src/Spikes/Tests.antt =====
-- Runs of the filter of packages/domain/src/filters.ts.
use fieldstream.Common.{ℕ, ◌-◌, ◌≡◌, refl, Option, none, some, List, [], ◌∷◌, ltb, ◌+◌, false}
use fieldstream.Contracts.{Numbers}
use fieldstream.Spikes.{SpikeFilterConfig, idle_spike_filter_state, spike_filter, judge_far, near}
use fieldstream.Spikes.Confirmation.{after, seen_after, Far, Jumped, new_level_needs_confirmation}

abbrev natural : Numbers ℕ
natural = record { lt = ltb; add = λ x y. x + y; sub = λ x y. x - y }

abbrev two_in_a_row : SpikeFilterConfig ℕ
two_in_a_row = record { max_delta = 5; accept_after = 2 }

-- A level, a missing value, and the first value of a new level.
abbrev values : List (Option ℕ)
values = some 10 ∷ none ∷ some 50 ∷ []

level_ten : (after natural two_in_a_row idle_spike_filter_state values).accepted ≡ some 10
unfolding spike_filter judge_far near
level_ten = refl

away_from_ten : Far natural two_in_a_row 52 10
unfolding near
away_from_ten = refl

let_through :
    (spike_filter natural two_in_a_row
      (after natural two_in_a_row idle_spike_filter_state values)
      (some 52)).rejected
    ≡ false
unfolding spike_filter judge_far near
let_through = refl

new_level_needs_confirmation_example :
    Jumped natural two_in_a_row 10 52 (seen_after natural two_in_a_row [] values)
new_level_needs_confirmation_example =
    new_level_needs_confirmation natural two_in_a_row values 10 52 level_ten away_from_ten
      let_through
