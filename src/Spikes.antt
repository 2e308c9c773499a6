-- ===== src/Spikes.antt =====
-- packages/domain/src/filters.ts: the filter that keeps a sensor's spikes out. Values are numbers of
-- JavaScript, taken over their order and difference; `Math.abs(x - y) <= d` is kept as the two
-- differences not being above `d`.
pub mod Confirmation
mod Tests
use fieldstream.Common.{
  ℕ, ◌+◌, Bool, true, false, not, ◌&&◌, Option, none, some, leb, if◌then◌else◌, List, [], ◌∷◌,
}
use fieldstream.Contracts.{Numbers}

pub record SpikeFilterState (V : Type 0) : Type 0 where
  pub accepted : Option V
  pub candidate : Option V
  pub candidate_cycles : ℕ

pub record SpikeFilterConfig (V : Type 0) : Type 0 where
  pub max_delta : V
  pub accept_after : ℕ

pub record SpikeFilterResult (V : Type 0) : Type 0 where
  pub value : Option V
  pub rejected : Bool
  pub state : SpikeFilterState V

abbrev pub idle_spike_filter_state : {V : Type 0} → SpikeFilterState V
idle_spike_filter_state = record { accepted = none; candidate = none; candidate_cycles = 0 }

module _ {V : Type 0} (n : Numbers V) (config : SpikeFilterConfig V) where
  unfoldable pub near : V → V → Bool
  near x y = not (n.lt config.max_delta (n.sub x y)) && not (n.lt config.max_delta (n.sub y x))

  abbrev pub accept : V → SpikeFilterResult V
  accept value = record {
    value = some value;
    rejected = false;
    state = record { accepted = some value; candidate = none; candidate_cycles = 0 };
  }

  abbrev pub cycles_with : SpikeFilterState V → V → ℕ
  cycles_with state value = elim state.candidate [
    | none ↦ 1
    | some candidate ↦ if near value candidate then state.candidate_cycles + 1 else 1
  ]

  -- A value that is far from the accepted one.
  unfoldable pub judge_far : SpikeFilterState V → V → SpikeFilterResult V
  judge_far state value =
      let cycles = cycles_with state value in
      if leb config.accept_after cycles then accept value else record {
        value = state.accepted;
        rejected = true;
        state = record {
          accepted = state.accepted;
          candidate = some value;
          candidate_cycles = cycles;
        };
      }

  unfoldable pub spike_filter : SpikeFilterState V → Option V → SpikeFilterResult V
  unfolding judge_far
  spike_filter state none = record { value = none; rejected = false; state = state }
  spike_filter state (some value) = elim state.accepted [
    | none ↦ accept value
    | some accepted ↦ if near value accepted then accept value else judge_far state value
  ]
