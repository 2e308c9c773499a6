-- ===== src/Breaker.antt =====
-- services/edge-collector/src/breaker/breaker.ts: the circuit breaker of one polled source.
-- Times are whole milliseconds.
pub mod Ladder
mod Tests
use fieldstream.Common.{
  ℕ, ◌+◌, ◌*◌, min, Bool, true, false, not, ◌&&◌, ◌||◌, Option, none, some, leb, ltb, if◌then◌else◌,
}

pub data BreakerView : Type 0 where
  closed opened half_open : BreakerView

pub record Breaker : Type 0 where
  pub failures : ℕ
  pub is_open : Bool
  pub probe_delay_ms : ℕ
  pub next_probe_at : Option ℕ

-- The fields of `BREAKER`.
abbrev pub threshold : ℕ
threshold = 2

abbrev pub first_probe_ms : ℕ
first_probe_ms = 30000

abbrev pub max_probe_ms : ℕ
max_probe_ms = 300000

abbrev pub closed_breaker : Breaker
closed_breaker = record { failures = 0; is_open = false; probe_delay_ms = 0; next_probe_at = none }

abbrev due : Option ℕ → ℕ → Bool
due none now = false
due (some at) now = leb at now

unfoldable pub breaker_allows : Breaker → ℕ → Bool
breaker_allows b now = not b.is_open || due b.next_probe_at now

unfoldable pub breaker_view : Breaker → ℕ → BreakerView
breaker_view b now =
    if not b.is_open then closed else if breaker_allows b now then half_open else opened

unfoldable pub record_success : Breaker
record_success = closed_breaker

unfoldable pub record_failure : Breaker → ℕ → Breaker
record_failure b now =
    let failures = b.failures + 1 in
    let delay = min (b.probe_delay_ms * 2) max_probe_ms in
    if b.is_open
    then record {
      failures = failures;
      is_open = true;
      probe_delay_ms = delay;
      next_probe_at = some (now + delay);
    }
    else if ltb failures threshold
    then record b { failures = failures }
    else record {
      failures = failures;
      is_open = true;
      probe_delay_ms = first_probe_ms;
      next_probe_at = some (now + first_probe_ms);
    }
