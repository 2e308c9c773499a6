-- ===== src/Polling.antt =====
-- services/edge-collector/src/transport and src/polling: a device is asked for each block of its read
-- plan, failures are classified, response times are kept in a ring, and one worker walks a line.
-- The clock does not go back, so a duration is a difference of natural numbers of milliseconds.
pub mod Latency
pub mod Device
pub mod Window
pub mod Summary
pub mod Answers
mod Tests
use fieldstream.Common.{
  ℕ, ◌+◌, ◌-◌, ◌*◌, ◌^◌, min, max, Bool, true, false, ◌||◌, List, [], ◌∷◌, if◌then◌else◌,
}
use fieldstream.Common.Int.{ℤ, pos_part, neg_part}

pub data ErrorKind : Type 0 where
  timeout crc exception disconnected stalled : ErrorKind

-- What `classifyError` reads of a thrown value. The patterns that it matches on the message are
-- kept as their outcomes.
pub data Failure : Type 0 where
  hard_timeout not_an_object : Failure
  thrown : (has_modbus_code errno_timed_out text_timed_out text_damaged : Bool) → Failure

unfoldable pub classify_error : Failure → ErrorKind
classify_error hard_timeout = stalled
classify_error not_an_object = disconnected
classify_error (thrown has_modbus_code errno_timed_out text_timed_out text_damaged) =
    if has_modbus_code
    then exception
    else if errno_timed_out || text_timed_out
    then timeout
    else if text_damaged
    then crc
    else disconnected

abbrev pub needs_reconnect : ErrorKind → Bool
needs_reconnect disconnected = true
needs_reconnect stalled = true
needs_reconnect _ = false

abbrev pub is_timeout : ErrorKind → Bool
is_timeout timeout = true
is_timeout stalled = true
is_timeout _ = false

abbrev pub hard_timeout_ms : ℕ → ℕ
hard_timeout_ms request_timeout_ms = request_timeout_ms * 2 + 250

unfoldable pub cycle_watchdog_ms : ℕ → ℕ
cycle_watchdog_ms poll_interval_ms = max (poll_interval_ms * 6) 300000

pub record BackoffStep : Type 0 where
  pub base_ms : ℕ
  pub jitter_ms : ℤ
  pub chosen_ms : ℕ

abbrev pub reconnect_base_ms : ℕ → ℕ
reconnect_base_ms attempt = min (1000 * 2 ^ attempt) 30000

-- `jitter` is `Math.round((random() * 2 - 1) * 0.1 * baseMs)`, a tenth of the base at most.
unfoldable pub reconnect_delay : ℕ → (ℕ → ℤ) → BackoffStep
reconnect_delay attempt jitter =
    let base = reconnect_base_ms attempt in
    record {
      base_ms = base;
      jitter_ms = jitter base;
      chosen_ms = base + pos_part (jitter base) - neg_part (jitter base);
    }
