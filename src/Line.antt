-- ===== src/Line.antt =====
-- services/edge-collector/src/polling/line-worker.ts and frames.ts: the worker of one line. A device's
-- slot is an object whose breaker changes: it is named by its place, and a store gives each place
-- its breaker. Messages keep an instant for its ISO form. Logging and counting callbacks are left
-- out, and so is the cache of read plans, since a plan is a function of its profile and mode.
pub mod Frames
pub mod Pass
pub mod Lifecycle
pub mod Tally
pub mod Answers
pub mod Account
pub mod Stray
pub mod Watch
pub mod Idle
mod Tests
use Prim.Native.String.{String}
use text.Mathlib.Text.{◌==◌ as str_eq}
use fieldstream.Common.{
  ℕ, zero, suc, ◌+◌, ◌-◌, min, Bool, true, false, Option, none, some, List, [], ◌∷◌, ◌++◌, ◌==◌,
  leb, if◌then◌else◌, length, drop, keep, map, sort_by,
}
use fieldstream.Breaker.{Breaker, BreakerView, closed_breaker, breaker_view}
use fieldstream.ReadPlan.{DeviceProfile, PlanMode}
use fieldstream.Polling.{ErrorKind, BackoffStep, cycle_watchdog_ms, hard_timeout_ms}
use fieldstream.Polling.Latency.{LatencyTracker, LatencyWindow, summarize_latency}
use fieldstream.Polling.Device.{RawBlock}

pub record StandDevice : Type 0 where
  pub code : String
  pub line_code : String
  pub slave_id : ℕ
  pub profile_key : String

pub record DeviceContext : Type 0 where
  pub site_code : String
  pub gateway_code : String
  pub line_code : String
  pub device : StandDevice
  pub profile : DeviceProfile

pub record Slot : Type 0 where
  pub place : ℕ
  pub context : DeviceContext

abbrev pub code_of : Slot → String
code_of s = s.context.device.code

pub record TelemetryRaw : Type 0 where
  pub ts : ℕ
  pub site_code : String
  pub gateway_code : String
  pub line_code : String
  pub device_code : String
  pub slave_id : ℕ
  pub profile_key : String
  pub profile_version : ℕ
  pub blocks : List RawBlock
  pub cycle_ms : ℕ
  pub trace_id : ℕ

pub record PollCycle : Type 0 where
  pub ts : ℕ
  pub line_code : String
  pub device_code : String
  pub ok : Bool
  pub error_kind : Option ErrorKind
  pub duration_ms : ℕ
  pub request_count : ℕ
  pub plan_mode : PlanMode
  pub backoff : Option BackoffStep
  pub state : BreakerView
  pub next_probe_at : Option ℕ
  pub trace_id : ℕ

pub data Outcome : Type 0 where
  polled idle disconnected watchdog : Outcome

pub record CycleReport : Type 0 where
  pub outcome : Outcome
  pub duration_ms : ℕ
  pub polled : ℕ
  pub failed : ℕ
  pub next_delay_ms : ℕ

pub record LastCycle : Type 0 where
  pub at : ℕ
  pub report : CycleReport

pub record ReconnectStep : Type 0 where
  pub attempt : ℕ
  pub at : ℕ
  pub step : BackoffStep

pub record DeviceStatus : Type 0 where
  pub device_code : String
  pub slave_id : ℕ
  pub state : BreakerView
  pub failures : ℕ
  pub probe_delay_ms : ℕ
  pub next_probe_at : Option ℕ

pub record LineStatus : Type 0 where
  pub ts : ℕ
  pub line_code : String
  pub running : Bool
  pub connected : Bool
  pub plan_mode : PlanMode
  pub poll_interval_ms : ℕ
  pub request_timeout_ms : ℕ
  pub hard_limit_ms : ℕ
  pub watchdog_limit_ms : ℕ
  pub cycle_started_at : Option ℕ
  pub watchdog_trips : ℕ
  pub last_cycle : Option LastCycle
  pub reconnects : List ReconnectStep
  pub devices : List DeviceStatus
  pub latency : LatencyWindow

-- What a worker holds, with all that it has published.
pub record Line : Type 0 where
  pub code : String
  pub request_timeout_ms : ℕ
  pub slots : List Slot
  pub breakers : ℕ → Breaker
  pub connected : Bool
  pub latency : LatencyTracker
  pub plan_mode : PlanMode
  pub poll_interval_ms : ℕ
  pub reconnect_attempt : ℕ
  pub reconnects : List ReconnectStep
  pub cycle_started_at : Option ℕ
  pub cycle_limit_ms : Option ℕ
  pub watchdog_trips : ℕ
  pub generation : ℕ
  pub last_cycle : Option LastCycle
  pub running : Bool
  pub frames : List TelemetryRaw
  pub cycles : List PollCycle
  pub statuses : List LineStatus

abbrev pub watchdog_retry_ms : ℕ
watchdog_retry_ms = 1000

abbrev pub reconnect_history : ℕ
reconnect_history = 12

-- `lineSlots`, for the gateway of the line, which its caller has looked up. An unknown profile is
-- an error.
abbrev pub places :
    (String → Option DeviceProfile)
    → String
    → String
    → String
    → ℕ
    → List StandDevice
    → Option (List Slot)
places profile_by_key site gateway line k [] = some []
places profile_by_key site gateway line k (d ∷ ds) = elim (profile_by_key d.profile_key) [
  | none ↦ none
  | some profile ↦ elim (places profile_by_key site gateway line (k + 1) ds) [
    | none ↦ none
    | some rest ↦ some (
        record {
          place = k;
          context = record {
            site_code = site;
            gateway_code = gateway;
            line_code = line;
            device = d;
            profile = profile;
          };
        }
        ∷ rest)
  ]
]

unfoldable pub line_slots :
    (String → Option DeviceProfile)
    → String
    → String
    → String
    → List StandDevice
    → Option (List Slot)
line_slots profile_by_key site gateway line devices = places profile_by_key site gateway line 0 (
    sort_by (λ left right. leb left.slave_id right.slave_id)
      (keep (λ d. str_eq d.line_code line) devices))

-- `buildLineStatus` of one device, and of the line.
abbrev pub device_status : (ℕ → Breaker) → ℕ → Slot → DeviceStatus
device_status breakers at slot = record {
  device_code = code_of slot;
  slave_id = slot.context.device.slave_id;
  state = breaker_view (breakers slot.place) at;
  failures = (breakers slot.place).failures;
  probe_delay_ms = (breakers slot.place).probe_delay_ms;
  next_probe_at = (breakers slot.place).next_probe_at;
}

abbrev pub or_else : Option ℕ → ℕ → ℕ
or_else none d = d
or_else (some n) d = n

unfoldable pub status_at : Line → ℕ → LineStatus
status_at l now = record {
  ts = now;
  line_code = l.code;
  running = l.running;
  connected = l.connected;
  plan_mode = l.plan_mode;
  poll_interval_ms = l.poll_interval_ms;
  request_timeout_ms = l.request_timeout_ms;
  hard_limit_ms = hard_timeout_ms l.request_timeout_ms;
  watchdog_limit_ms = or_else l.cycle_limit_ms (cycle_watchdog_ms l.poll_interval_ms);
  cycle_started_at = l.cycle_started_at;
  watchdog_trips = l.watchdog_trips;
  last_cycle = l.last_cycle;
  reconnects = l.reconnects;
  devices = map (device_status l.breakers now) l.slots;
  latency = summarize_latency l.latency.outcomes;
}

unfoldable pub publish_status : Line → ℕ → Line
unfolding status_at
publish_status l now = record l { statuses = l.statuses ++ status_at l now ∷ [] }

unfoldable pub set_plan_mode : Line → PlanMode → ℕ → Line
unfolding publish_status
set_plan_mode l mode now = publish_status (record l { plan_mode = mode }) now

unfoldable pub set_poll_interval : Line → ℕ → ℕ → Line
unfolding publish_status
set_poll_interval l ms now = publish_status (record l { poll_interval_ms = ms }) now
