-- ===== src/Tracker.antt =====
-- services/stream-processor/src/health/tracker.ts: what one instance of the stream processor knows of
-- the health of the devices that it owns. An instant stands for its ISO form. The identity of a track,
-- which `commit` compares, is a stamp given when the track is made; a signature is kept as its parts.
pub mod Stand
pub mod Check
pub mod Frames
pub mod Handover
pub mod Operations
pub mod Late
pub mod LeafFacts
pub mod Silent
pub mod Loop
pub mod Settled
mod Tests
use Prim.Native.String.{String}
use text.Mathlib.Text.{◌==◌ as str_eq}
use fieldstream.Common.{
  ℕ, zero, suc, ◌+◌, ◌-◌, max, Bool, true, false, not, ◌&&◌, Option, none, some, List, [], ◌∷◌,
  ◌++◌, ltb, if◌then◌else◌, keep, map, any,
}
use fieldstream.Common.Keys.{contains}
use fieldstream.Contracts.{DeviceMode, cooling, HealthStatus, online, unknown, status_eq}
use fieldstream.Health.{HealthReason, HealthPolicy, HealthSnapshot}
use fieldstream.Events.{DeviceEvent, DeviceSnapshot, detect_device_events}

pub record DeviceState : Type 0 where
  pub device_code : String
  pub status : HealthStatus
  pub reason : HealthReason
  pub since : ℕ
  pub mode : DeviceMode
  pub last_ok_at : Option ℕ
  pub consecutive_errors : ℕ

pub record Signature : Type 0 where
  pub status : HealthStatus
  pub reason : HealthReason
  pub mode : DeviceMode

pub record DeviceTrack : Type 0 where
  pub stamp : ℕ
  pub last_ok_at_ms : Option ℕ
  pub handover_at_ms : Option ℕ
  pub grace_from_ms : ℕ
  pub consecutive_errors : ℕ
  pub mode : DeviceMode
  pub mode_guessed : Bool
  pub quiet : Bool
  pub door_open : Option Bool
  pub defrost_active : Option Bool
  pub health : Option HealthSnapshot
  pub status : HealthStatus
  pub snapshot : Option DeviceSnapshot
  pub published : Option Signature

pub record Tracker : Type 0 where
  pub started_at_ms : ℕ
  pub known : List String
  pub owned : List String
  pub tracks : String → Option DeviceTrack
  pub next_stamp : ℕ

abbrev pub signature_of : DeviceState → Signature
signature_of state = record { status = state.status; reason = state.reason; mode = state.mode }

abbrev pub fresh_track : ℕ → ℕ → DeviceTrack
fresh_track stamp grace_from_ms = record {
  stamp = stamp;
  last_ok_at_ms = none;
  handover_at_ms = none;
  grace_from_ms = grace_from_ms;
  consecutive_errors = 0;
  mode = cooling;
  mode_guessed = false;
  quiet = false;
  door_open = none;
  defrost_active = none;
  health = none;
  status = unknown;
  snapshot = none;
  published = none;
}

abbrev pub blind_track : ℕ → ℕ → DeviceTrack
blind_track stamp grace_from_ms = record (fresh_track stamp grace_from_ms) {
  mode_guessed = true;
  quiet = true;
}

abbrev pub restored_track : ℕ → DeviceState → ℕ → ℕ → DeviceTrack
restored_track stamp state now_ms grace_from_ms = record {
  stamp = stamp;
  last_ok_at_ms = state.last_ok_at;
  handover_at_ms = if status_eq state.status online then some now_ms else none;
  grace_from_ms = grace_from_ms;
  consecutive_errors = state.consecutive_errors;
  mode = state.mode;
  mode_guessed = true;
  quiet = false;
  door_open = none;
  defrost_active = none;
  health = some (record { status = state.status; since_ms = state.since });
  status = state.status;
  snapshot = some (record {
    device_code = state.device_code;
    at_ms = now_ms;
    status = state.status;
    mode = state.mode;
    door_open = none;
    defrost_active = none;
  });
  published = some (signature_of state);
}

abbrev pub later_of : Option ℕ → ℕ → ℕ
later_of none handover = handover
later_of (some last) handover = max last handover

unfoldable pub ok_at_for_tree : DeviceTrack → Option ℕ
ok_at_for_tree track = elim track.handover_at_ms [
  | none ↦ track.last_ok_at_ms
  | some handover ↦ some (later_of track.last_ok_at_ms handover)
]

unfoldable pub frame_baseline : DeviceTrack → DeviceMode → Option DeviceSnapshot
frame_baseline track mode = elim track.snapshot [
  | none ↦ none
  | some snapshot ↦ some (if track.mode_guessed then record snapshot { mode = mode } else snapshot)
]

-- `tracks.set(code, track)`
abbrev pub set_track : Tracker → String → DeviceTrack → Tracker
set_track s code track = record s {
  tracks = λ other. if str_eq code other then some track else s.tracks other;
}

unfoldable pub own_track : Tracker → String → Option DeviceTrack
own_track s code = if contains code s.owned then s.tracks code else none

unfoldable pub snapshot_events : String → DeviceTrack → ℕ → DeviceTrack × List DeviceEvent
unfolding detect_device_events
snapshot_events code track at_ms =
    let current : DeviceSnapshot = record {
      device_code = code;
      at_ms = at_ms;
      status = track.status;
      mode = track.mode;
      door_open = track.door_open;
      defrost_active = track.defrost_active;
    } in
    (record track { snapshot = some current }, detect_device_events track.snapshot current)

-- The tracker's own changes: `observeCycle`, `confirmPublished`, `release` and `adopt`.
abbrev pub observed : DeviceTrack → Bool → ℕ → DeviceTrack
observed track ok ts =
    if ok
    then record track { last_ok_at_ms = some ts; consecutive_errors = 0 }
    else record track { consecutive_errors = track.consecutive_errors + 1 }

unfoldable pub observe_cycle : String → Bool → ℕ → Tracker → Tracker
unfolding own_track
observe_cycle code ok ts s = elim (own_track s code) [
  | none ↦ s
  | some track ↦ set_track s code (observed track ok ts)
]

unfoldable pub confirm_one : DeviceState → Tracker → Tracker
unfolding own_track
confirm_one state s = elim (own_track s state.device_code) [
  | none ↦ s
  | some track ↦
      set_track s state.device_code (record track { published = some (signature_of state) })
]

unfoldable pub confirm_published : List DeviceState → Tracker → Tracker
unfolding confirm_one
confirm_published [] s = s
confirm_published (state ∷ rest) s = confirm_published rest (confirm_one state s)

-- `owned.delete(code)` and `owned.add(code)`.
abbrev pub delete : String → List String → List String
delete code owned = keep (λ other. not (str_eq other code)) owned

abbrev pub add : String → List String → List String
add code owned = if contains code owned then owned else owned ++ code ∷ []

unfoldable pub release_device : String → Tracker → Tracker
release_device code s =
    if contains code s.known
    then record (set_track s code (fresh_track s.next_stamp s.started_at_ms)) {
      owned = delete code s.owned;
      next_stamp = s.next_stamp + 1;
    }
    else s

unfoldable pub release_devices : List String → Tracker → Tracker
unfolding release_device
release_devices [] s = s
release_devices (code ∷ codes) s = release_devices codes (release_device code s)

-- `byCode.get(code)`: the last of the states of one device.
abbrev pub restored_state : String → List DeviceState → Option DeviceState
restored_state code [] = none
restored_state code (state ∷ rest) = elim (restored_state code rest) [
  | some later ↦ some later
  | none ↦ if str_eq state.device_code code then some state else none
]

abbrev pub adopted_track : ℕ → Option (List DeviceState) → String → ℕ → ℕ → DeviceTrack
adopted_track stamp none code now_ms started_at_ms = blind_track stamp now_ms
adopted_track stamp (some restored) code now_ms started_at_ms =
    elim (restored_state code restored) [
      | some state ↦ restored_track stamp state now_ms started_at_ms
      | none ↦ fresh_track stamp now_ms
    ]

unfoldable pub adopt_one : ℕ → Option (List DeviceState) → String → Tracker → Tracker
adopt_one now_ms restored code s =
    if contains code s.known
    then record (set_track s code
        (adopted_track s.next_stamp restored code now_ms s.started_at_ms)) {
          owned = add code s.owned;
          next_stamp = s.next_stamp + 1;
        }
    else s

unfoldable pub adopt : ℕ → Option (List DeviceState) → List String → Tracker → Tracker
unfolding adopt_one
adopt now_ms restored [] s = s
adopt now_ms restored (code ∷ codes) s =
    adopt now_ms restored codes (adopt_one now_ms restored code s)
