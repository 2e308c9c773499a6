-- ===== src/Events.antt =====
-- packages/domain/src/events.ts: the events of a device, told from two snapshots of it. The instant
-- stands for its ISO form; a payload is the state before, where the source sends one.
pub mod Changes
mod Tests
use Prim.Native.String.{String}
use fieldstream.Common.{
  ℕ, Bool, true, false, not, ◌&&◌, Option, none, some, List, [], ◌∷◌, ◌++◌, if◌then◌else◌,
}
use fieldstream.Contracts.{DeviceMode, mode_eq, HealthStatus, status_eq, offline, online}

pub data DeviceEventKind : Type 0 where
  mode_changed door_opened door_closed defrost_started defrost_finished went_offline came_online :
      DeviceEventKind

pub data Payload : Type 0 where
  nothing : Payload
  from_to : DeviceMode → DeviceMode → Payload
  from_status : HealthStatus → Payload

pub record DeviceEvent : Type 0 where
  pub device_code : String
  pub kind : DeviceEventKind
  pub occurred_at : ℕ
  pub payload : Payload

pub record DeviceSnapshot : Type 0 where
  pub device_code : String
  pub at_ms : ℕ
  pub status : HealthStatus
  pub mode : DeviceMode
  pub door_open : Option Bool
  pub defrost_active : Option Bool

-- `flag === true` and `flag === false`, of a flag that may be unknown.
abbrev pub is_on : Option Bool → Bool
is_on none = false
is_on (some flag) = flag

abbrev pub is_off : Option Bool → Bool
is_off none = false
is_off (some flag) = not flag

-- `if (test) add(kind, payload)`.
abbrev pub add_if : DeviceSnapshot → Bool → DeviceEventKind → Payload → List DeviceEvent
add_if curr test kind payload =
    if test
    then record {
      device_code = curr.device_code;
      kind = kind;
      occurred_at = curr.at_ms;
      payload = payload;
    }
      ∷ []
    else []

unfoldable pub changes : DeviceSnapshot → DeviceSnapshot → List DeviceEvent
changes prev curr =
    add_if curr (not (mode_eq prev.mode curr.mode)) mode_changed (from_to prev.mode curr.mode)
    ++ add_if curr (is_off prev.door_open && is_on curr.door_open) door_opened nothing
    ++ add_if curr (is_on prev.door_open && is_off curr.door_open) door_closed nothing
    ++ add_if curr (is_off prev.defrost_active && is_on curr.defrost_active) defrost_started nothing
    ++ add_if curr (is_on prev.defrost_active && is_off curr.defrost_active) defrost_finished
        nothing
    ++ add_if curr (not (status_eq prev.status offline) && status_eq curr.status offline)
        went_offline (from_status prev.status)
    ++ add_if curr (not (status_eq prev.status online) && status_eq curr.status online) came_online
        (from_status prev.status)

unfoldable pub detect_device_events : Option DeviceSnapshot → DeviceSnapshot → List DeviceEvent
unfolding changes
detect_device_events none curr = []
detect_device_events (some prev) curr = changes prev curr
