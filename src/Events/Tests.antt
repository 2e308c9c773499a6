-- ===== src/Events/Tests.antt =====
-- Runs of packages/domain/src/events.ts on concrete snapshots.
use fieldstream.Common.{◌≡◌, refl, some, true, false, [], ◌∷◌, map}
use fieldstream.Contracts.{cooling, defrost, online, offline}
use fieldstream.Events.{
  DeviceEvent, DeviceEventKind, DeviceSnapshot, mode_changed, door_opened, defrost_started,
  went_offline, changes, detect_device_events,
}
use fieldstream.Events.Changes.{told_of, heard_all, events_are_enough}

abbrev before : DeviceSnapshot
before = record {
  device_code = "RC-101";
  at_ms = 1000;
  status = online;
  mode = cooling;
  door_open = some false;
  defrost_active = some false;
}

abbrev later : DeviceSnapshot
later = record {
  device_code = "RC-101";
  at_ms = 2000;
  status = offline;
  mode = defrost;
  door_open = some true;
  defrost_active = some true;
}

abbrev kind_of : DeviceEvent → DeviceEventKind
kind_of e = e.kind

four_events :
    map kind_of (detect_device_events (some before) later)
    ≡ mode_changed ∷ door_opened ∷ defrost_started ∷ went_offline ∷ []
unfolding detect_device_events changes
four_events = refl

events_are_enough_example :
    heard_all (detect_device_events (some before) later) (told_of before) ≡ told_of later
events_are_enough_example = events_are_enough before later false true false true refl refl refl refl
