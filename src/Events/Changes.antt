-- ===== src/Events/Changes.antt =====
-- What the events of packages/domain/src/events.ts tell of a device.
use fieldstream.Common.{
  ◌≡◌, refl, ap, ◌∙◌, ◌++◌, ◌&&◌, not, Bool, true, false, Option, some, List, [], ◌∷◌, arith,
}
use fieldstream.Contracts.{DeviceMode, mode_eq}
use fieldstream.Events.{
  DeviceEventKind, mode_changed, door_opened, door_closed, defrost_started, defrost_finished,
  Payload, from_to, DeviceEvent, DeviceSnapshot, changes, add_if, went_offline, came_online, is_on,
  is_off, nothing, detect_device_events,
}

-- The device as its events tell it: what a reader of the events, who knew the device before, takes
-- its mode, its door and its defrost to be.
pub record Told : Type 0 where
  pub mode : DeviceMode
  pub door_open : Option Bool
  pub defrost_active : Option Bool

unfoldable pub heard : DeviceEvent → Told → Told
heard e told = by_kind e.kind e.payload
  where
    by_kind : DeviceEventKind → Payload → Told
    by_kind mode_changed (from_to before after) = record told { mode = after }
    by_kind door_opened payload = record told { door_open = some true }
    by_kind door_closed payload = record told { door_open = some false }
    by_kind defrost_started payload = record told { defrost_active = some true }
    by_kind defrost_finished payload = record told { defrost_active = some false }
    by_kind _ payload = told

unfoldable pub heard_all : List DeviceEvent → Told → Told
heard_all [] told = told
heard_all (e ∷ es) told = heard_all es (heard e told)

abbrev pub told_of : DeviceSnapshot → Told
told_of s = record { mode = s.mode; door_open = s.door_open; defrost_active = s.defrost_active }

heard_all-append :
    (xs ys : List DeviceEvent) (t : Told) → heard_all (xs ++ ys) t ≡ heard_all ys (heard_all xs t)
unfolding heard_all
heard_all-append [] ys t = refl
heard_all-append (x ∷ xs) ys t = heard_all-append xs ys (heard x t)

-- Hearing one part after another.
and_then :
    (xs ys : List DeviceEvent) (t : Told) {u v : Told}
    → heard_all xs t ≡ u
    → heard_all ys u ≡ v
    → heard_all (xs ++ ys) t ≡ v
and_then xs ys t first second = heard_all-append xs ys t ∙ ap (heard_all ys) first ∙ second

module _ (curr : DeviceSnapshot) (t : Told) where
  mode_heard :
      (before : DeviceMode)
      → t.mode ≡ before
      → heard_all
          (add_if curr (not (mode_eq before curr.mode)) mode_changed (from_to before curr.mode))
          t
        ≡ record t { mode = curr.mode }
  unfolding heard heard_all
  mode_heard before e = ground (arith, e)

  door_heard :
      (d d' : Bool)
      → t.door_open ≡ some d
      → heard_all
          (add_if curr (is_on (some d) && is_off (some d')) door_closed nothing)
          (heard_all (add_if curr (is_off (some d) && is_on (some d')) door_opened nothing) t)
        ≡ record t { door_open = some d' }
  unfolding heard heard_all
  door_heard d d' e = ground (arith, e)

  defrost_heard :
      (f f' : Bool)
      → t.defrost_active ≡ some f
      → heard_all
          (add_if curr (is_on (some f) && is_off (some f')) defrost_finished nothing)
          (heard_all (add_if curr (is_off (some f) && is_on (some f')) defrost_started nothing) t)
        ≡ record t { defrost_active = some f' }
  unfolding heard heard_all
  defrost_heard f f' e = ground (arith, e)

  offline_heard :
      (b : Bool) (payload : Payload) → heard_all (add_if curr b went_offline payload) t ≡ t
  unfolding heard heard_all
  offline_heard true payload = refl
  offline_heard false payload = refl

  online_heard :
      (b : Bool) (payload : Payload) → heard_all (add_if curr b came_online payload) t ≡ t
  unfolding heard heard_all
  online_heard true payload = refl
  online_heard false payload = refl

-- Where the flags of both snapshots are known, the events between them are enough: a reader who knew
-- the mode, the door and the defrost of the first snapshot knows those of the second.
pub events_are_enough :
    (prev curr : DeviceSnapshot) (d d' f f' : Bool)
    → prev.door_open ≡ some d
    → curr.door_open ≡ some d'
    → prev.defrost_active ≡ some f
    → curr.defrost_active ≡ some f'
    → heard_all (detect_device_events (some prev) curr) (told_of prev) ≡ told_of curr
unfolding detect_device_events changes
events_are_enough prev curr d d' f f' e e' g g' =
    rw (e, e', g, g')
      (and_then _ _ _
        (and_then _ _ _
          (and_then _ _ _
            (and_then _ _ _
              (and_then _ _ _ (and_then _ _ _ (mode_heard curr _ prev.mode refl) refl)
                (door_heard curr _ d d' refl))
              refl)
            (defrost_heard curr _ f f' refl))
          (offline_heard curr _ _ _))
        (online_heard curr _ _ _))
