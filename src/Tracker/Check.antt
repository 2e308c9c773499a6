-- ===== src/Tracker/Check.antt =====
-- `evaluate` of services/stream-processor/src/health/tracker.ts: a check of all devices that the
-- instance owns. The trees of the windows of grace are computed where they are read, before any track
-- changes, in place of a cache.
use Prim.Native.String.{String}
use fieldstream.Common.{
  ℕ, ◌+◌, Bool, false, ◌&&◌, Option, none, some, List, [], ◌∷◌, ◌++◌, ltb, if◌then◌else◌,
}
use fieldstream.Common.Keys.{lookup}
use fieldstream.Contracts.{mode_eq, status_eq}
use fieldstream.Health.{HealthPolicy, startup_grace, reason_eq, Summary}
use fieldstream.Events.{DeviceEvent, DeviceSnapshot}
use fieldstream.Tracker.{
  DeviceState, Signature, DeviceTrack, Tracker, signature_of, set_track, own_track, snapshot_events,
}
use fieldstream.Tracker.Stand.{Stand, leaves_from}

pub record HealthEvaluation : Type 0 where
  pub tracker : Tracker
  pub states : List DeviceState
  pub events : List DeviceEvent

abbrev pub signature_eq : Signature → Option Signature → Bool
signature_eq a none = false
signature_eq a (some b) =
    status_eq a.status b.status && reason_eq a.reason b.reason && mode_eq a.mode b.mode

abbrev pub state_at : DeviceTrack → Summary → DeviceState
state_at track leaf = record {
  device_code = leaf.code;
  status = leaf.status;
  reason = leaf.reason;
  since = leaf.since;
  mode = track.mode;
  last_ok_at = track.last_ok_at_ms;
  consecutive_errors = leaf.consecutive_errors;
}

-- A track takes the status of its leaf.
abbrev pub judged : DeviceTrack → Summary → DeviceTrack
judged track leaf = record track {
  health = some (record { status = leaf.status; since_ms = leaf.since });
  status = leaf.status;
}

abbrev pub with_status : Option DeviceSnapshot → Summary → Option DeviceSnapshot
with_status none leaf = none
with_status (some snapshot) leaf = some (record snapshot { status = leaf.status })

-- A quiet track whose status is clear now speaks, without telling the status as a change.
abbrev pub spoken : DeviceTrack → Summary → DeviceTrack
spoken track leaf =
    if track.quiet
    then record track { quiet = false; snapshot = with_status track.snapshot leaf }
    else track

abbrev pub stays_quiet : DeviceTrack → Summary → Bool
stays_quiet track leaf = track.quiet && reason_eq leaf.reason startup_grace

-- The body of the loop over the leaves, for the track of an own device, and its node.
unfoldable pub check_track :
    String → DeviceTrack → Summary → ℕ → HealthEvaluation → HealthEvaluation
unfolding snapshot_events
check_track code track leaf now_ms out =
    let known = judged track leaf in
    if stays_quiet known leaf
    then record out { tracker = set_track out.tracker code known }
    else let told = snapshot_events leaf.code (spoken known leaf) now_ms in
      let state = state_at told.0 leaf in
      record {
        tracker = set_track out.tracker code told.0;
        states =
            if signature_eq (signature_of state) told.0.published
            then out.states
            else out.states ++ state ∷ [];
        events = out.events ++ told.1;
      }

module _ (stand : Stand) (policy : HealthPolicy) where
  abbrev pub grace_start : Tracker → DeviceTrack → ℕ → ℕ
  grace_start s track now_ms =
      if ltb now_ms (track.grace_from_ms + policy.startup_grace_ms)
      then track.grace_from_ms
      else s.started_at_ms

  abbrev pub or_leaf : Option Summary → Summary → Summary
  or_leaf none leaf = leaf
  or_leaf (some found) leaf = found

  -- The leaf of a device in the tree of its own window of grace; `before` is the tracker at the start.
  unfoldable pub check_leaf : Tracker → ℕ → String → Summary → HealthEvaluation → HealthEvaluation
  unfolding own_track check_track leaves_from
  check_leaf before now_ms code leaf out = elim (own_track out.tracker code) [
    | none ↦ out
    | some track ↦
        check_track code track
          (or_leaf
            (lookup code (leaves_from stand policy before (grace_start before track now_ms) now_ms))
            leaf)
          now_ms out
  ]

  unfoldable pub check_leaves :
      Tracker → ℕ → List (String × Summary) → HealthEvaluation → HealthEvaluation
  unfolding check_leaf
  check_leaves before now_ms [] out = out
  check_leaves before now_ms ((code, leaf) ∷ rest) out =
      check_leaves before now_ms rest (check_leaf before now_ms code leaf out)

  unfoldable pub evaluate : Tracker → ℕ → HealthEvaluation
  unfolding check_leaves
  evaluate s now_ms =
      check_leaves s now_ms (leaves_from stand policy s s.started_at_ms now_ms)
        (record { tracker = s; states = []; events = [] })
