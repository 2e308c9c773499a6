-- ===== src/Tracker/Frames.antt =====
-- `draftFrames` of services/stream-processor/src/health/tracker.ts: what the frames of a batch tell of
-- the devices, kept aside until the batch is written.
use Prim.Native.String.{String}
use fieldstream.Common.{
  ℕ, Bool, false, Option, none, some, List, [], ◌∷◌, ◌++◌, ◌==◌, if◌then◌else◌,
}
use fieldstream.Common.Keys.{lookup, put}
use fieldstream.Contracts.{DeviceMode}
use fieldstream.Events.{DeviceEvent, DeviceSnapshot, detect_device_events}
use fieldstream.Tracker.{DeviceTrack, Tracker, own_track, set_track, frame_baseline}

-- FrameObservation of ingest/frame.ts
pub record FrameObservation : Type 0 where
  pub device_code : String
  pub at_ms : ℕ
  pub mode : DeviceMode
  pub door_open : Option Bool
  pub defrost_active : Option Bool

-- The track, by its stamp, and the last snapshot.
pub record Drafted : Type 0 where
  pub stamp : ℕ
  pub snapshot : DeviceSnapshot

abbrev pub FrameDraft : Type 0
FrameDraft = List (String × Drafted)

abbrev pub seen_at : DeviceTrack → FrameObservation → DeviceSnapshot
seen_at track o = record {
  device_code = o.device_code;
  at_ms = o.at_ms;
  status = track.status;
  mode = o.mode;
  door_open = o.door_open;
  defrost_active = o.defrost_active;
}

-- `draft.get(code)?.snapshot ?? frameBaseline(track, mode)`
abbrev pub baseline : Option Drafted → DeviceTrack → DeviceMode → Option DeviceSnapshot
baseline none track mode = frame_baseline track mode
baseline (some drafted) track mode = some drafted.snapshot

unfoldable pub observe : Tracker → FrameObservation → FrameDraft → FrameDraft × List DeviceEvent
unfolding own_track detect_device_events frame_baseline
observe s o draft = elim (own_track s o.device_code) [
  | none ↦ (draft, [])
  | some track ↦ (
    put o.device_code (record { stamp = track.stamp; snapshot = seen_at track o }) draft,
    detect_device_events (baseline (lookup o.device_code draft) track o.mode) (seen_at track o),
  )
]

unfoldable pub observe_all :
    Tracker → List FrameObservation → FrameDraft × List DeviceEvent → FrameDraft × List DeviceEvent
unfolding observe
observe_all s [] so_far = so_far
observe_all s (o ∷ os) so_far =
    let next = observe s o so_far.0 in observe_all s os (next.0, so_far.1 ++ next.1)

abbrev pub with_frame : DeviceTrack → DeviceSnapshot → DeviceTrack
with_frame track snapshot = record track {
  mode = snapshot.mode;
  mode_guessed = false;
  door_open = snapshot.door_open;
  defrost_active = snapshot.defrost_active;
  snapshot = some (record snapshot { status = track.status });
}

unfoldable pub commit_one : String → Drafted → Tracker → Tracker
unfolding own_track
commit_one code drafted s = elim (own_track s code) [
  | none ↦ s
  | some track ↦
      if track.stamp == drafted.stamp
      then set_track s code (with_frame track drafted.snapshot)
      else s
]

unfoldable pub commit : FrameDraft → Tracker → Tracker
unfolding commit_one
commit [] s = s
commit ((code, drafted) ∷ rest) s = commit rest (commit_one code drafted s)
