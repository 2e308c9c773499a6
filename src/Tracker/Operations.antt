-- ===== src/Tracker/Operations.antt =====
-- Every operation of services/stream-processor/src/health/tracker.ts changes tracks in place or makes
-- them anew.
use Prim.Native.String.{String}
use fieldstream.Common.{
  ℕ, ◌≡◌, refl, inl, inr, Bool, true, false, Option, none, some, List, [], ◌∷◌, ◌==◌, if◌then◌else◌,
  Bool-cases,
}
use fieldstream.Common.Keys.{contains, lookup}
use fieldstream.Health.{HealthPolicy, Summary}
use fieldstream.Tracker.{
  DeviceState, DeviceTrack, Tracker, set_track, own_track, snapshot_events, observed, observe_cycle,
  confirm_one, confirm_published, release_device, release_devices, adopted_track, adopt_one, adopt,
  signature_of, fresh_track,
}
use fieldstream.Tracker.Stand.{Stand, leaves_from}
use fieldstream.Tracker.Check.{
  HealthEvaluation, stays_quiet, judged, spoken, grace_start, or_leaf, check_track, check_leaf,
  check_leaves, evaluate,
}
use fieldstream.Tracker.Frames.{Drafted, FrameDraft, with_frame, commit_one, commit}
use fieldstream.Tracker.Handover.{
  Grows, Grows-refl, Grows-trans, in_place, made_anew, adopted_track-stamp, observed-stamp,
}

pub observe_cycle-Grows :
    (code : String) (ok : Bool) (ts : ℕ) (s : Tracker) → Grows s (observe_cycle code ok ts s)
unfolding observe_cycle
observe_cycle-Grows code ok ts s = by_own (own_track s code) refl
  where
    by_own :
        (o : Option DeviceTrack)
        → own_track s code ≡ o
        → Grows s (elim o [ none ↦ s | some t ↦ set_track s code (observed t ok ts) ])
    by_own none e = Grows-refl s
    by_own (some t) e = in_place s code t (observed t ok ts) e (observed-stamp t ok ts)

confirm_one-Grows : (state : DeviceState) (s : Tracker) → Grows s (confirm_one state s)
unfolding confirm_one
confirm_one-Grows state s = by_own (own_track s state.device_code) refl
  where
    by_own :
        (o : Option DeviceTrack)
        → own_track s state.device_code ≡ o
        → Grows s (elim o [
          | none ↦ s
          | some t ↦
              set_track s state.device_code (record t { published = some (signature_of state) })
        ])
    by_own none e = Grows-refl s
    by_own (some t) e = in_place s state.device_code t _ e refl

pub confirm_published-Grows :
    (states : List DeviceState) (s : Tracker) → Grows s (confirm_published states s)
unfolding confirm_published
confirm_published-Grows [] s = Grows-refl s
confirm_published-Grows (state ∷ rest) s =
    Grows-trans (confirm_one-Grows state s) (confirm_published-Grows rest (confirm_one state s))

release_device-Grows : (code : String) (s : Tracker) → Grows s (release_device code s)
unfolding release_device
release_device-Grows code s = elim (Bool-cases (contains code s.known)) [
  | inl known ↦ rw known (made_anew s code (fresh_track s.next_stamp s.started_at_ms) _ refl)
  | inr unknown ↦ rw unknown (Grows-refl s)
]

pub release_devices-Grows : (codes : List String) (s : Tracker) → Grows s (release_devices codes s)
unfolding release_devices
release_devices-Grows [] s = Grows-refl s
release_devices-Grows (code ∷ codes) s =
    Grows-trans (release_device-Grows code s) (release_devices-Grows codes (release_device code s))

pub adopt_one-Grows :
    (now_ms : ℕ) (restored : Option (List DeviceState)) (code : String) (s : Tracker)
    → Grows s (adopt_one now_ms restored code s)
unfolding adopt_one
adopt_one-Grows now_ms restored code s = elim (Bool-cases (contains code s.known)) [
  | inl known ↦ rw known (
      made_anew s code (adopted_track s.next_stamp restored code now_ms s.started_at_ms) _
        (adopted_track-stamp s.next_stamp restored code now_ms s.started_at_ms))
  | inr unknown ↦ rw unknown (Grows-refl s)
]

pub adopt-Grows :
    (now_ms : ℕ) (restored : Option (List DeviceState)) (codes : List String) (s : Tracker)
    → Grows s (adopt now_ms restored codes s)
unfolding adopt
adopt-Grows now_ms restored [] s = Grows-refl s
adopt-Grows now_ms restored (code ∷ codes) s =
    Grows-trans (adopt_one-Grows now_ms restored code s)
      (adopt-Grows now_ms restored codes (adopt_one now_ms restored code s))

commit_one-Grows : (code : String) (d : Drafted) (s : Tracker) → Grows s (commit_one code d s)
unfolding commit_one
commit_one-Grows code d s = by_own (own_track s code) refl
  where
    by_own :
        (o : Option DeviceTrack)
        → own_track s code ≡ o
        → Grows s (elim o [
          | none ↦ s
          | some t ↦ if t.stamp == d.stamp then set_track s code (with_frame t d.snapshot) else s
        ])
    by_own none e = Grows-refl s
    by_own (some t) e = elim (Bool-cases (t.stamp == d.stamp)) [
      | inl same ↦ rw same (in_place s code t (with_frame t d.snapshot) e refl)
      | inr other ↦ rw other (Grows-refl s)
    ]

pub commit-Grows : (draft : FrameDraft) (s : Tracker) → Grows s (commit draft s)
unfolding commit
commit-Grows [] s = Grows-refl s
commit-Grows ((code, d) ∷ rest) s =
    Grows-trans (commit_one-Grows code d s) (commit-Grows rest (commit_one code d s))

check_track-Grows :
    (code : String) (t : DeviceTrack) (leaf : Summary) (now_ms : ℕ) (out : HealthEvaluation)
    → own_track out.tracker code ≡ some t
    → Grows out.tracker (check_track code t leaf now_ms out).tracker
unfolding check_track snapshot_events
check_track-Grows code t leaf now_ms out e = elim (Bool-cases (stays_quiet (judged t leaf) leaf)) [
  | inl quiet ↦ rw quiet (in_place out.tracker code t (judged t leaf) e refl)
  | inr speaks ↦ rw speaks (
      in_place out.tracker code t (snapshot_events leaf.code (spoken (judged t leaf) leaf) now_ms).0
        e (by_quiet t.quiet refl))
]
  where
    by_quiet : (q : Bool) → t.quiet ≡ q → (spoken (judged t leaf) leaf).stamp ≡ t.stamp
    by_quiet true e = rw e refl
    by_quiet false e = rw e refl

module _ (stand : Stand) (policy : HealthPolicy) where
  check_leaf-Grows :
      (before : Tracker) (now_ms : ℕ) (code : String) (leaf : Summary) (out : HealthEvaluation)
      → Grows out.tracker (check_leaf stand policy before now_ms code leaf out).tracker
  unfolding check_leaf
  check_leaf-Grows before now_ms code leaf out = by_own (own_track out.tracker code) refl
    where
      by_own :
          (o : Option DeviceTrack)
          → own_track out.tracker code ≡ o
          → Grows out.tracker
              (elim o as (λ _. HealthEvaluation) [
                | none ↦ out
                | some t ↦
                    check_track code t
                      (or_leaf stand policy
                        (lookup code (
                          leaves_from stand policy before
                            (grace_start stand policy before t now_ms)
                            now_ms))
                        leaf)
                      now_ms
                      out
              ]).tracker
      by_own none e = Grows-refl out.tracker
      by_own (some t) e = check_track-Grows code t _ now_ms out e

  check_leaves-Grows :
      (before : Tracker) (now_ms : ℕ) (leaves : List (String × Summary)) (out : HealthEvaluation)
      → Grows out.tracker (check_leaves stand policy before now_ms leaves out).tracker
  unfolding check_leaves
  check_leaves-Grows before now_ms [] out = Grows-refl out.tracker
  check_leaves-Grows before now_ms ((code, leaf) ∷ rest) out =
      Grows-trans (check_leaf-Grows before now_ms code leaf out) (
        check_leaves-Grows before now_ms rest (check_leaf stand policy before now_ms code leaf out))

  pub evaluate-Grows : (s : Tracker) (now_ms : ℕ) → Grows s (evaluate stand policy s now_ms).tracker
  unfolding evaluate
  evaluate-Grows s now_ms =
      check_leaves-Grows s now_ms (leaves_from stand policy s s.started_at_ms now_ms)
        (record { tracker = s; states = []; events = [] })
