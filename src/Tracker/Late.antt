-- ===== src/Tracker/Late.antt =====
-- Frames that were read before a handover and written after it, against the tracker of
-- services/stream-processor/src/health/tracker.ts.
use Prim.Native.String.{String}
use text.Mathlib.Text.{◌==◌ as str_eq}
use text.Mathlib.TextEquality.{eq_iff}
use fieldstream.Common.{
  ℕ, ◌≤◌, ◌<◌, ◌≡◌, refl, ap, ◌∙◌, inl, inr, Bool, true, false, Option, none, some, List, [], ◌∷◌,
  arith, ◌==◌, if◌then◌else◌, map, Bool-cases, All,
}
use fieldstream.Common.Keys.{contains, lookup, put}
use fieldstream.Health.{HealthPolicy}
use fieldstream.Events.{DeviceEvent}
use fieldstream.Tracker.{
  DeviceState, DeviceTrack, Tracker, set_track, own_track, observe_cycle, confirm_published,
  release_devices, adopt_one, adopt, fresh_track,
}
use fieldstream.Tracker.Stand.{Stand}
use fieldstream.Tracker.Check.{evaluate}
use fieldstream.Tracker.Frames.{
  FrameObservation, Drafted, FrameDraft, seen_at, baseline, observe, observe_all, with_frame,
  commit_one, commit,
}
use fieldstream.Tracker.Handover.{Kept, Grows, Grows-refl, Grows-trans, adopted_track-stamp}
use fieldstream.Tracker.Operations.{
  observe_cycle-Grows, confirm_published-Grows, release_devices-Grows, adopt_one-Grows, adopt-Grows,
  commit-Grows, evaluate-Grows,
}

-- `createHealthTracker`: all devices have a track, and none is owned. A stamp tells apart the tracks
-- of one device, so the first ones share it.
abbrev pub new_health_tracker : Stand → ℕ → Tracker
new_health_tracker stand started_at_ms =
    let codes = map (λ d. d.code) stand.devices in
    record {
      started_at_ms = started_at_ms;
      known = codes;
      owned = [];
      tracks = λ code. if contains code codes then some (fresh_track 0 started_at_ms) else none;
      next_stamp = 1;
    }

pub data Step : Type 0 where
  cycle : String → Bool → ℕ → Step
  checks : ℕ → Step
  confirms : List DeviceState → Step
  commits : FrameDraft → Step
  releases : List String → Step
  adopts : ℕ → Option (List DeviceState) → List String → Step

abbrev Below : ℕ → Option DeviceTrack → Type 0
Below n none = Unit
Below n (some t) = t.stamp < n

abbrev AtLeast : ℕ → Option DeviceTrack → Type 0
AtLeast n none = Unit
AtLeast n (some t) = n ≤ t.stamp

abbrev Fresh : Tracker → Type 0
Fresh s = (code : String) → Below s.next_stamp (s.tracks code)

Below-Kept :
    (o o' : Option DeviceTrack) (n n' : ℕ) → n ≤ n' → Kept o o' n n' → Below n o → Below n' o'
Below-Kept o none n n' le k h = tt
Below-Kept none (some t') n n' le k h = k.1
Below-Kept (some t) (some t') n n' le k h = ground (arith, le, k, h)

AtLeast-Kept :
    (o o' : Option DeviceTrack) (m n n' : ℕ) → m ≤ n → Kept o o' n n' → AtLeast m o → AtLeast m o'
AtLeast-Kept o none m n n' le k h = tt
AtLeast-Kept none (some t') m n n' le k h = omega (arith, le, k.0)
AtLeast-Kept (some t) (some t') m n n' le k h = ground (arith, le, k, h)

Fresh-Grows : (s s' : Tracker) → Grows s s' → Fresh s → Fresh s'
Fresh-Grows s s' g h code =
    Below-Kept (s.tracks code) (s'.tracks code) s.next_stamp s'.next_stamp g.stamps (g.tracks code)
      (h code)

module _ (stand : Stand) (policy : HealthPolicy) where
  unfoldable pub take_step : Step → Tracker → Tracker
  unfolding observe_cycle evaluate confirm_published commit release_devices adopt
  take_step (cycle code ok ts) s = observe_cycle code ok ts s
  take_step (checks now_ms) s = (evaluate stand policy s now_ms).tracker
  take_step (confirms states) s = confirm_published states s
  take_step (commits draft) s = commit draft s
  take_step (releases codes) s = release_devices codes s
  take_step (adopts now_ms restored codes) s = adopt now_ms restored codes s

  unfoldable pub take_steps : List Step → Tracker → Tracker
  unfolding take_step
  take_steps [] s = s
  take_steps (x ∷ xs) s = take_steps xs (take_step x s)

  take_step-Grows : (x : Step) (s : Tracker) → Grows s (take_step x s)
  unfolding take_step
  take_step-Grows (cycle code ok ts) s = observe_cycle-Grows code ok ts s
  take_step-Grows (checks now_ms) s = evaluate-Grows stand policy s now_ms
  take_step-Grows (confirms states) s = confirm_published-Grows states s
  take_step-Grows (commits draft) s = commit-Grows draft s
  take_step-Grows (releases codes) s = release_devices-Grows codes s
  take_step-Grows (adopts now_ms restored codes) s = adopt-Grows now_ms restored codes s

  take_steps-Grows : (xs : List Step) (s : Tracker) → Grows s (take_steps xs s)
  unfolding take_steps
  take_steps-Grows [] s = Grows-refl s
  take_steps-Grows (x ∷ xs) s =
      Grows-trans (take_step-Grows x s) (take_steps-Grows xs (take_step x s))

  new_health_tracker-Fresh : (started_at_ms : ℕ) → Fresh (new_health_tracker stand started_at_ms)
  new_health_tracker-Fresh started_at_ms code =
      by_known (contains code (map (λ d. d.code) stand.devices))
    where
      by_known :
          (known : Bool) → Below 1 (if known then some (fresh_track 0 started_at_ms) else none)
      by_known true = omega arith
      by_known false = tt

abbrev Under : ℕ → FrameDraft → Type 0
Under n draft = All (λ e. e.1.stamp < n) draft

Under-put :
    (n : ℕ) (code : String) (d : Drafted) (draft : FrameDraft)
    → d.stamp < n
    → Under n draft
    → Under n (put code d draft)
unfolding put
Under-put n code d [] lt h = (lt, tt)
Under-put n code d ((c, e) ∷ draft) lt h = ground (arith, Under-put n code d draft lt h.1, lt, h)

observe-Under :
    (s : Tracker) (o : FrameObservation) (draft : FrameDraft)
    → Fresh s
    → Under s.next_stamp draft
    → Under s.next_stamp (observe s o draft).0
unfolding observe own_track
observe-Under s o draft fresh h =
    by_own (own_track s o.device_code) (own (contains o.device_code s.owned))
  where
    own : (owned : Bool) → Below s.next_stamp (if owned then s.tracks o.device_code else none)
    own true = fresh o.device_code
    own false = tt

    by_own :
        (found : Option DeviceTrack)
        → Below s.next_stamp found
        → Under s.next_stamp
            (elim found as (λ _. FrameDraft × List DeviceEvent) [
              | none ↦ (draft, [])
              | some track ↦ (
                put o.device_code
                    (record { stamp = track.stamp; snapshot = seen_at track o })
                    draft,
                fieldstream.Events.detect_device_events
                    (baseline (lookup o.device_code draft) track o.mode)
                    (seen_at track o),
              )
            ]).0
    by_own none lt = h
    by_own (some track) lt = Under-put s.next_stamp o.device_code _ draft lt h

observe_all-Under :
    (s : Tracker) (os : List FrameObservation) (so_far : FrameDraft × List DeviceEvent)
    → Fresh s
    → Under s.next_stamp so_far.0
    → Under s.next_stamp (observe_all s os so_far).0
unfolding observe_all
observe_all-Under s [] so_far fresh h = h
observe_all-Under s (o ∷ os) so_far fresh h =
    observe_all-Under s os _ fresh (observe-Under s o so_far.0 fresh h)

-- A drafted snapshot of an older track leaves a newer one alone.
commit_one-newer :
    (n : ℕ) (c : String) (d : Drafted) (s : Tracker) (code : String)
    → d.stamp < n
    → AtLeast n (s.tracks code)
    → (commit_one c d s).tracks code ≡ s.tracks code
unfolding commit_one own_track
commit_one-newer n c d s code lt h = by_own (own_track s c) refl
  where
    kept :
        (t : DeviceTrack)
        → s.tracks c ≡ some t
        → (if t.stamp == d.stamp then set_track s c (with_frame t d.snapshot) else s).tracks code
          ≡ s.tracks code
    kept t there = elim (Bool-cases (str_eq c code)) [
      | inl here ↦ ground (arith, eq_iff c code, here, there, h, lt)
      | inr elsewhere ↦ ground (arith, elsewhere)
    ]

    by_own :
        (o : Option DeviceTrack)
        → own_track s c ≡ o
        → (elim o as (λ _. Tracker) [
          | none ↦ s
          | some t ↦ if t.stamp == d.stamp then set_track s c (with_frame t d.snapshot) else s
        ]).tracks
            code
          ≡ s.tracks code
    by_own none e = refl
    by_own (some t) e = kept t (ground (arith, e))

commit-newer :
    (n : ℕ) (draft : FrameDraft) (s : Tracker) (code : String)
    → Under n draft
    → AtLeast n (s.tracks code)
    → (commit draft s).tracks code ≡ s.tracks code
unfolding commit
commit-newer n [] s code under h = refl
commit-newer n ((c, d) ∷ rest) s code under h =
    let same = commit_one-newer n c d s code under.0 h in
    commit-newer n rest (commit_one c d s) code under.1 (rw same h) ∙ same

-- The tracks of the devices that are adopted are new.
adopt_one-newer :
    (now_ms : ℕ) (restored : Option (List DeviceState)) (c : String) (s : Tracker) (code : String)
    (n : ℕ)
    → str_eq c code ≡ true
    → contains c s.known ≡ true
    → n ≤ s.next_stamp
    → AtLeast n ((adopt_one now_ms restored c s).tracks code)
unfolding adopt_one
adopt_one-newer now_ms restored c s code n here known le =
    rw (known, here)
      (omega (arith, le, adopted_track-stamp s.next_stamp restored c now_ms s.started_at_ms))

adopt-newer :
    (now_ms : ℕ) (restored : Option (List DeviceState)) (codes : List String) (s : Tracker)
    (code : String) (n : ℕ)
    → contains code codes ≡ true
    → contains code s.known ≡ true
    → n ≤ s.next_stamp
    → AtLeast n ((adopt now_ms restored codes s).tracks code)
unfolding adopt
adopt-newer now_ms restored [] s code n among known le = cc
adopt-newer now_ms restored (c ∷ codes) s code n among known le =
    elim (Bool-cases (str_eq c code)) [
      | inl here ↦
          let rest = adopt-Grows now_ms restored codes (adopt_one now_ms restored c s) in
          AtLeast-Kept _ _ n _ _ (omega (arith, le, g.stamps)) (rest.tracks code) (here_newer here)
      | inr elsewhere ↦
          adopt-newer now_ms restored codes (adopt_one now_ms restored c s) code n
            (ground (arith, among, elsewhere)) (ap (λ ks. contains code ks) g.same_known ∙ known)
            (omega (arith, le, g.stamps))
    ]
  where
    g : Grows s (adopt_one now_ms restored c s)
    g = adopt_one-Grows now_ms restored c s

    here_newer : str_eq c code ≡ true → AtLeast n ((adopt_one now_ms restored c s).tracks code)
    here_newer here =
        adopt_one-newer now_ms restored c s code n here (ground (arith, eq_iff c code, here, known))
          le

-- Whatever happens before a batch of frames is read, then up to a handover that takes up its device,
-- such as the release that goes before it, and then up to the writing of the batch: the frames read
-- before the handover do not touch the track that the device got with it.
pub late_frames-ignored :
    (stand : Stand) (policy : HealthPolicy) (started_at_ms now_ms : ℕ)
    (before between after : List Step) (os : List FrameObservation)
    (restored : Option (List DeviceState)) (codes : List String) (code : String)
    → contains code codes ≡ true
    → contains code (map (λ d. d.code) stand.devices) ≡ true
    → let s = take_steps stand policy before (new_health_tracker stand started_at_ms) in
      let adopted = adopt now_ms restored codes (take_steps stand policy between s) in
      let s' = take_steps stand policy after adopted in
      (commit (observe_all s os ([], [])).0 s').tracks code ≡ s'.tracks code
late_frames-ignored stand policy started_at_ms now_ms before between after os restored codes code
      among known =
    let s = take_steps stand policy before (new_health_tracker stand started_at_ms) in
    let handed = take_steps stand policy between s in
    let adopted = adopt now_ms restored codes handed in
    let s' = take_steps stand policy after adopted in
    let so_far = take_steps-Grows stand policy before (new_health_tracker stand started_at_ms) in
    let on = take_steps-Grows stand policy between s in
    let taken = adopt-Grows now_ms restored codes handed in
    let fresh : Fresh s =
      Fresh-Grows (new_health_tracker stand started_at_ms) s so_far
        (new_health_tracker-Fresh stand policy started_at_ms) in
    commit-newer s.next_stamp (observe_all s os ([], [])).0 s' code
      (observe_all-Under s os ([], []) fresh tt)
      (AtLeast-Kept (adopted.tracks code) (s'.tracks code) s.next_stamp adopted.next_stamp
        s'.next_stamp (omega (arith, on.stamps, taken.stamps))
        ((take_steps-Grows stand policy after adopted).tracks code)
        (adopt-newer now_ms restored codes handed code s.next_stamp among
          (ap (λ ks. contains code ks) (on.same_known ∙ so_far.same_known) ∙ known) on.stamps))
