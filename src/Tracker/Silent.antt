-- ===== src/Tracker/Silent.antt =====
-- When a check of services/stream-processor/src/health/tracker.ts tells nothing of a device, and what it
-- leaves of its track.
use Prim.Native.String.{String}
use text.Mathlib.Text.{◌==◌ as str_eq}
use text.Mathlib.TextEquality.{eq_iff}
use fieldstream.Common.{
  ℕ, ◌≡◌, refl, sym, ap, ◌∙◌, ◌⊎◌, inl, inr, Bool, true, false, not, ◌&&◌, Option, none, some, [],
  ◌++◌, arith, if◌then◌else◌, Bool-cases,
}
use mathlib.Core.List.{append-nil}
use fieldstream.Contracts.{
  DeviceMode, cooling, defrost, service, off, mode_eq, status_eq, online, offline,
}
use fieldstream.Health.{startup_grace, reason_eq, Summary}
use fieldstream.Health.Leaves.{Facts, facts_of}
use fieldstream.Events.{DeviceSnapshot, detect_device_events, changes, is_on, is_off}
use fieldstream.Tracker.{
  DeviceTrack, Tracker, set_track, own_track, ok_at_for_tree, snapshot_events,
}
use fieldstream.Tracker.Stand.{ok_of, errors_of}
use fieldstream.Tracker.Check.{HealthEvaluation, judged, spoken, stays_quiet, check_track}

-- A snapshot that shows a track with the status of its leaf.
abbrev pub Shows : Option DeviceSnapshot → Facts → DeviceTrack → Type 0
Shows none f t = ⊥
Shows (some sn) f t =
    (sn.status ≡ f.status)
    × (sn.mode ≡ t.mode)
    × (sn.door_open ≡ t.door_open)
    × (sn.defrost_active ≡ t.defrost_active)

Shows-judged :
    (o : Option DeviceSnapshot) (f : Facts) (t : DeviceTrack) (leaf : Summary)
    → Shows o f t
    → Shows o f (judged t leaf)
Shows-judged none f t leaf h = h
Shows-judged (some sn) f t leaf h = h

-- A track that a leaf of these facts brings no event of.
abbrev pub Silent : DeviceTrack → Option Facts → Type 0
Silent t none = Unit
Silent t (some f) =
    ((t.quiet ≡ true) × (reason_eq f.reason startup_grace ≡ true))
    ⊎ ((t.quiet ≡ false) × Shows t.snapshot f t)

abbrev pub checked : DeviceTrack → Summary → ℕ → DeviceTrack
checked t leaf now_ms =
    if stays_quiet (judged t leaf) leaf
    then judged t leaf
    else (snapshot_events leaf.code (spoken (judged t leaf) leaf) now_ms).0

pub checked-Silent :
    (t : DeviceTrack) (leaf : Summary) (now_ms : ℕ)
    → Silent (checked t leaf now_ms) (some (facts_of leaf))
unfolding snapshot_events
checked-Silent t leaf now_ms = by_quiet t.quiet (reason_eq leaf.reason startup_grace) refl refl
  where
    by_quiet :
        (q r : Bool)
        → t.quiet ≡ q
        → reason_eq leaf.reason startup_grace ≡ r
        → Silent (checked t leaf now_ms) (some (facts_of leaf))
    by_quiet true true e f = rw (e, f) (inl (refl, refl))
    by_quiet true false e f = rw (e, f) (inr (refl, (refl, refl, refl, refl)))
    by_quiet false r e f = rw e (inr (refl, (refl, refl, refl, refl)))

mode_eq_self : (m : DeviceMode) → mode_eq m m ≡ true
mode_eq_self cooling = refl
mode_eq_self defrost = refl
mode_eq_self service = refl
mode_eq_self off = refl

not_and_self : (b : Bool) → (not b && b) ≡ false
not_and_self true = refl
not_and_self false = refl

off_and_on : (o : Option Bool) → (is_off o && is_on o) ≡ false
off_and_on none = refl
off_and_on (some true) = refl
off_and_on (some false) = refl

on_and_off : (o : Option Bool) → (is_on o && is_off o) ≡ false
on_and_off none = refl
on_and_off (some true) = refl
on_and_off (some false) = refl

changes_none :
    (a b : DeviceSnapshot)
    → a.status ≡ b.status
    → a.mode ≡ b.mode
    → a.door_open ≡ b.door_open
    → a.defrost_active ≡ b.defrost_active
    → changes a b ≡ []
unfolding changes
changes_none a b status mode door active =
    rw
      (
        status,
        mode,
        door,
        active,
        mode_eq_self b.mode,
        off_and_on b.door_open,
        on_and_off b.door_open,
        off_and_on b.defrost_active,
        on_and_off b.defrost_active,
        not_and_self (status_eq b.status offline),
        not_and_self (status_eq b.status online),
      )
      refl

snapshot_events-none :
    (code : String) (t : DeviceTrack) (now_ms : ℕ) (f : Facts)
    → Shows t.snapshot f t
    → t.status ≡ f.status
    → (snapshot_events code t now_ms).1 ≡ []
unfolding snapshot_events detect_device_events
snapshot_events-none code t now_ms f shows status = by_snapshot t.snapshot shows
  where
    by_snapshot :
        (o : Option DeviceSnapshot)
        → Shows o f t
        → detect_device_events o (record {
          device_code = code;
          at_ms = now_ms;
          status = t.status;
          mode = t.mode;
          door_open = t.door_open;
          defrost_active = t.defrost_active;
        })
          ≡ []
    by_snapshot none h = elim h [ ]
    by_snapshot (some sn) h = changes_none sn _ (h.0 ∙ sym status) h.1 h.2 h.3

-- A silent track brings no event.
pub check_track-events :
    (code : String) (t : DeviceTrack) (leaf : Summary) (now_ms : ℕ) (out : HealthEvaluation)
    → Silent t (some (facts_of leaf))
    → (check_track code t leaf now_ms out).events ≡ out.events
unfolding check_track
check_track-events code t leaf now_ms out (inl (quiet, waits)) = rw (quiet, waits, check_track) refl
check_track-events code t leaf now_ms out (inr (speaks, shows)) =
    rw (speaks, check_track)
      (ap (λ es. out.events ++ es)
          (snapshot_events-none leaf.code (judged t leaf) now_ms (facts_of leaf)
            (Shows-judged t.snapshot (facts_of leaf) t leaf shows) refl)
        ∙ append-nil out.events)

pub check_track-tracker :
    (code : String) (t : DeviceTrack) (leaf : Summary) (now_ms : ℕ) (out : HealthEvaluation)
    → (check_track code t leaf now_ms out).tracker
      ≡ set_track out.tracker code (checked t leaf now_ms)
unfolding check_track
check_track-tracker code t leaf now_ms out = elim (Bool-cases (stays_quiet (judged t leaf) leaf)) [
  | inl quiet ↦ rw (quiet, check_track) refl
  | inr speaks ↦ rw (speaks, check_track) refl
]

-- What a check leaves as it is of the tracks: what the tree reads, and the window of grace.
abbrev SameClock : Option DeviceTrack → Option DeviceTrack → Type 0
SameClock o o' = (ok_of o ≡ ok_of o') × (errors_of o ≡ errors_of o')

pub record Unmoved (s s' : Tracker) : Type 0 where
  pub clock : (code : String) → SameClock (s.tracks code) (s'.tracks code)
  pub same_owned : s'.owned ≡ s.owned
  pub same_start : s'.started_at_ms ≡ s.started_at_ms

pub Unmoved-refl : (s : Tracker) → Unmoved s s
Unmoved-refl s = record { clock = λ code. (refl, refl); same_owned = refl; same_start = refl }

pub Unmoved-trans : {a b c : Tracker} → Unmoved a b → Unmoved b c → Unmoved a c
Unmoved-trans u v = record {
  clock = λ code. ((u.clock code).0 ∙ (v.clock code).0, (u.clock code).1 ∙ (v.clock code).1);
  same_owned = v.same_owned ∙ u.same_owned;
  same_start = v.same_start ∙ u.same_start;
}

pub set_track-Unmoved :
    (s : Tracker) (code : String) (t t' : DeviceTrack)
    → own_track s code ≡ some t
    → ok_at_for_tree t ≡ ok_at_for_tree t'
    → t.consecutive_errors ≡ t'.consecutive_errors
    → Unmoved s (set_track s code t')
unfolding own_track
set_track-Unmoved s code t t' e ok errors = record {
  clock = at;
  same_owned = refl;
  same_start = refl;
}
  where
    there : s.tracks code ≡ some t
    there = ground (arith, e)

    name : (other : String) → str_eq code other ≡ true → code ≡ other
    name other h = ground (arith, eq_iff code other, h)

    at :
        (other : String)
        → SameClock (s.tracks other) (if str_eq code other then some t' else s.tracks other)
    at other = elim (Bool-cases (str_eq code other)) [
      | inl here ↦ rw (here, sym (ap s.tracks (name other here)) ∙ there) (ok, errors)
      | inr elsewhere ↦ rw elsewhere (refl, refl)
    ]

pub own_track-set_track :
    (s : Tracker) (code k : String) (t t' : DeviceTrack)
    → own_track s code ≡ some t
    → own_track (set_track s code t') k ≡ (if str_eq code k then some t' else own_track s k)
unfolding own_track
own_track-set_track s code k t t' e = ground (arith, e, eq_iff code k)

pub record Same (t t' : DeviceTrack) : Type 0 where
  pub ok : ok_at_for_tree t ≡ ok_at_for_tree t'
  pub errors : t.consecutive_errors ≡ t'.consecutive_errors
  pub grace : t'.grace_from_ms ≡ t.grace_from_ms

pub checked-Same : (t : DeviceTrack) (leaf : Summary) (now_ms : ℕ) → Same t (checked t leaf now_ms)
unfolding snapshot_events ok_at_for_tree
checked-Same t leaf now_ms = by_quiet t.quiet (reason_eq leaf.reason startup_grace) refl refl
  where
    by_quiet :
        (q r : Bool)
        → t.quiet ≡ q
        → reason_eq leaf.reason startup_grace ≡ r
        → Same t (checked t leaf now_ms)
    by_quiet true true e f = rw (e, f) (record { ok = refl; errors = refl; grace = refl })
    by_quiet true false e f = rw (e, f) (record { ok = refl; errors = refl; grace = refl })
    by_quiet false r e f = rw e (record { ok = refl; errors = refl; grace = refl })
