-- ===== src/Tracker/Handover.antt =====
-- The tracks of services/stream-processor/src/health/tracker.ts over handovers: which of them are
-- changed in place, and which are made anew.
use Prim.Native.String.{String}
use text.Mathlib.Text.{◌==◌ as str_eq}
use text.Mathlib.TextEquality.{eq_iff}
use fieldstream.Common.{
  ℕ, ◌+◌, ◌≤◌, ◌<◌, ◌≡◌, refl, sym, ap, ◌∙◌, ◌⊎◌, inl, inr, Bool, true, false, Option, none, some,
  List, arith, if◌then◌else◌, Bool-cases,
}
use fieldstream.Tracker.{
  DeviceState, DeviceTrack, Tracker, set_track, own_track, snapshot_events, observed, observe_cycle,
  confirm_one, confirm_published, release_device, release_devices, adopted_track, adopt_one, adopt,
  signature_of, fresh_track,
}

-- A track after a change: one of the same stamp was there, or its stamp is new.
abbrev pub Kept : Option DeviceTrack → Option DeviceTrack → ℕ → ℕ → Type 0
Kept o none n n' = Unit
Kept none (some t') n n' = (n ≤ t'.stamp) × (t'.stamp < n')
Kept (some t) (some t') n n' = (t'.stamp ≡ t.stamp) ⊎ ((n ≤ t'.stamp) × (t'.stamp < n'))

pub record Grows (s s' : Tracker) : Type 0 where
  pub stamps : s.next_stamp ≤ s'.next_stamp
  pub tracks : (code : String) → Kept (s.tracks code) (s'.tracks code) s.next_stamp s'.next_stamp
  pub same_known : s'.known ≡ s.known

pub Kept-refl : (o : Option DeviceTrack) (n n' : ℕ) → Kept o o n n'
Kept-refl none n n' = tt
Kept-refl (some t) n n' = inl refl

Kept-trans :
    (a b c : Option DeviceTrack) (n n' n'' : ℕ)
    → n ≤ n'
    → n' ≤ n''
    → Kept a b n n'
    → Kept b c n' n''
    → Kept a c n n''
Kept-trans a b none n n' n'' le le' h k = tt
Kept-trans none none (some c) n n' n'' le le' h k = (omega (arith, k.0, le), k.1)
Kept-trans none (some b) (some c) n n' n'' le le' h k = ground (arith, h, k, le, le')
Kept-trans (some a) none (some c) n n' n'' le le' h k = inr (omega (arith, k.0, le), k.1)
Kept-trans (some a) (some b) (some c) n n' n'' le le' h k = ground (arith, h, k, le, le')

pub Grows-refl : (s : Tracker) → Grows s s
Grows-refl s = record {
  stamps = omega arith;
  tracks = λ code. Kept-refl (s.tracks code) s.next_stamp s.next_stamp;
  same_known = refl;
}

pub Grows-trans : {a b c : Tracker} → Grows a b → Grows b c → Grows a c
Grows-trans {a} {b} {c} g h = record {
  stamps = omega (arith, g.stamps, h.stamps);
  tracks = λ code.
      Kept-trans (a.tracks code) (b.tracks code) (c.tracks code) a.next_stamp b.next_stamp
        c.next_stamp g.stamps h.stamps (g.tracks code) (h.tracks code);
  same_known = h.same_known ∙ g.same_known;
}

-- A change in place.
pub in_place :
    (s : Tracker) (code : String) (t t' : DeviceTrack)
    → own_track s code ≡ some t
    → t'.stamp ≡ t.stamp
    → Grows s (set_track s code t')
unfolding own_track
in_place s code t t' e same = record { stamps = omega arith; tracks = at; same_known = refl }
  where
    there : s.tracks code ≡ some t
    there = ground (arith, e)

    at :
        (other : String)
        → Kept
            (s.tracks other)
            (if str_eq code other then some t' else s.tracks other)
            s.next_stamp
            s.next_stamp
    at other = elim (Bool-cases (str_eq code other)) [
      | inl here ↦ rw (here, sym (ap s.tracks (name here)) ∙ there) (inl same)
      | inr elsewhere ↦ rw elsewhere (Kept-refl (s.tracks other) s.next_stamp s.next_stamp)
    ]
      where
        name : (str_eq code other ≡ true) → code ≡ other
        name h = ground (arith, eq_iff code other, h)

-- A new track.
pub made_anew :
    (s : Tracker) (code : String) (t : DeviceTrack) (owned : List String)
    → t.stamp ≡ s.next_stamp
    → Grows s (record (set_track s code t) { owned = owned; next_stamp = s.next_stamp + 1 })
made_anew s code t owned e = record { stamps = omega arith; tracks = at; same_known = refl }
  where
    new : (o : Option DeviceTrack) → Kept o (some t) s.next_stamp (s.next_stamp + 1)
    new none = (omega (arith, e), omega (arith, e))
    new (some old) = inr (omega (arith, e), omega (arith, e))

    at :
        (other : String)
        → Kept
            (s.tracks other)
            (if str_eq code other then some t else s.tracks other)
            s.next_stamp
            (s.next_stamp + 1)
    at other = elim (Bool-cases (str_eq code other)) [
      | inl here ↦ rw here (new (s.tracks other))
      | inr elsewhere ↦ rw elsewhere (Kept-refl (s.tracks other) s.next_stamp (s.next_stamp + 1))
    ]

pub adopted_track-stamp :
    (stamp : ℕ) (restored : Option (List DeviceState)) (code : String) (now_ms started : ℕ)
    → (adopted_track stamp restored code now_ms started).stamp ≡ stamp
adopted_track-stamp stamp none code now_ms started = refl
adopted_track-stamp stamp (some restored) code now_ms started =
    by_state (fieldstream.Tracker.restored_state code restored)
  where
    by_state :
        (o : Option DeviceState)
        → (elim o as (λ _. DeviceTrack) [
          | some state ↦ fieldstream.Tracker.restored_track stamp state now_ms started
          | none ↦ fresh_track stamp now_ms
        ]).stamp
          ≡ stamp
    by_state none = refl
    by_state (some state) = refl

pub observed-stamp : (t : DeviceTrack) (ok : Bool) (ts : ℕ) → (observed t ok ts).stamp ≡ t.stamp
observed-stamp t true ts = refl
observed-stamp t false ts = refl
