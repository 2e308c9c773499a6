-- ===== src/Tracker/Settled.antt =====
-- What a check of services/stream-processor/src/health/tracker.ts has told, a second check at the same
-- moment does not tell again.
use Prim.Native.String.{String}
use text.Mathlib.Text.{◌==◌ as str_eq}
use text.Mathlib.TextEquality.{eq_iff}
use fieldstream.Common.{
  ℕ, ◌+◌, ◌≡◌, refl, sym, ap, ◌∙◌, inl, inr, true, Option, none, some, List, [], ◌∷◌, arith, ltb,
  if◌then◌else◌, Bool-cases,
}
use mathlib.Core.Path.{subst}
use fieldstream.Common.Keys.{contains, lookup, keys}
use fieldstream.Health.{HealthPolicy, Summary}
use fieldstream.Health.Leaves.{Facts, facts_of}
use fieldstream.Events.{DeviceSnapshot}
use fieldstream.Tracker.{
  DeviceState, DeviceTrack, Tracker, set_track, own_track, ok_at_for_tree, confirm_one,
  confirm_published, Signature, signature_of,
}
use fieldstream.Tracker.Stand.{Stand, leaves_from}
use fieldstream.Tracker.Check.{HealthEvaluation, grace_start, or_leaf, evaluate}
use fieldstream.Tracker.LeafFacts.{
  opt_facts, last_facts, is_some, said-same, node_facts, lookup-leaves_from, contains-leaves_from,
  is_some-node_facts,
}
use fieldstream.Tracker.Silent.{
  Shows, Silent, Unmoved, Unmoved-refl, Unmoved-trans, set_track-Unmoved, own_track-set_track,
}
use fieldstream.Tracker.Loop.{Says, SilentAt, Loops, check_leaves-Loops}

-- What the nodes say does not change while the clock of the tracks stands still.
module _ (stand : Stand) (policy : HealthPolicy) (s : Tracker) (now_ms : ℕ) where
  abbrev window : ℕ → ℕ
  window grace_from_ms =
      if ltb now_ms (grace_from_ms + policy.startup_grace_ms)
      then grace_from_ms
      else s.started_at_ms

  abbrev says_of : String → ℕ → Option Facts
  says_of code grace_from_ms = node_facts stand policy s now_ms (window grace_from_ms) code

  node_facts-Unmoved :
      (s' : Tracker) (from : ℕ) (code : String)
      → Unmoved s s'
      → node_facts stand policy s' now_ms from code ≡ node_facts stand policy s now_ms from code
  node_facts-Unmoved s' from code u =
      ap (λ fs. last_facts code fs none)
        (sym (said-same stand policy s s' from now_ms (λ k. (u.clock k).0) (λ k. (u.clock k).1)))

  or_leaf-found :
      (o : Option Summary) (leaf : Summary) (f : Option Facts)
      → opt_facts o ≡ f
      → is_some f ≡ true
      → f ≡ some (facts_of (or_leaf stand policy o leaf))
  or_leaf-found none leaf f e h = ground (arith, e, h)
  or_leaf-found (some found) leaf f e h = sym e

  nodes_say :
      (s' : Tracker) (code : String) (leaf : Summary)
      → Unmoved s s'
      → is_some (node_facts stand policy s now_ms s.started_at_ms code) ≡ true
      → Says stand policy says_of s' now_ms code leaf
  nodes_say s' code leaf u among t =
      or_leaf-found
        (lookup code (leaves_from stand policy s' (grace_start stand policy s' t now_ms) now_ms))
        leaf (says_of code t.grace_from_ms)
        (lookup-leaves_from stand policy s' now_ms (grace_start stand policy s' t now_ms) code
          ∙ node_facts-Unmoved s' (grace_start stand policy s' t now_ms) code u
          ∙ ap
              (λ start.
                node_facts stand policy s now_ms
                  (if ltb now_ms (t.grace_from_ms + policy.startup_grace_ms)
                    then t.grace_from_ms
                    else start)
                  code)
              u.same_start)
        (is_some-node_facts stand policy s now_ms (window t.grace_from_ms) s.started_at_ms code
          ∙ among)

Shows-published :
    (o : Option DeviceSnapshot) (f : Facts) (t : DeviceTrack) (p : Option Signature)
    → Shows o f t
    → Shows o f (record t { published = p })
Shows-published none f t p h = h
Shows-published (some sn) f t p h = h

Silent-published :
    (t : DeviceTrack) (p : Option Signature) (f : Option Facts)
    → Silent t f
    → Silent (record t { published = p }) f
Silent-published t p none h = tt
Silent-published t p (some f) (inl h) = inl h
Silent-published t p (some f) (inr (speaks, shows)) =
    inr (speaks, Shows-published t.snapshot f t p shows)

-- A confirmation leaves a silent track silent.
module _ (stand : Stand) (policy : HealthPolicy) (N : String → ℕ → Option Facts) (before : Tracker)
    (now_ms : ℕ) where
  record Confirms (s s' : Tracker) : Type 0 where
    unmoved : Unmoved s s'
    stays :
        (k : String)
        → SilentAt stand policy N before now_ms k (own_track s k)
        → SilentAt stand policy N before now_ms k (own_track s' k)

  confirm_one-Confirms : (state : DeviceState) (s : Tracker) → Confirms s (confirm_one state s)
  unfolding confirm_one ok_at_for_tree
  confirm_one-Confirms state s = by_own (own_track s state.device_code) refl
    where
      by_own :
          (o : Option DeviceTrack)
          → own_track s state.device_code ≡ o
          → Confirms s (elim o [
            | none ↦ s
            | some t ↦
                set_track s state.device_code (record t { published = some (signature_of state) })
          ])
      by_own none e = record { unmoved = Unmoved-refl s; stays = λ k h. h }
      by_own (some t) e = record {
        unmoved = set_track-Unmoved s state.device_code t t' e refl refl;
        stays = λ k h. elim (Bool-cases (str_eq state.device_code k)) [
          | inl here ↦
              rw (own_track-set_track s state.device_code k t t' e, here)
                (Silent-published t (some (signature_of state)) (N k t.grace_from_ms) (
                  subst (SilentAt stand policy N before now_ms k)
                    (ap (own_track s) (name k here) ∙ e) h))
          | inr elsewhere ↦ rw (own_track-set_track s state.device_code k t t' e, elsewhere) h
        ];
      }
        where
          t' : DeviceTrack
          t' = record t { published = some (signature_of state) }

          name : (k : String) → str_eq state.device_code k ≡ true → k ≡ state.device_code
          name k h = ground (arith, eq_iff state.device_code k, h)

  confirm_published-Confirms :
      (states : List DeviceState) (s : Tracker) → Confirms s (confirm_published states s)
  unfolding confirm_published
  confirm_published-Confirms [] s = record { unmoved = Unmoved-refl s; stays = λ k h. h }
  confirm_published-Confirms (state ∷ rest) s =
      let one = confirm_one-Confirms state s in
      let others = confirm_published-Confirms rest (confirm_one state s) in
      record {
        unmoved = Unmoved-trans one.unmoved others.unmoved;
        stays = λ k h. others.stays k (one.stays k h);
      }

abbrev outset : Tracker → HealthEvaluation
outset s = record { tracker = s; states = []; events = [] }

-- A check of a tracker whose clock stands where that of `s` does.
evaluate-Loops :
    (stand : Stand) (policy : HealthPolicy) (s s' : Tracker) (now_ms : ℕ)
    → Unmoved s s'
    → ((k : String)
        → contains k (keys (leaves_from stand policy s' s'.started_at_ms now_ms))
          ≡ is_some (node_facts stand policy s now_ms s.started_at_ms k))
      × Loops stand policy
          (says_of stand policy s now_ms)
          s'
          now_ms
          (leaves_from stand policy s' s'.started_at_ms now_ms)
          (outset s')
          (evaluate stand policy s' now_ms)
unfolding evaluate
evaluate-Loops stand policy s s' now_ms u = (
  listed,
  check_leaves-Loops stand policy (says_of stand policy s now_ms) s' now_ms
      (leaves_from stand policy s' s'.started_at_ms now_ms) (outset s')
      (λ k c leaf. nodes_say stand policy s now_ms s' k leaf u (sym (listed k) ∙ c)),
)
  where
    listed :
        (k : String)
        → contains k (keys (leaves_from stand policy s' s'.started_at_ms now_ms))
          ≡ is_some (node_facts stand policy s now_ms s.started_at_ms k)
    listed k =
        contains-leaves_from stand policy s' now_ms s'.started_at_ms k
        ∙ ap is_some (
            ap (λ start. node_facts stand policy s' now_ms start k) u.same_start
            ∙ node_facts-Unmoved stand policy s now_ms s' s.started_at_ms k u)

-- What a check has told it does not tell again: a second check at the same moment, with any states
-- confirmed as published in between, gives no event of any device.
pub evaluate-told_once :
    (stand : Stand) (policy : HealthPolicy) (s : Tracker) (now_ms : ℕ)
    (confirmed : List DeviceState)
    → (evaluate stand policy
        (confirm_published confirmed (evaluate stand policy s now_ms).tracker)
        now_ms).events
      ≡ []
evaluate-told_once stand policy s now_ms confirmed =
    let checked_s = (evaluate stand policy s now_ms).tracker in
    let s' = confirm_published confirmed checked_s in
    let first = evaluate-Loops stand policy s s now_ms (Unmoved-refl s) in
    let between =
      confirm_published-Confirms stand policy (says_of stand policy s now_ms) s now_ms confirmed
        checked_s in
    let second =
      evaluate-Loops stand policy s s' now_ms (Unmoved-trans first.1.unmoved between.unmoved) in
    second.1.no_event
      (λ k c. between.stays k (first.1.settles k (inr (first.0 k ∙ sym (second.0 k) ∙ c))))
