-- ===== src/Tracker/Loop.antt =====
-- The loop over the leaves of a check of services/stream-processor/src/health/tracker.ts.
use Prim.Native.String.{String}
use text.Mathlib.Text.{◌==◌ as str_eq}
use text.Mathlib.TextEquality.{eq_iff}
use fieldstream.Common.{
  ℕ, ◌≡◌, refl, sym, ap, ◌∙◌, ◌⊎◌, inl, inr, true, Option, none, some, List, [], ◌∷◌, arith,
  if◌then◌else◌, Bool-cases,
}
use mathlib.Core.Path.{subst}
use fieldstream.Common.Keys.{contains, lookup, keys}
use fieldstream.Health.{HealthPolicy, Summary}
use fieldstream.Health.Leaves.{Facts, facts_of}
use fieldstream.Tracker.{DeviceTrack, Tracker, own_track}
use fieldstream.Tracker.Stand.{Stand, leaves_from}
use fieldstream.Tracker.Check.{
  HealthEvaluation, grace_start, or_leaf, check_track, check_leaf, check_leaves,
}
use fieldstream.Tracker.Silent.{
  Silent, checked, checked-Silent, check_track-events, check_track-tracker, Unmoved, Unmoved-refl,
  Unmoved-trans, set_track-Unmoved, own_track-set_track, Same, checked-Same,
}

-- The loop over the leaves, where `N` gives what the node of a device says by its window of grace.
module _ (stand : Stand) (policy : HealthPolicy) (N : String → ℕ → Option Facts) (before : Tracker)
    (now_ms : ℕ) where
  abbrev node_of : DeviceTrack → String → Summary → Summary
  node_of t code leaf =
      or_leaf stand policy
        (lookup code
          (leaves_from stand policy before (grace_start stand policy before t now_ms) now_ms))
        leaf

  abbrev pub Says : String → Summary → Type 0
  Says code leaf =
      (t : DeviceTrack) → N code t.grace_from_ms ≡ some (facts_of (node_of t code leaf))

  abbrev pub SilentAt : String → Option DeviceTrack → Type 0
  SilentAt k none = Unit
  SilentAt k (some t) = Silent t (N k t.grace_from_ms)

  SilentAt-checked :
      (code : String) (t : DeviceTrack) (leaf : Summary)
      → Says code leaf
      → Silent
          (checked t (node_of t code leaf) now_ms)
          (N code (checked t (node_of t code leaf) now_ms).grace_from_ms)
  SilentAt-checked code t leaf says =
      rw ((checked-Same t (node_of t code leaf) now_ms).grace, says t)
        (checked-Silent t (node_of t code leaf) now_ms)

  record Checks (code : String) (leaf : Summary) (out out' : HealthEvaluation) : Type 0 where
    unmoved : Unmoved out.tracker out'.tracker
    settles : SilentAt code (own_track out'.tracker code)
    stays :
        (k : String) → SilentAt k (own_track out.tracker k) → SilentAt k (own_track out'.tracker k)
    no_event : SilentAt code (own_track out.tracker code) → out'.events ≡ out.events

  check_leaf-Checks :
      (code : String) (leaf : Summary) (out : HealthEvaluation)
      → Says code leaf
      → Checks code leaf out (check_leaf stand policy before now_ms code leaf out)
  unfolding check_leaf
  check_leaf-Checks code leaf out says = by_own (own_track out.tracker code) refl
    where
      by_own :
          (o : Option DeviceTrack)
          → own_track out.tracker code ≡ o
          → Checks code leaf out
              (elim o [ none ↦ out | some t ↦ check_track code t (node_of t code leaf) now_ms out ])
      by_own none e = record {
        unmoved = Unmoved-refl out.tracker;
        settles = rw e tt;
        stays = λ k h. h;
        no_event = λ h. refl;
      }
      by_own (some t) e = record {
        unmoved =
            subst (Unmoved out.tracker) (sym (check_track-tracker code t node now_ms out))
              (set_track-Unmoved out.tracker code t t' e same.ok same.errors);
        settles = rw (own_after code, self) (SilentAt-checked code t leaf says);
        stays = λ k h. elim (Bool-cases (str_eq code k)) [
          | inl here ↦
              rw (own_after k, here)
                (subst (λ c. Silent t' (N c t'.grace_from_ms)) (name k here)
                  (SilentAt-checked code t leaf says))
          | inr elsewhere ↦ rw (own_after k, elsewhere) h
        ];
        no_event = λ h.
            check_track-events code t node now_ms out
              (subst (Silent t) (says t) (subst (SilentAt code) e h));
      }
        where
          node : Summary
          node = node_of t code leaf

          t' : DeviceTrack
          t' = checked t node now_ms

          same : Same t t'
          same = checked-Same t node now_ms

          self : str_eq code code ≡ true
          self = ground (arith, eq_iff code code)

          name : (k : String) → str_eq code k ≡ true → code ≡ k
          name k h = ground (arith, eq_iff code k, h)

          own_after :
              (k : String)
              → own_track (check_track code t node now_ms out).tracker k
                ≡ (if str_eq code k then some t' else own_track out.tracker k)
          own_after k =
              ap (λ x. own_track x k) (check_track-tracker code t node now_ms out)
              ∙ own_track-set_track out.tracker code k t t' e

  pub record Loops (leaves : List (String × Summary)) (out out' : HealthEvaluation) : Type 0 where
    pub unmoved : Unmoved out.tracker out'.tracker
    pub settles :
        (k : String)
        → SilentAt k (own_track out.tracker k) ⊎ (contains k (keys leaves) ≡ true)
        → SilentAt k (own_track out'.tracker k)
    pub no_event :
        ((k : String) → contains k (keys leaves) ≡ true → SilentAt k (own_track out.tracker k))
        → out'.events ≡ out.events

  joined :
      (code : String) (leaf : Summary) (rest : List (String × Summary))
      (out out_one out_all : HealthEvaluation)
      → Checks code leaf out out_one
      → Loops rest out_one out_all
      → Loops ((code, leaf) ∷ rest) out out_all
  joined code leaf rest out out_one out_all one others = record {
    unmoved = Unmoved-trans one.unmoved others.unmoved;
    settles = λ k h. others.settles k (next k h);
    no_event = λ h.
        others.no_event (λ k c. one.stays k (h k (ground (arith, c))))
        ∙ one.no_event (h code (ground (arith, eq_iff code code)));
  }
    where
      next :
          (k : String)
          → SilentAt k (own_track out.tracker k) ⊎ (contains k (keys ((code, leaf) ∷ rest)) ≡ true)
          → SilentAt k (own_track out_one.tracker k) ⊎ (contains k (keys rest) ≡ true)
      next k (inl silent) = inl (one.stays k silent)
      next k (inr among) = elim (Bool-cases (str_eq code k)) [
        | inl same ↦ inl (
            subst (λ c. SilentAt c (own_track out_one.tracker c))
              (ground (arith, eq_iff code k, same)) one.settles)
        | inr other ↦ inr (ground (arith, among, other))
      ]

  pub check_leaves-Loops :
      (leaves : List (String × Summary)) (out : HealthEvaluation)
      → ((k : String) → contains k (keys leaves) ≡ true → (leaf : Summary) → Says k leaf)
      → Loops leaves out (check_leaves stand policy before now_ms leaves out)
  unfolding check_leaves
  check_leaves-Loops [] out says = record {
    unmoved = Unmoved-refl out.tracker;
    settles = λ k h. elim h [ inl silent ↦ silent | inr none_left ↦ absurd (cc none_left) ];
    no_event = λ h. refl;
  }
  check_leaves-Loops ((code, leaf) ∷ rest) out says =
      let out_one = check_leaf stand policy before now_ms code leaf out in
      joined code leaf rest out out_one (check_leaves stand policy before now_ms rest out_one)
        (check_leaf-Checks code leaf out (says code (ground (arith, eq_iff code code)) leaf))
        (check_leaves-Loops rest out_one (λ k c. says k (ground (arith, c))))
