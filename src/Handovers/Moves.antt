-- ===== src/Handovers/Moves.antt =====
-- Which devices move in services/stream-processor/src/ingest/assignment.ts.
use Prim.Native.String.{String}
use text.Mathlib.TextEquality.{eq_iff}
use fieldstream.Common.{
  ℕ, ◌≡◌, refl, Bool, true, false, not, ◌&&◌, ◌||◌, Option, List, [], ◌∷◌, ◌++◌, arith,
  if◌then◌else◌, keep,
}
use fieldstream.Common.Keys.{contains}
use fieldstream.Handovers.{
  Membership, Handovers, Applied, handover_of, same_member, devices_of, apply,
}

pub contains-append :
    (k : String) (xs ys : List String) → contains k (xs ++ ys) ≡ (contains k xs || contains k ys)
contains-append k [] ys = refl
contains-append k (x ∷ xs) ys = ground (arith, contains-append k xs ys)

pub contains-keep :
    (f : String → Bool) (k : String) (xs : List String)
    → contains k (keep f xs) ≡ (contains k xs && f k)
contains-keep f k [] = refl
contains-keep f k (x ∷ xs) = ground (arith, contains-keep f k xs, eq_iff x k)

abbrev without : List String → List String → List String
without ys xs = keep (λ code. not (contains code ys)) xs

contains-without :
    (k : String) (ys xs : List String)
    → contains k (without ys xs) ≡ (contains k xs && not (contains k ys))
contains-without k ys xs = contains-keep (λ code. not (contains code ys)) k xs

-- The two differences that `apply` takes, where `kept` is all that was owned or nothing.
moves_of :
    (was kept will : List String) (stays : Bool) (k : String)
    → contains k kept ≡ (stays && contains k was)
    → (contains k (without kept was ++ without will kept)
        ≡ (contains k was && not (stays && contains k will)))
      × (contains k (without kept will) ≡ (contains k will && not (stays && contains k was)))
moves_of was kept will stays k kept_is = ground (
  arith,
  kept_is,
  contains-append k (without kept was) (without will kept),
  contains-without k kept was,
  contains-without k will kept,
  contains-without k kept will,
)

contains-kept :
    (stays : Bool) (was : List String) (k : String)
    → contains k (if stays then was else []) ≡ (stays && contains k was)
contains-kept true was k = refl
contains-kept false was k = refl

-- What a service holds that lets go of what it is told to release, and takes what it is told to adopt
-- where the adoption succeeds.
abbrev pub held_after : Bool → List String → Applied → List String
held_after adopts held a =
    keep (λ code. not (contains code a.gone)) held ++ (if adopts then a.adopted else [])

-- Whether the last adoption that was asked for a device, and that it was not released after, failed.
abbrev pub failed_after : Bool → Applied → String → Bool → Bool
failed_after adopts a k failed =
    if contains k a.adopted then not adopts else failed && not (contains k a.gone)

pub contains-held_after :
    (adopts : Bool) (held : List String) (a : Applied) (k : String)
    → contains k (held_after adopts held a)
      ≡ (contains k held && not (contains k a.gone) || adopts && contains k a.adopted)
contains-held_after true held a k =
    ground
      (arith, contains-append k (without a.gone held) a.adopted, contains-without k a.gone held)
contains-held_after false held a k =
    ground (arith, contains-append k (without a.gone held) [], contains-without k a.gone held)

module _ (partition_for_key : String → ℕ) where
  abbrev next_devices : List String → Option Membership → List String
  next_devices codes target = devices_of partition_for_key codes target

  -- With a membership that stays, a device is given up where the new assignment does not have it,
  -- and taken where the old one did not; with another membership, or none, all that was owned is
  -- given up and all of the new assignment is taken.
  pub apply_moves :
      (codes : List String) (adopts : Bool) (target : Option Membership) (h : Handovers)
      (k : String)
      → let a = apply partition_for_key codes adopts target h in
        let was = contains k h.owned in
        let will = contains k (devices_of partition_for_key codes target) in
        let stays = same_member target h.member in
        (contains k a.gone ≡ (was && not (stays && will)))
        × (contains k a.adopted ≡ (will && not (stays && was)))
  unfolding apply handover_of
  apply_moves codes adopts target h k =
      moves_of h.owned (if same_member target h.member then h.owned else [])
        (devices_of partition_for_key codes target) (same_member target h.member) k
        (contains-kept (same_member target h.member) h.owned k)

  apply-owned :
      (codes : List String) (adopts : Bool) (target : Option Membership) (h : Handovers)
      → (apply partition_for_key codes adopts target h).state.owned
        ≡ devices_of partition_for_key codes target
  unfolding apply
  apply-owned codes adopts target h = refl

  pub apply_holds :
      (codes : List String) (adopts : Bool) (target : Option Membership) (h : Handovers)
      (held : List String) (k : String) (failed : Bool)
      → contains k held ≡ (contains k h.owned && not failed)
      → let a = apply partition_for_key codes adopts target h in
        contains k (held_after adopts held a)
        ≡ (contains k a.state.owned && not (failed_after adopts a k failed))
  apply_holds codes adopts target h held k failed same =
      let a = apply partition_for_key codes adopts target h in
      ground (
        arith,
        same,
        apply_moves codes adopts target h k,
        contains-held_after adopts held a k,
        apply-owned codes adopts target h,
      )
