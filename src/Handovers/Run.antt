-- ===== src/Handovers/Run.antt =====
-- Histories of the handovers of services/stream-processor/src/ingest/assignment.ts.
use Prim.Native.String.{String}
use fieldstream.Common.{
  ℕ, ◌≡◌, refl, Bool, true, false, not, ◌&&◌, none, some, List, [], ◌∷◌, arith, if◌then◌else◌,
}
use fieldstream.Common.Keys.{contains}
use fieldstream.Handovers.{
  Work, to_assign, to_revoke, to_refresh, Handovers, Applied, no_handovers, announce, assign,
  revoke, refresh, unchanged, apply, perform, work_done,
}
use fieldstream.Handovers.Moves.{held_after, contains-held_after, failed_after, apply_holds}

-- What happens to the queue: what Kafka tells, a refresh of the codes, and the end of a step.
pub data Event : Type 0 where
  announces revokes refreshes : Event
  assigns : String → List ℕ → Event
  finishes : List String → Bool → Event

-- The queue with the devices that the service holds.
pub record Service : Type 0 where
  pub handovers : Handovers
  pub held : List String

abbrev pub new_service : Service
new_service = record { handovers = no_handovers; held = [] }

abbrev pub obeyed : Bool → Service → Applied → Service
obeyed adopts s a = record { handovers = a.state; held = held_after adopts s.held a }

module _ (partition_for_key : String → ℕ) where
  unfoldable pub step : Event → Service → Service
  unfolding work_done
  step announces s = record s { handovers = announce s.handovers }
  step revokes s = record s { handovers = revoke s.handovers }
  step refreshes s = record s { handovers = refresh s.handovers }
  step (assigns member_id partitions) s = record s {
    handovers = assign s.handovers member_id partitions;
  }
  step (finishes codes adopts) s =
      obeyed adopts s (work_done partition_for_key codes adopts s.handovers)

  unfoldable pub run : List Event → Service → Service
  run [] s = s
  run (e ∷ es) s = run es (step e s)

  abbrev failed_in : Event → Service → String → Bool → Bool
  failed_in (finishes codes adopts) s k failed =
      failed_after adopts (work_done partition_for_key codes adopts s.handovers) k failed
  failed_in _ s k failed = failed

  -- Whether a history ends with the last adoption of a device failed, and the device not released.
  unfoldable pub failed_by : List Event → Service → String → Bool → Bool
  unfolding step
  failed_by [] s k failed = failed
  failed_by (e ∷ es) s k failed = failed_by es (step e s) k (failed_in e s k failed)

  abbrev Holds : Bool → List String → String → Bool → Applied → Type 0
  Holds adopts held k failed a =
      contains k (held_after adopts held a)
      ≡ (contains k a.state.owned && not (failed_after adopts a k failed))

  unchanged-Holds :
      (adopts : Bool) (h : Handovers) (held : List String) (k : String) (failed : Bool)
      → contains k held ≡ (contains k h.owned && not failed)
      → Holds adopts held k failed (unchanged h)
  unchanged-Holds adopts h held k failed same =
      ground (arith, same, contains-held_after adopts held (unchanged h) k)

  if_else-Holds :
      (b adopts : Bool) (a a' : Applied) (held : List String) (k : String) (failed : Bool)
      → Holds adopts held k failed a
      → Holds adopts held k failed a'
      → Holds adopts held k failed (if b then a else a')
  if_else-Holds true adopts a a' held k failed first second = first
  if_else-Holds false adopts a a' held k failed first second = second

  perform-Holds :
      (codes : List String) (adopts : Bool) (work : Work) (h : Handovers) (held : List String)
      (k : String) (failed : Bool)
      → contains k held ≡ (contains k h.owned && not failed)
      → Holds adopts held k failed (perform partition_for_key codes adopts work h)
  unfolding perform
  perform-Holds codes adopts (to_assign target) h held k failed same =
      apply_holds partition_for_key codes adopts (some target) h held k failed same
  perform-Holds codes adopts to_revoke h held k failed same =
      if_else-Holds _ adopts (unchanged h) (apply partition_for_key codes adopts none h) held k
        failed (unchanged-Holds adopts h held k failed same)
        (apply_holds partition_for_key codes adopts none h held k failed same)
  perform-Holds codes adopts to_refresh h held k failed same =
      if_else-Holds _ adopts (unchanged h) (apply partition_for_key codes adopts h.member h) held k
        failed (unchanged-Holds adopts h held k failed same)
        (apply_holds partition_for_key codes adopts h.member h held k failed same)

  work_done-Holds :
      (codes : List String) (adopts : Bool) (queue : List Work) (h : Handovers) (held : List String)
      (k : String) (failed : Bool)
      → h.queue ≡ queue
      → contains k held ≡ (contains k h.owned && not failed)
      → Holds adopts held k failed (work_done partition_for_key codes adopts h)
  unfolding work_done
  work_done-Holds codes adopts [] h held k failed e same =
      rw e (unchanged-Holds adopts h held k failed same)
  work_done-Holds codes adopts (work ∷ rest) h held k failed e same =
      rw e (perform-Holds codes adopts work (record h { queue = rest }) held k failed same)

  step_holds :
      (e : Event) (s : Service) (k : String) (failed : Bool)
      → contains k s.held ≡ (contains k s.handovers.owned && not failed)
      → contains k (step e s).held
        ≡ (contains k (step e s).handovers.owned && not (failed_in e s k failed))
  unfolding step announce revoke refresh assign
  step_holds announces s k failed same = same
  step_holds revokes s k failed same = same
  step_holds refreshes s k failed same = same
  step_holds (assigns member_id partitions) s k failed same = same
  step_holds (finishes codes adopts) s k failed same =
      work_done-Holds codes adopts s.handovers.queue s.handovers s.held k failed refl same

  run_from_holds :
      (es : List Event) (s : Service) (k : String) (failed : Bool)
      → contains k s.held ≡ (contains k s.handovers.owned && not failed)
      → contains k (run es s).held
        ≡ (contains k (run es s).handovers.owned && not (failed_by es s k failed))
  unfolding run failed_by
  run_from_holds [] s k failed same = same
  run_from_holds (e ∷ es) s k failed same =
      run_from_holds es (step e s) k (failed_in e s k failed) (step_holds e s k failed same)

  -- After any history, a service that lets go of what it is told to release, and takes what it is told
  -- to adopt where the adoption succeeds, holds exactly the devices that the queue counts as owned, less
  -- those whose last adoption failed: nothing is left behind in any case, and where no adoption fails
  -- nothing is missed when memberships change and assignments follow one another.
  pub run_holds_owned :
      (es : List Event) (k : String)
      → contains k (run es new_service).held ≡ (
          contains k (run es new_service).handovers.owned && not (failed_by es new_service k false))
  run_holds_owned es k = run_from_holds es new_service k false refl
