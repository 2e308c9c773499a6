-- ===== src/Handovers.antt =====
-- services/stream-processor/src/ingest/assignment.ts: the queue of handovers of devices between the
-- instances of the stream processor. A set of codes is a list read by membership. The partition of a
-- device's key is computed by the Kafka client's partitioner, and is a parameter. Steps of the queue
-- run one after the other, so each is one transition; `adopt` may fail, which its caller is told.
pub mod Moves
pub mod Run
mod Tests
use Prim.Native.String.{String}
use text.Mathlib.Text.{◌==◌ as str_eq}
use fieldstream.Common.{
  sort_by, ℕ, Bool, true, false, not, ◌&&◌, ◌||◌, Option, none, some, List, [], ◌∷◌, ◌++◌, ◌==◌,
  leb, if◌then◌else◌, keep, any,
}
use fieldstream.Common.Keys.{contains, dedupe}

pub record Handover : Type 0 where
  pub released : List String
  pub adopted : List String

pub record Ownership : Type 0 where
  pub partitions : List ℕ
  pub devices : List String

pub record Membership : Type 0 where
  pub member_id : String
  pub partitions : List ℕ

-- A step that waits in the queue.
pub data Work : Type 0 where
  to_assign : Membership → Work
  to_revoke to_refresh : Work

pub record Handovers : Type 0 where
  pub owned : List String
  pub member : Option Membership
  pub settled : Option Ownership
  pub queue : List Work
  pub rebalancing : Bool

abbrev pub no_handovers : Handovers
no_handovers = record { owned = []; member = none; settled = none; queue = []; rebalancing = false }

-- What one step asks of the service: to release, then to adopt.
pub record Applied : Type 0 where
  pub state : Handovers
  pub gone : List String
  pub adopted : List String

unfoldable pub handover_of : List String → List String → Handover
handover_of prev next = record {
  released = keep (λ code. not (contains code next)) prev;
  adopted = keep (λ code. not (contains code prev)) next;
}

unfoldable pub same_member : Option Membership → Option Membership → Bool
same_member (some target) (some member) = str_eq target.member_id member.member_id
same_member _ _ = false

unfoldable pub announce : Handovers → Handovers
announce h = record h { rebalancing = true }

unfoldable pub assign : Handovers → String → List ℕ → Handovers
assign h member_id raw_partitions = record h {
  rebalancing = false;
  queue =
      h.queue
      ++ to_assign (record { member_id = member_id; partitions = sort_by leb raw_partitions }) ∷ [];
}

unfoldable pub revoke : Handovers → Handovers
revoke h = record h { rebalancing = false; queue = h.queue ++ to_revoke ∷ [] }

unfoldable pub refresh : Handovers → Handovers
refresh h = record h { queue = h.queue ++ to_refresh ∷ [] }

abbrev pub settling : Handovers → Bool
settling h = h.rebalancing || elim h.queue [ [] ↦ false | work ∷ rest ↦ true ]

abbrev pub unchanged : Handovers → Applied
unchanged h = record { state = h; gone = []; adopted = [] }

abbrev pub ownership_of : Option Membership → List String → Option Ownership
ownership_of none devices = none
ownership_of (some target) devices =
    some (record { partitions = target.partitions; devices = devices })

abbrev pub is_none : Option Membership → Bool
is_none none = true
is_none (some m) = false

module _ (partition_for_key : String → ℕ) where
  unfoldable pub owned_devices : List String → List ℕ → List String
  owned_devices device_codes raw_partitions =
      dedupe (keep (λ code. any (λ p. p == partition_for_key code) raw_partitions) device_codes)

  unfoldable pub devices_of : List String → Option Membership → List String
  unfolding owned_devices
  devices_of codes none = []
  devices_of codes (some target) = owned_devices codes target.partitions

  -- `codes` is what `steps.codes()` returns, and `adopts` says whether `steps.adopt` succeeds.
  unfoldable pub apply : List String → Bool → Option Membership → Handovers → Applied
  unfolding handover_of same_member devices_of
  apply codes adopts target h =
      let kept = if same_member target h.member then h.owned else [] in
      let next = devices_of codes target in
      let dropped = (handover_of h.owned kept).released in
      let moved = handover_of kept next in
      record {
        state = record h {
          owned = next;
          member = target;
          settled = if adopts then ownership_of target next else h.settled;
        };
        gone = dropped ++ moved.released;
        adopted = moved.adopted;
      }

  -- One step of the queue, as `assign`, `revoke` and `refresh` put it there.
  unfoldable pub perform : List String → Bool → Work → Handovers → Applied
  unfolding apply
  perform codes adopts (to_assign target) h = apply codes adopts (some target) h
  perform codes adopts to_revoke h =
      if is_none h.member && elim h.owned [ [] ↦ true | code ∷ rest ↦ false ]
      then unchanged h
      else apply codes adopts none h
  perform codes adopts to_refresh h =
      if is_none h.member then unchanged h else apply codes adopts h.member h

  -- The head of the queue runs to its end.
  unfoldable pub work_done : List String → Bool → Handovers → Applied
  unfolding perform
  work_done codes adopts h = elim h.queue [
    | [] ↦ unchanged h
    | work ∷ rest ↦ perform codes adopts work (record h { queue = rest })
  ]
