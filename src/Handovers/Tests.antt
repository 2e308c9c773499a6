-- ===== src/Handovers/Tests.antt =====
-- Runs of the handovers of services/stream-processor/src/ingest/assignment.ts.
use Prim.Native.String.{String, len}
use fieldstream.Common.{ℕ, ◌≡◌, true, false, not, ◌&&◌, Option, some, List, [], ◌∷◌}
use fieldstream.Common.Keys.{contains}
use fieldstream.Handovers.{Handovers, Membership, no_handovers, same_member, devices_of, apply}
use fieldstream.Handovers.Moves.{apply_moves}
use fieldstream.Handovers.Run.{
  Event, assigns, finishes, revokes, new_service, run, failed_by, run_holds_owned,
}

-- A partitioner that takes the length of the key.
abbrev by_length : String → ℕ
by_length code = len code

abbrev codes : List String
codes = "A" ∷ "BB" ∷ "CCC" ∷ []

abbrev moving : List Event
moving =
    assigns "one" (1 ∷ 2 ∷ [])
    ∷ finishes codes true
    ∷ assigns "one" (2 ∷ 3 ∷ [])
    ∷ finishes codes false
    ∷ revokes
    ∷ assigns "two" (3 ∷ [])
    ∷ finishes codes true
    ∷ finishes codes true
    ∷ []

run_holds_owned_example : contains "CCC" (run by_length moving new_service).held ≡ (
    contains "CCC" (run by_length moving new_service).handovers.owned
    && not (failed_by by_length moving new_service "CCC" false))
run_holds_owned_example = run_holds_owned by_length moving "CCC"

abbrev two_partitions : Option Membership
two_partitions = some (record { member_id = "one"; partitions = 2 ∷ 3 ∷ [] })

abbrev owning : Handovers
owning = record no_handovers {
  owned = "A" ∷ "BB" ∷ [];
  member = some (record { member_id = "one"; partitions = 1 ∷ 2 ∷ [] });
}

apply_moves_example :
    let a = apply by_length codes true two_partitions owning in
    let was = contains "A" owning.owned in
    let will = contains "A" (devices_of by_length codes two_partitions) in
    let stays = same_member two_partitions owning.member in
    (contains "A" a.gone ≡ (was && not (stays && will)))
    × (contains "A" a.adopted ≡ (will && not (stays && was)))
apply_moves_example = apply_moves by_length codes true two_partitions owning "A"
