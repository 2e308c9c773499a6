-- ===== src/CoPartition.antt =====
-- packages/kafka/src/partitioning.ts: the assigner of partitions to the members of a consumer group.
-- The partitions of a topic are a parameter, since the Kafka client reports them, and the encoding of
-- an assignment for the broker is left out.
pub mod Turns
pub mod Owner
mod Tests
use Prim.Native.String.{String}
use fieldstream.Common.{
  ℕ, ◌%◌, Bool, true, false, Option, none, some, List, [], ◌∷◌, ◌++◌, leb, length, get_elem?,
  sort_by,
}
use fieldstream.Common.Keys.{lookup, put, sort}

-- What a member reads: partitions by topic.
abbrev pub Assignment : Type 0
Assignment = List (String × List ℕ)

abbrev pub Assignments : Type 0
Assignments = List (String × Assignment)

-- `new Map(sorted.map((memberId) => [memberId, {}]))`
abbrev pub no_assignments : List String → Assignments → Assignments
no_assignments [] seen = seen
no_assignments (m ∷ ms) seen = no_assignments ms (put m [] seen)

abbrev pub or_empty : {A : Type 0} → Option (List A) → List A
or_empty none = []
or_empty (some xs) = xs

-- `(assignment[topic] ??= []).push(partition)`
abbrev pub pushed : String → ℕ → Assignment → Assignment
pushed topic partition a = put topic (or_empty (lookup topic a) ++ partition ∷ []) a

-- The member whose turn a partition's number is. There is none among no members.
abbrev pub owner : List String → ℕ → Option String
owner sorted partition = get_elem? sorted (partition % length sorted)

unfoldable pub place_partition : List String → String → ℕ → Assignments → Assignments
place_partition sorted topic partition as' = elim (owner sorted partition) [
  | none ↦ as'
  | some m ↦ elim (lookup m as') [ none ↦ as' | some a ↦ put m (pushed topic partition a) as' ]
]

unfoldable pub place_partitions : List String → String → List ℕ → Assignments → Assignments
unfolding place_partition
place_partitions sorted topic [] as' = as'
place_partitions sorted topic (p ∷ ps) as' =
    place_partitions sorted topic ps (place_partition sorted topic p as')

module _ (partitions_of : String → List ℕ) where
  unfoldable pub place_topics : List String → List String → Assignments → Assignments
  unfolding place_partitions
  place_topics sorted [] as' = as'
  place_topics sorted (t ∷ ts) as' =
      place_topics sorted ts (place_partitions sorted t (sort_by leb (partitions_of t)) as')

  unfoldable pub assign_partitions : List String → List String → Assignments
  unfolding place_topics
  assign_partitions members topics =
      let sorted = sort members in place_topics sorted topics (no_assignments sorted [])
