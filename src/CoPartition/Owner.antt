-- ===== src/CoPartition/Owner.antt =====
-- Which member of a group gets which partitions (packages/kafka/src/partitioning.ts).
use Prim.Native.String.{String}
use text.Mathlib.Text.{◌==◌ as str_eq}
use text.Mathlib.TextEquality.{eq_iff}
use native.Mathlib.Nat.{mod-lt}
use mathlib.Core.List.{append-nil}
use fieldstream.Common.{
  ℕ, zero, suc, ◌%◌, ◌≤◌, ◌<◌, ◌≡◌, refl, sym, ap, ◌∙◌, Bool, true, false, ◌||◌, ◌⊎◌, some, List,
  [], ◌∷◌, ◌++◌, arith, leb, if◌then◌else◌, length, get_elem?, sort_by, Any, sort_by-Any,
  Bool-cases, inl, inr,
}
use fieldstream.Common.Keys.{
  lookup, put, sort, contains, contains-sort, length-sort, lookup-put, Distinct,
}
use fieldstream.CoPartition.{
  Assignments, no_assignments, owner, place_partitions, place_topics, assign_partitions,
}
use fieldstream.CoPartition.Turns.{
  reads, is_some, is, Listed, Listed-put, owned_by, Listed-place_partitions, reads-place_partitions,
}

Listed-no_assignments :
    (ms rest : List String) (seen : Assignments)
    → Listed ms seen
    → Listed ms (no_assignments rest seen)
Listed-no_assignments ms [] seen h = h
Listed-no_assignments ms (r ∷ rest) seen h =
    Listed-no_assignments ms rest (put r [] seen) (Listed-put ms r [] seen h)

no_assignments-Listed : (ms : List String) (seen : Assignments) → Listed ms (no_assignments ms seen)
no_assignments-Listed [] seen = tt
no_assignments-Listed (m ∷ ms) seen = (
  listed ms (put m [] seen) m (ground (arith, lookup-put m m [] seen, eq_iff m m)),
  no_assignments-Listed ms (put m [] seen),
)
  where
    listed :
        (ms : List String) (seen : Assignments) (m : String)
        → is_some (lookup m seen) ≡ true
        → is_some (lookup m (no_assignments ms seen)) ≡ true
    listed ms seen m h = (Listed-no_assignments (m ∷ []) ms seen (h, tt)).0

reads-no_assignments :
    (ms : List String) (seen : Assignments) (m t : String)
    → reads m t seen ≡ []
    → reads m t (no_assignments ms seen) ≡ []
reads-no_assignments [] seen m t h = h
reads-no_assignments (x ∷ ms) seen m t h =
    reads-no_assignments ms (put x [] seen) m t (ground (arith, lookup-put x m [] seen, h))

owner-some :
    (ms : List String) (i : ℕ)
    → i < length ms
    → (m : String) × (get_elem? ms i ≡ some m) × (contains m ms ≡ true)
owner-some [] i lt = absurd (omega (arith, lt))
owner-some (x ∷ ms) zero lt = (x, refl, ground (arith, eq_iff x x))
owner-some (x ∷ ms) (suc i) lt =
    let found = owner-some ms i (omega (arith, lt)) in (found.0, found.1, ground (arith, found.2))

Any-owned_by :
    (sorted : List String) (m : String) (p : ℕ) (ps : List ℕ)
    → owner sorted p ≡ some m
    → Any (λ q. q ≡ p) ps
    → Any (λ q. q ≡ p) (owned_by sorted m ps)
Any-owned_by sorted m p [] e h = h
Any-owned_by sorted m p (q ∷ ps) e (inl same) =
    rw (ap (λ x. is (owner sorted x) m) same ∙ ap (λ o. is o m) e ∙ same_name) (inl same)
  where
    same_name : str_eq m m ≡ true
    same_name = ground (arith, eq_iff m m)
Any-owned_by sorted m p (q ∷ ps) e (inr later) = elim (Bool-cases (is (owner sorted q) m)) [
  | inl own ↦ rw own (inr (Any-owned_by sorted m p ps e later))
  | inr other ↦ rw other (Any-owned_by sorted m p ps e later)
]

module _ (partitions_of : String → List ℕ) where
  reads-place_topics :
      (sorted topics : List String) (as' : Assignments) (m t : String)
      → Listed sorted as'
      → Distinct topics
      → reads m t (place_topics partitions_of sorted topics as')
        ≡ reads m t as'
          ++ (if contains t topics then owned_by sorted m (sort_by leb (partitions_of t)) else [])
  unfolding place_topics
  reads-place_topics sorted [] as' m t h d = sym (append-nil (reads m t as'))
  reads-place_topics sorted (topic ∷ topics) as' m t h d =
      reads-place_topics sorted topics
        (place_partitions sorted topic (sort_by leb (partitions_of topic)) as') m t
        (Listed-place_partitions sorted topic (sort_by leb (partitions_of topic)) as' h) d.1
      ∙ ap (λ r. r ++ mine_if (contains t topics))
          (reads-place_partitions sorted topic (sort_by leb (partitions_of topic)) as' m t h)
      ∙ by_topic (Bool-cases (str_eq topic t))
    where
      mine_if : Bool → List ℕ
      mine_if test = if test then owned_by sorted m (sort_by leb (partitions_of t)) else []

      by_topic :
          (str_eq topic t ≡ true) ⊎ (str_eq topic t ≡ false)
          → (reads m t as'
                ++ (if str_eq topic t
                    then owned_by sorted m (sort_by leb (partitions_of topic))
                    else []))
              ++ mine_if (contains t topics)
            ≡ reads m t as' ++ mine_if (str_eq topic t || contains t topics)
      by_topic (inl same) = ground (
        arith,
        same,
        eq_iff topic t,
        d.0,
        append-nil (reads m t as' ++ owned_by sorted m (sort_by leb (partitions_of topic))),
      )
      by_topic (inr other) = ground (arith, other, append-nil (reads m t as'))

  -- In an assignment each member reads, of each topic that the group reads, exactly the partitions
  -- whose number has it as its owner, in ascending order, and nothing of any other topic. The owner of
  -- a number does not depend on the topic, so partitions of one number go to one member.
  pub assign_partitions-owner :
      (members topics : List String) (m t : String)
      → Distinct topics
      → reads m t (assign_partitions partitions_of members topics) ≡ (
          if contains t topics
          then owned_by (sort members) m (sort_by leb (partitions_of t))
          else [])
  unfolding assign_partitions
  assign_partitions-owner members topics m t d =
      reads-place_topics (sort members) topics (no_assignments (sort members) []) m t
        (no_assignments-Listed (sort members) []) d
      ∙ ap
          (λ r.
            r
            ++ (if contains t topics
                then owned_by (sort members) m (sort_by leb (partitions_of t))
                else []))
          (reads-no_assignments (sort members) [] m t refl)

  -- Where a group has members, and two topics have a partition of one number, some member reads it of
  -- both topics.
  pub assign_partitions-together :
      (members topics : List String) (t t' : String) (p : ℕ)
      → 1 ≤ length members
      → Distinct topics
      → contains t topics ≡ true
      → contains t' topics ≡ true
      → Any (λ q. q ≡ p) (partitions_of t)
      → Any (λ q. q ≡ p) (partitions_of t')
      → (m : String) × (contains m members ≡ true)
        × Any (λ q. q ≡ p) (reads m t (assign_partitions partitions_of members topics))
        × Any (λ q. q ≡ p) (reads m t' (assign_partitions partitions_of members topics))
  assign_partitions-together members topics t t' p some_member d in_t in_t' has has' =
      let found =
        owner-some (sort members) (p % length (sort members))
          (mod-lt p (omega (arith, some_member, length-sort members))) in
      (
        found.0,
        sym (contains-sort found.0 members) ∙ found.2,
        read_of found.0 found.1 t in_t has,
        read_of found.0 found.1 t' in_t' has',
      )
    where
      read_of :
          (m : String)
          → owner (sort members) p ≡ some m
          → (t : String) → contains t topics ≡ true
          → Any (λ q. q ≡ p) (partitions_of t)
          → Any (λ q. q ≡ p) (reads m t (assign_partitions partitions_of members topics))
      read_of m e t listed has =
          rw (assign_partitions-owner members topics m t d, listed)
            (Any-owned_by (sort members) m p (sort_by leb (partitions_of t)) e
              (sort_by-Any leb (λ q. q ≡ p) (partitions_of t) has))
