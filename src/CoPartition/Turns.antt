-- ===== src/CoPartition/Turns.antt =====
-- How one topic's partitions are placed by packages/kafka/src/partitioning.ts.
use Prim.Native.String.{String}
use text.Mathlib.Text.{◌==◌ as str_eq}
use text.Mathlib.TextEquality.{eq_iff}
use mathlib.Core.List.{append_assoc, append-nil}
use fieldstream.Common.{
  ℕ, zero, suc, ◌%◌, ◌≡◌, refl, ap, ◌∙◌, Bool, true, false, ◌&&◌, Option, none, some, List, [], ◌∷◌,
  ◌++◌, arith, if◌then◌else◌, length, get_elem?, keep, All,
}
use fieldstream.Common.Keys.{lookup, put, lookup-put}
use fieldstream.CoPartition.{
  Assignment, Assignments, or_empty, pushed, owner, place_partition, place_partitions,
}

-- The partitions of a topic that a member reads.
abbrev pub reads : String → String → Assignments → List ℕ
reads m t as' = or_empty (lookup t (or_empty (lookup m as')))

abbrev pub is_some : {A : Type 0} → Option A → Bool
is_some none = false
is_some (some a) = true

abbrev pub is : Option String → String → Bool
is none m = false
is (some o) m = str_eq o m

abbrev pub Listed : List String → Assignments → Type 0
Listed sorted as' = All (λ m. is_some (lookup m as') ≡ true) sorted

Listed-elem :
    (ms : List String) (as' : Assignments) (i : ℕ) (m : String)
    → Listed ms as'
    → get_elem? ms i ≡ some m
    → is_some (lookup m as') ≡ true
Listed-elem [] as' i m h e = cc
Listed-elem (x ∷ ms) as' zero m h e = ground (arith, h.0, e)
Listed-elem (x ∷ ms) as' (suc i) m h e = Listed-elem ms as' i m h.1 e

pub Listed-put :
    (ms : List String) (k : String) (a : Assignment) (as' : Assignments)
    → Listed ms as'
    → Listed ms (put k a as')
Listed-put [] k a as' h = tt
Listed-put (m ∷ ms) k a as' h =
    (ground (arith, lookup-put k m a as', h.0), Listed-put ms k a as' h.1)

abbrev taken : Option String → String → ℕ → Assignments → Assignments
taken o topic p as' = elim o [
  | none ↦ as'
  | some m ↦ elim (lookup m as') [ none ↦ as' | some a ↦ put m (pushed topic p a) as' ]
]

Listed-place_partition :
    (ms sorted : List String) (topic : String) (p : ℕ) (as' : Assignments)
    → Listed ms as'
    → Listed ms (place_partition sorted topic p as')
unfolding place_partition
Listed-place_partition ms sorted topic p as' h = by_owner (owner sorted p)
  where
    by_found :
        (m : String) (found : Option Assignment)
        → Listed ms (elim found [ none ↦ as' | some a ↦ put m (pushed topic p a) as' ])
    by_found m none = h
    by_found m (some a) = Listed-put ms m (pushed topic p a) as' h

    by_owner : (o : Option String) → Listed ms (taken o topic p as')
    by_owner none = h
    by_owner (some m) = by_found m (lookup m as')

-- One partition goes to its owner and to nobody else.
reads-place_partition :
    (sorted : List String) (topic : String) (p : ℕ) (as' : Assignments) (m t : String)
    → Listed sorted as'
    → reads m t (place_partition sorted topic p as')
      ≡ reads m t as' ++ (if str_eq topic t && is (owner sorted p) m then p ∷ [] else [])
unfolding place_partition
reads-place_partition sorted topic p as' m t h = by_owner (owner sorted p) refl
  where
    by_found :
        (o : String) (found : Option Assignment)
        → lookup o as' ≡ found
        → is_some found ≡ true
        → reads m t (elim found [ none ↦ as' | some a ↦ put o (pushed topic p a) as' ])
          ≡ reads m t as' ++ (if str_eq topic t && str_eq o m then p ∷ [] else [])
    by_found o none e listed = cc
    by_found o (some a) e listed = ground (
      arith,
      lookup-put o m (pushed topic p a) as',
      lookup-put topic t (or_empty (lookup topic a) ++ p ∷ []) a,
      eq_iff o m,
      eq_iff topic t,
      append-nil (reads m t as'),
    )

    by_owner :
        (o : Option String)
        → owner sorted p ≡ o
        → reads m t (taken o topic p as')
          ≡ reads m t as' ++ (if str_eq topic t && is o m then p ∷ [] else [])
    by_owner none e = ground (arith, append-nil (reads m t as'))
    by_owner (some o) e =
        by_found o (lookup o as') refl (Listed-elem sorted as' (p % length sorted) o h e)

pub Listed-place_partitions :
    (sorted : List String) (topic : String) (ps : List ℕ) (as' : Assignments)
    → Listed sorted as'
    → Listed sorted (place_partitions sorted topic ps as')
unfolding place_partitions
Listed-place_partitions sorted topic [] as' h = h
Listed-place_partitions sorted topic (p ∷ ps) as' h =
    Listed-place_partitions sorted topic ps (place_partition sorted topic p as')
      (Listed-place_partition sorted sorted topic p as' h)

-- The partitions that fall to a member.
abbrev pub owned_by : List String → String → List ℕ → List ℕ
owned_by sorted m = keep (λ p. is (owner sorted p) m)

pub reads-place_partitions :
    (sorted : List String) (topic : String) (ps : List ℕ) (as' : Assignments) (m t : String)
    → Listed sorted as'
    → reads m t (place_partitions sorted topic ps as')
      ≡ reads m t as' ++ (if str_eq topic t then owned_by sorted m ps else [])
unfolding place_partitions
reads-place_partitions sorted topic [] as' m t h = ground (arith, append-nil (reads m t as'))
reads-place_partitions sorted topic (p ∷ ps) as' m t h =
    reads-place_partitions sorted topic ps (place_partition sorted topic p as') m t
      (Listed-place_partition sorted sorted topic p as' h)
    ∙ ap (λ r. r ++ (if str_eq topic t then owned_by sorted m ps else []))
        (reads-place_partition sorted topic p as' m t h)
    ∙ append_assoc (reads m t as') _ _
    ∙ ap (λ r. reads m t as' ++ r) (joined (str_eq topic t) (is (owner sorted p) m))
  where
    joined :
        (same own : Bool)
        → (if same && own then p ∷ [] else []) ++ (if same then owned_by sorted m ps else [])
          ≡ (if same then (if own then p ∷ owned_by sorted m ps else owned_by sorted m ps) else [])
    joined true true = refl
    joined true false = refl
    joined false own = refl
