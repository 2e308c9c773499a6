-- ===== src/ReadPlan/Order.antt =====
-- The order in which packages/device-profiles/src/frames/read-plan.ts walks the entries of a profile.
use Prim.Native.String.{String}
use fieldstream.Common.{
  insert_by-All, sort_by-All, insert_by, sort_by, ℕ, ◌+◌, ◌≤◌, ◌<◌, ◌≡◌, refl, ◌⊎◌, inl, inr, true,
  false, List, [], ◌∷◌, arith, Bool-cases, All, All-append, All-map,
}
use fieldstream.Contracts.{RegisterType, DataType}
use fieldstream.ReadPlan.{
  ParamSpec, SectionSpec, PlanEntry, DeviceProfile, Collation, rank, entry_of, section_entries,
  all_entries, entry_before, list_plan_entries,
}

-- The position (register type, address) is not past the entry's.
abbrev pub NotPast : RegisterType → ℕ → PlanEntry → Type 0
NotPast type start e =
    (rank type < rank e.register_type) ⊎ ((rank type ≡ rank e.register_type) × (start ≤ e.start))

abbrev pub Precedes : PlanEntry → PlanEntry → Type 0
Precedes a b = NotPast a.register_type a.start b

abbrev pub Sorted : List PlanEntry → Type 0
Sorted [] = Unit
Sorted (e ∷ es) = All (Precedes e) es × Sorted es

-- The entry ends one before its start plus its words, of which it has one or two.
abbrev pub IsEntry : PlanEntry → Type 0
IsEntry e = (e.end + 1 ≡ e.start + e.words) × (1 ≤ e.words) × (e.words ≤ 2)

section_entries-IsEntry : (s : String) (ps : List ParamSpec) → All IsEntry (section_entries s ps)
section_entries-IsEntry s [] = tt
section_entries-IsEntry s (p ∷ ps) = (one p p.data_type refl, section_entries-IsEntry s ps)
  where
    one : (p : ParamSpec) (t : DataType) → p.data_type ≡ t → IsEntry (entry_of s p)
    one p t e = ground arith

all_entries-IsEntry : (ss : List SectionSpec) → All IsEntry (all_entries ss)
all_entries-IsEntry [] = tt
all_entries-IsEntry (s ∷ ss) =
    All-append IsEntry (section_entries s.key s.params) (all_entries ss)
      (section_entries-IsEntry s.key s.params) (all_entries-IsEntry ss)

module _ (text : Collation) where
  entry_before-Precedes :
      (a b : PlanEntry)
      → ((entry_before text a b ≡ true) → Precedes a b)
        × ((entry_before text a b ≡ false) → Precedes b a)
  entry_before-Precedes a b = (λ h. ground arith, λ h. ground arith)

  Precedes-trans : (a b c : PlanEntry) → Precedes a b → Precedes b c → Precedes a c
  Precedes-trans a b c h g = ground arith

  insert_by-Sorted :
      (a : PlanEntry) (xs : List PlanEntry)
      → Sorted xs
      → Sorted (insert_by (entry_before text) a xs)
  unfolding insert_by
  insert_by-Sorted a [] h = (tt, tt)
  insert_by-Sorted a (x ∷ xs) h = elim (Bool-cases (entry_before text a x)) [
    | inl first ↦
        let ax = (entry_before-Precedes a x).0 first in
        rw first ((ax, All-map (Precedes x) (Precedes a) (λ y. Precedes-trans a x y ax) xs h.0), h)
    | inr later ↦ rw later (
      insert_by-All (entry_before text) (Precedes x) a xs ((entry_before-Precedes a x).1 later) h.0,
      insert_by-Sorted a xs h.1,
    )
  ]

  sort_by-Sorted : (xs : List PlanEntry) → Sorted (sort_by (entry_before text) xs)
  unfolding sort_by
  sort_by-Sorted [] = tt
  sort_by-Sorted (x ∷ xs) = insert_by-Sorted x (sort_by (entry_before text) xs) (sort_by-Sorted xs)

  -- The list that a plan is made from is in order of register type and address, its entries are as
  -- long as their data types say, and it has the entries of every section.
  pub list_plan_entries-Sorted :
      (p : DeviceProfile)
      → Sorted (list_plan_entries text p) × All IsEntry (list_plan_entries text p)
  unfolding list_plan_entries
  list_plan_entries-Sorted p = (
    sort_by-Sorted (all_entries p.sections),
    sort_by-All (entry_before text) IsEntry (all_entries p.sections)
        (all_entries-IsEntry p.sections),
  )
