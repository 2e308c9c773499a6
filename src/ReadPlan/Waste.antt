-- ===== src/ReadPlan/Waste.antt =====
-- With no gap allowed, an automatic block of packages/device-profiles/src/frames/read-plan.ts reads
-- only registers that some parameter needs.
use fieldstream.Common.{
  sort_by, sort_by-All, ℕ, zero, suc, ◌+◌, ◌-◌, ◌≤◌, ◌≡◌, refl, sym, ap, ◌∙◌, inl, inr, Bool, true,
  false, not, ◌&&◌, List, [], ◌∷◌, arith, ltb, leb, if◌then◌else◌, Bool-cases, All, All-map, length,
  sum_by,
}
use fieldstream.Contracts.{RegisterType, holding, input, register_eq}
use fieldstream.ReadPlan.{
  PlanEntry, PlanBlock, BlockDraft, ReadPlan, PlanMode, merged, naive, DeviceProfile,
  ReadPlanOptions, Collation, Built, built, thrown, ◌>>=◌, merge_entries, merge_drafts, merge_after,
  merged_blocks, naive_blocks, naive_block, declared_blocks, or_default, effective_limit,
  built_blocks, list_plan_entries, plan_of, build_device_read_plan, block_before, joins, extended,
  draft_of, is_used, wasted_upto, wasted_in_block,
}
use fieldstream.ReadPlan.Order.{IsEntry, list_plan_entries-Sorted}
use fieldstream.ReadPlan.Merge.{OnBuilt}

-- Every register from the first to the last is one that some entry needs.
abbrev Dense : List PlanEntry → RegisterType → ℕ → ℕ → Type 0
Dense es type first last = (a : ℕ) → first ≤ a → a ≤ last → is_used es type a ≡ true

abbrev DenseDraft : List PlanEntry → BlockDraft → Type 0
DenseDraft es d = Dense es d.register_type d.start d.end

abbrev DenseEntry : List PlanEntry → PlanEntry → Type 0
DenseEntry es e = Dense es e.register_type e.start e.end

register_eq_refl : (t : RegisterType) → register_eq t t ≡ true
register_eq_refl holding = refl
register_eq_refl input = refl

entries_dense : (es : List PlanEntry) → All (DenseEntry es) es
entries_dense [] = tt
entries_dense (e ∷ es) = (
  (λ a h g. ground (arith, register_eq_refl e.register_type)),
  All-map (DenseEntry es) (DenseEntry (e ∷ es)) (λ x dense a h g. ground (arith, dense a h g)) es
      (entries_dense es),
)

-- An entry that joins with no gap starts inside the draft or right behind it.
extended-Dense :
    (all : List PlanEntry) (limit : ℕ) (d : BlockDraft) (e : PlanEntry)
    → DenseDraft all d
    → DenseEntry all e
    → joins 0 limit d e ≡ true
    → DenseDraft all (extended d e)
unfolding joins
extended-Dense all limit d e dense own j a h g = elim (Bool-cases (leb a d.end)) [
  | inl inside ↦ dense a h (ground arith)
  | inr beyond ↦
      let same : d.register_type ≡ e.register_type = ground arith in
      rw same (own a (ground arith) (ground arith))
]

merge_after-Dense :
    (all : List PlanEntry) (limit : ℕ) (d : BlockDraft) (es : List PlanEntry)
    → DenseDraft all d
    → All (DenseEntry all) es
    → OnBuilt (All (DenseDraft all)) (merge_after 0 limit d es)
unfolding merge_after
merge_after-Dense all limit d [] dense own = (dense, tt)
merge_after-Dense all limit d (e ∷ es) dense own = elim (Bool-cases (ltb limit e.words)) [
  | inl long ↦ rw long tt
  | inr fits ↦ elim (Bool-cases (joins 0 limit d e)) [
    | inl j ↦
        rw (fits, j)
          (merge_after-Dense all limit (extended d e) es
            (extended-Dense all limit d e dense own.0 j) own.1)
    | inr j ↦
        rw (fits, j)
          (apart (merge_after 0 limit (draft_of e) es)
            (merge_after-Dense all limit (draft_of e) es own.0 own.1))
  ]
]
  where
    apart :
        (r : Built (List BlockDraft))
        → OnBuilt (All (DenseDraft all)) r
        → OnBuilt (All (DenseDraft all)) (r >>= λ ds. built (d ∷ ds))
    apart (built ds) m = (dense, m)
    apart (thrown x) m = tt

abbrev NoWaste : List PlanEntry → PlanBlock → Type 0
NoWaste es b = wasted_in_block es b ≡ 0

Dense-wasted_upto :
    (es : List PlanEntry) (type : RegisterType) (first n last : ℕ)
    → Dense es type first last
    → first + n ≤ last + 1
    → wasted_upto es type first n ≡ 0
unfolding wasted_upto
Dense-wasted_upto es type first zero last dense h = refl
Dense-wasted_upto es type first (suc n) last dense h = ground (
  arith,
  Dense-wasted_upto es type first n last dense (omega arith),
  dense (first + n) (omega arith) (omega arith),
)

merged-NoWaste :
    (all : List PlanEntry) (ds : List BlockDraft)
    → All (DenseDraft all) ds
    → All (NoWaste all) (merged_blocks ds)
unfolding wasted_in_block
merged-NoWaste all [] h = tt
merged-NoWaste all (d ∷ ds) h = (one, merged-NoWaste all ds h.1)
  where
    one : wasted_upto all d.register_type d.start (d.end + 1 - d.start) ≡ 0
    one = elim (Bool-cases (leb d.start d.end)) [
      | inl up ↦
          Dense-wasted_upto all d.register_type d.start (d.end + 1 - d.start) d.end h.0
            (ground arith)
      | inr down ↦ let none_left : d.end + 1 - d.start ≡ 0 = ground arith in rw none_left refl
    ]

merge_entries-NoWaste :
    (limit : ℕ) (es : List PlanEntry) → OnBuilt (All (NoWaste es)) (merge_entries 0 limit es)
unfolding merge_entries merge_drafts
merge_entries-NoWaste limit [] = tt
merge_entries-NoWaste limit (e ∷ es) = elim (Bool-cases (ltb limit e.words)) [
  | inl long ↦ rw long tt
  | inr fits ↦ rw fits (
      blocks (merge_after 0 limit (draft_of e) es) (
        merge_after-Dense (e ∷ es) limit (draft_of e) es (entries_dense (e ∷ es)).0
          (entries_dense (e ∷ es)).1))
]
  where
    blocks :
        (r : Built (List BlockDraft))
        → OnBuilt (All (DenseDraft (e ∷ es))) r
        → OnBuilt (All (NoWaste (e ∷ es))) (r >>= λ ds. built (merged_blocks ds))
    blocks (built ds) m = merged-NoWaste (e ∷ es) ds m
    blocks (thrown x) m = tt

naive_blocks-NoWaste :
    (all : List PlanEntry) (limit : ℕ) (es : List PlanEntry)
    → All IsEntry es
    → All (DenseEntry all) es
    → OnBuilt (All (NoWaste all)) (naive_blocks limit es)
unfolding naive_blocks wasted_in_block
naive_blocks-NoWaste all limit [] ok own = tt
naive_blocks-NoWaste all limit (e ∷ es) ok own = elim (Bool-cases (ltb limit e.words)) [
  | inl long ↦ rw long tt
  | inr fits ↦ rw fits (more (naive_blocks limit es) (naive_blocks-NoWaste all limit es ok.1 own.1))
]
  where
    more :
        (r : Built (List PlanBlock))
        → OnBuilt (All (NoWaste all)) r
        → OnBuilt (All (NoWaste all)) (r >>= λ bs. built (naive_block e ∷ bs))
    more (built bs) m =
        (Dense-wasted_upto all e.register_type e.start e.words e.end own.0 (omega (arith, ok.0)), m)
    more (thrown x) m = tt

sum_zero : {A : Type 0} (f : A → ℕ) (xs : List A) → All (λ x. f x ≡ 0) xs → sum_by f xs ≡ 0
sum_zero f [] h = refl
sum_zero f (x ∷ xs) h = omega (arith, h.0, sum_zero f xs h.1)

module _ (text : Collation) (p : DeviceProfile) where
  -- With a gap limit of zero and no declared blocks in use, a plan that is built reads no register
  -- that no parameter needs.
  pub build_device_read_plan-NoWaste :
      (o : ReadPlanOptions) (plan : ReadPlan)
      → or_default o.max_gap_registers p.max_gap_registers ≡ 0
      → (ltb 0 (length p.declared) && not (or_default o.ignore_declared_blocks false)) ≡ false
      → build_device_read_plan text p o ≡ built plan
      → plan.wasted_registers ≡ 0
  unfolding build_device_read_plan plan_of
  build_device_read_plan-NoWaste o plan no_gap automatic e = finish (built_blocks text p o) blocks e
    where
      es : List PlanEntry
      es = list_plan_entries text p

      limit : ℕ
      limit = effective_limit text p o

      by_mode :
          (mode : PlanMode) (use_declared : Bool) (gap : ℕ)
          → use_declared ≡ false
          → gap ≡ 0
          → OnBuilt (All (NoWaste es)) (elim mode [
            | naive ↦ naive_blocks limit es
            | merged ↦
                if use_declared
                then declared_blocks p.declared es gap limit
                else merge_entries gap limit es
          ])
      by_mode naive use_declared gap off tight =
          naive_blocks-NoWaste es limit es (list_plan_entries-Sorted text p).1 (entries_dense es)
      by_mode merged true gap off tight = absurd (cc off)
      by_mode merged false gap off tight = rw tight (merge_entries-NoWaste limit es)

      blocks : OnBuilt (All (NoWaste es)) (built_blocks text p o)
      blocks =
          by_mode (or_default o.mode merged)
            (ltb 0 (length p.declared) && not (or_default o.ignore_declared_blocks false))
            (or_default o.max_gap_registers p.max_gap_registers) automatic no_gap

      finish :
          (r : Built (List PlanBlock))
          → OnBuilt (All (NoWaste es)) r
          → (r >>= λ bs. built (plan_of text p o bs)) ≡ built plan
          → plan.wasted_registers ≡ 0
      finish (thrown x) m e = absurd (cc e)
      finish (built bs) m e =
          let same : plan_of text p o bs ≡ plan = ground arith in
          sym (ap (λ (r : ReadPlan). r.wasted_registers) same)
          ∙ sum_zero (wasted_in_block es) (sort_by (block_before text) bs)
              (sort_by-All (block_before text) (NoWaste es) bs m)
