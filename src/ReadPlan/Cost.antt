-- ===== src/ReadPlan/Cost.antt =====
-- What a plan of packages/device-profiles/src/frames/read-plan.ts costs: that it is built, how many
-- requests it makes, and that an automatic block reads no register in vain.
use Prim.Native.String.{String}
use fieldstream.Common.{
  sort_by, sort_by-sum, length_by-sum, ℕ, suc, ◌≤◌, ◌≡◌, refl, sym, ap, ◌∙◌, inl, inr, Bool, true,
  false, not, ◌&&◌, some, List, [], ◌∷◌, ◌++◌, arith, ltb, if◌then◌else◌, Bool-cases, All, length,
  keep,
}
use fieldstream.Common.Keys.{contains}
use fieldstream.ReadPlan.{
  PlanEntry, PlanBlock, BlockDraft, ReadBlock, ReadPlan, PlanMode, merged, naive, DeviceProfile,
  ReadPlanOptions, Collation, Built, built, thrown, ◌>>=◌, merge_entries, merge_drafts, merge_after,
  merged_blocks, naive_blocks, naive_block, declared_blocks, declared_loop, or_default,
  effective_limit, built_blocks, list_plan_entries, plan_of, build_device_read_plan, block_before,
  joins, extended, draft_of, keys_of, taken_by,
}
use fieldstream.ReadPlan.Order.{Sorted, IsEntry, list_plan_entries-Sorted}
use fieldstream.ReadPlan.Declared.{keep-All}
use fieldstream.ReadPlan.Merge.{OnBuilt, MergeSpec, merge_drafts-MergeSpec}

abbrev pub IsBuilt : {A : Type 0} → Built A → Type 0
IsBuilt {A} r = (a : A) × (r ≡ built a)

IsBuilt-bind :
    {A B : Type 0} (r : Built A) (f : A → Built B)
    → IsBuilt r
    → ((a : A) → IsBuilt (f a))
    → IsBuilt (r >>= f)
IsBuilt-bind (built a) f h g = g a
IsBuilt-bind (thrown x) f h g = absurd (cc h.1)

module _ (limit : ℕ) (roomy : 2 ≤ limit) where
  merge_after-IsBuilt :
      (max_gap : ℕ) (d : BlockDraft) (es : List PlanEntry)
      → All IsEntry es
      → IsBuilt (merge_after max_gap limit d es)
  unfolding merge_after
  merge_after-IsBuilt max_gap d [] ok = (d ∷ [], refl)
  merge_after-IsBuilt max_gap d (e ∷ es) ok =
      let fits : ltb limit e.words ≡ false = ground (arith, ok.0) in
      elim (Bool-cases (joins max_gap limit d e)) [
        | inl j ↦ rw (fits, j) (merge_after-IsBuilt max_gap (extended d e) es ok.1)
        | inr j ↦
            rw (fits, j)
              (IsBuilt-bind (merge_after max_gap limit (draft_of e) es) (λ ds. built (d ∷ ds))
                (merge_after-IsBuilt max_gap (draft_of e) es ok.1) (λ ds. (d ∷ ds, refl)))
      ]

  merge_entries-IsBuilt :
      (max_gap : ℕ) (es : List PlanEntry)
      → All IsEntry es
      → IsBuilt (merge_entries max_gap limit es)
  unfolding merge_entries merge_drafts
  merge_entries-IsBuilt max_gap [] ok = ([], refl)
  merge_entries-IsBuilt max_gap (e ∷ es) ok =
      let fits : ltb limit e.words ≡ false = ground (arith, ok.0) in
      rw fits (
        IsBuilt-bind (merge_after max_gap limit (draft_of e) es) (λ ds. built (merged_blocks ds))
          (merge_after-IsBuilt max_gap (draft_of e) es ok.1) (λ ds. (merged_blocks ds, refl)))

  naive_blocks-IsBuilt : (es : List PlanEntry) → All IsEntry es → IsBuilt (naive_blocks limit es)
  unfolding naive_blocks
  naive_blocks-IsBuilt [] ok = ([], refl)
  naive_blocks-IsBuilt (e ∷ es) ok =
      let fits : ltb limit e.words ≡ false = ground (arith, ok.0) in
      rw fits (
        IsBuilt-bind (naive_blocks limit es) (λ bs. built (naive_block e ∷ bs))
          (naive_blocks-IsBuilt es ok.1) (λ bs. (naive_block e ∷ bs, refl)))

  declared_loop-IsBuilt :
      (es : List PlanEntry) (taken : List String) (bs : List ReadBlock)
      → All (λ b. b.register_count ≤ limit) bs
      → IsBuilt (declared_loop limit es taken bs)
  unfolding declared_loop
  declared_loop-IsBuilt es taken [] short = (([], taken), refl)
  declared_loop-IsBuilt es taken (b ∷ bs) short =
      let fits : ltb limit b.register_count ≡ false = ground (arith, short.0) in
      rw fits (
        IsBuilt-bind (declared_loop limit es (taken ++ keys_of (taken_by taken es b)) bs) _
          (declared_loop-IsBuilt es (taken ++ keys_of (taken_by taken es b)) bs short.1)
          (λ r. (_, refl)))

  declared_blocks-IsBuilt :
      (declared : List ReadBlock) (es : List PlanEntry) (max_gap : ℕ)
      → All (λ b. b.register_count ≤ limit) declared
      → All IsEntry es
      → IsBuilt (declared_blocks declared es max_gap limit)
  unfolding declared_blocks
  declared_blocks-IsBuilt declared es max_gap short ok =
      IsBuilt-bind (declared_loop limit es [] declared) _
        (declared_loop-IsBuilt es [] declared short)
        (λ kept.
          IsBuilt-bind (merge_entries max_gap limit (rest kept)) (λ bs. built (kept.0 ++ bs))
            (merge_entries-IsBuilt max_gap (rest kept)
              (keep-All IsEntry (λ e. not (contains e.param.key kept.1)) es ok))
            (λ bs. (kept.0 ++ bs, refl)))
    where
      rest : List PlanBlock × List String → List PlanEntry
      rest kept = keep (λ e. not (contains e.param.key kept.1)) es

module _ (text : Collation) (p : DeviceProfile) where
  -- Where the limit in force leaves room for a 32-bit value and for every declared block, a plan is
  -- built, whatever the mode and the other options.
  pub build_device_read_plan-IsBuilt :
      (o : ReadPlanOptions)
      → 2 ≤ effective_limit text p o
      → All (λ b. b.register_count ≤ effective_limit text p o) p.declared
      → IsBuilt (build_device_read_plan text p o)
  unfolding build_device_read_plan
  build_device_read_plan-IsBuilt o roomy short =
      IsBuilt-bind (built_blocks text p o) (λ blocks. built (plan_of text p o blocks))
        (by_mode (or_default o.mode merged)
          (ltb 0 (length p.declared) && not (or_default o.ignore_declared_blocks false)))
        (λ blocks. (plan_of text p o blocks, refl))
    where
      limit : ℕ
      limit = effective_limit text p o

      gap : ℕ
      gap = or_default o.max_gap_registers p.max_gap_registers

      es : List PlanEntry
      es = list_plan_entries text p

      by_mode :
          (mode : PlanMode) (use_declared : Bool)
          → IsBuilt (elim mode [
            | naive ↦ naive_blocks limit es
            | merged ↦
                if use_declared
                then declared_blocks p.declared es gap limit
                else merge_entries gap limit es
          ])
      by_mode naive use_declared =
          naive_blocks-IsBuilt limit roomy es (list_plan_entries-Sorted text p).1
      by_mode merged true =
          declared_blocks-IsBuilt limit roomy p.declared es gap short
            (list_plan_entries-Sorted text p).1
      by_mode merged false =
          merge_entries-IsBuilt limit roomy gap es (list_plan_entries-Sorted text p).1

  length-merged_blocks : (ds : List BlockDraft) → length (merged_blocks ds) ≡ length ds
  length-merged_blocks [] = refl
  length-merged_blocks (d ∷ ds) = ap suc (length-merged_blocks ds)

  merged_count :
      (max_gap limit : ℕ) (es : List PlanEntry)
      → Sorted es
      → All IsEntry es
      → OnBuilt (λ bs. length bs ≤ length es) (merge_entries max_gap limit es)
  unfolding merge_entries
  merged_count max_gap limit es sorted ok =
      from (merge_drafts max_gap limit es) (merge_drafts-MergeSpec max_gap limit es sorted ok)
    where
      from :
          (r : Built (List BlockDraft))
          → OnBuilt (MergeSpec limit es) r
          → OnBuilt (λ bs. length bs ≤ length es) (r >>= λ ds. built (merged_blocks ds))
      from (built ds) m = omega (arith, m.fewer, length-merged_blocks ds)
      from (thrown x) m = tt

  naive_count :
      (limit : ℕ) (es : List PlanEntry)
      → OnBuilt (λ bs. length bs ≡ length es) (naive_blocks limit es)
  unfolding naive_blocks
  naive_count limit [] = refl
  naive_count limit (e ∷ es) = elim (Bool-cases (ltb limit e.words)) [
    | inl long ↦ rw long tt
    | inr fits ↦ rw fits (more (naive_blocks limit es) (naive_count limit es))
  ]
    where
      more :
          (r : Built (List PlanBlock))
          → OnBuilt (λ bs. length bs ≡ length es) r
          → OnBuilt (λ bs. length bs ≡ suc (length es)) (r >>= λ bs. built (naive_block e ∷ bs))
      more (built bs) m = ap suc m
      more (thrown x) m = tt

  plan_count :
      (o : ReadPlanOptions) (bs : List PlanBlock) → (plan_of text p o bs).request_count ≡ length bs
  unfolding plan_of
  plan_count o bs =
      length_by-sum (block_before text) (sort_by (block_before text) bs)
      ∙ sort_by-sum (block_before text) (λ b. 1) bs
      ∙ sym (length_by-sum (block_before text) bs)

  -- Under the same limits and with the declared blocks left aside, the merged plan makes no more
  -- requests than the naive one, which makes one for each parameter.
  pub merged-le-naive :
      (o : ReadPlanOptions) (m n : ReadPlan)
      → build_device_read_plan text p
          (record o { mode = some merged; ignore_declared_blocks = some true })
        ≡ built m
      → build_device_read_plan text p (record o { mode = some naive }) ≡ built n
      → (m.request_count ≤ n.request_count) × (n.request_count ≡ length (list_plan_entries text p))
  unfolding build_device_read_plan
  merged-le-naive o m n em en =
      compare_counts (merge_entries gap limit es) (naive_blocks limit es)
        (merged_count gap limit es shape.0 shape.1) (naive_count limit es) merged_built en
    where
      om : ReadPlanOptions
      om = record o { mode = some merged; ignore_declared_blocks = some true }

      on : ReadPlanOptions
      on = record o { mode = some naive }

      limit : ℕ
      limit = effective_limit text p o

      gap : ℕ
      gap = or_default o.max_gap_registers p.max_gap_registers

      es : List PlanEntry
      es = list_plan_entries text p

      shape : Sorted es × All IsEntry es
      shape = list_plan_entries-Sorted text p

      merged_built :
          (merge_entries gap limit es >>= λ blocks. built (plan_of text p om blocks)) ≡ built m
      merged_built = ground arith

      compare_counts :
          (rm rn : Built (List PlanBlock))
          → OnBuilt (λ bs. length bs ≤ length es) rm
          → OnBuilt (λ bs. length bs ≡ length es) rn
          → (rm >>= λ blocks. built (plan_of text p om blocks)) ≡ built m
          → (rn >>= λ blocks. built (plan_of text p on blocks)) ≡ built n
          → (m.request_count ≤ n.request_count) × (n.request_count ≡ length es)
      compare_counts (thrown x) rn hm hn em en = absurd (cc em)
      compare_counts (built a) (thrown x) hm hn em en = absurd (cc en)
      compare_counts (built a) (built b) hm hn em en =
          let same_m : plan_of text p om a ≡ m = ground arith in
          let same_n : plan_of text p on b ≡ n = ground arith in
          let count_m : m.request_count ≡ length a =
            ap (λ (r : ReadPlan). r.request_count) (sym same_m) ∙ plan_count om a in
          let count_n : n.request_count ≡ length b =
            ap (λ (r : ReadPlan). r.request_count) (sym same_n) ∙ plan_count on b in
          (omega arith, omega arith)
