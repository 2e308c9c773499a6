-- ===== src/ReadPlan/Plan.antt =====
-- The finished plan of packages/device-profiles/src/frames/read-plan.ts (`buildDeviceReadPlan`).
use fieldstream.Common.{
  sort_by, sort_by-All, sort_by-All_inv, sort_by-Any, ℕ, ◌≡◌, Bool, true, false, not, ◌&&◌, List,
  arith, ltb, if◌then◌else◌, All, Any, All-map, length,
}
use fieldstream.Common.Keys.{Distinct}
use fieldstream.ReadPlan.{
  keys_of, PlanEntry, PlanBlock, ReadPlan, PlanMode, merged, naive, DeviceProfile, ReadPlanOptions,
  Collation, Built, built, thrown, ◌>>=◌, merge_entries, naive_blocks, declared_blocks, or_default,
  effective_limit, max_modbus_block, built_blocks, list_plan_entries, plan_of,
  build_device_read_plan, all_entries, entry_before, block_before,
}
use fieldstream.ReadPlan.Order.{Sorted, IsEntry, list_plan_entries-Sorted}
use fieldstream.ReadPlan.Merge.{OnBuilt}
use fieldstream.ReadPlan.Declared.{
  Covers, Fits, Sound, AloneIn, UniqueKeys, Distinct-UniqueKeys, merge_entries-Sound,
  naive_blocks-Sound, declared_blocks-Sound,
}

module _ (text : Collation) (p : DeviceProfile) where
  sorted_unique : UniqueKeys (all_entries p.sections) → UniqueKeys (list_plan_entries text p)
  unfolding list_plan_entries
  sorted_unique unique =
      sort_by-All (entry_before text)
        (AloneIn (sort_by (entry_before text) (all_entries p.sections))) (all_entries p.sections)
        (All-map (AloneIn (all_entries p.sections))
          (AloneIn (sort_by (entry_before text) (all_entries p.sections)))
          (λ e.
            sort_by-All (entry_before text) (λ x. e.param.key ≡ x.param.key → e ≡ x)
              (all_entries p.sections))
          (all_entries p.sections) unique)

  built_blocks-Sound :
      (o : ReadPlanOptions)
      → UniqueKeys (all_entries p.sections)
      → OnBuilt
          (Sound (effective_limit text p o) (list_plan_entries text p))
          (built_blocks text p o)
  built_blocks-Sound o unique =
      by_mode (or_default o.mode merged)
        (ltb 0 (length p.declared) && not (or_default o.ignore_declared_blocks false))
    where
      limit : ℕ
      limit = effective_limit text p o

      gap : ℕ
      gap = or_default o.max_gap_registers p.max_gap_registers

      es : List PlanEntry
      es = list_plan_entries text p

      shape : Sorted es × All IsEntry es
      shape = list_plan_entries-Sorted text p

      by_mode :
          (mode : PlanMode) (use_declared : Bool)
          → OnBuilt (Sound limit es) (elim mode [
            | naive ↦ naive_blocks limit es
            | merged ↦
                if use_declared
                then declared_blocks p.declared es gap limit
                else merge_entries gap limit es
          ])
      by_mode naive use_declared = naive_blocks-Sound limit es shape.1
      by_mode merged true =
          declared_blocks-Sound p.declared es gap limit shape.0 shape.1 (sorted_unique unique)
      by_mode merged false = merge_entries-Sound gap limit es shape.0 shape.1

  -- If no two entries of the profile share a key, then in every plan that is built, in either mode,
  -- with declared blocks or without: each parameter of each section is read whole by one request
  -- that names its key, and no request is longer than the limit in force, nor than 125 registers.
  pub build_device_read_plan-Covers :
      (o : ReadPlanOptions) (plan : ReadPlan)
      → Distinct (keys_of (all_entries p.sections))
      → build_device_read_plan text p o ≡ built plan
      → All (λ e. Any (Covers e) plan.blocks) (all_entries p.sections)
        × All (Fits (effective_limit text p o)) plan.blocks
        × All (Fits max_modbus_block) plan.blocks
  unfolding build_device_read_plan list_plan_entries
  build_device_read_plan-Covers o plan distinct e =
      finish (built_blocks text p o)
        (built_blocks-Sound o (Distinct-UniqueKeys (all_entries p.sections) distinct)) e
    where
      finish :
          (r : Built (List PlanBlock))
          → OnBuilt (Sound (effective_limit text p o) (list_plan_entries text p)) r
          → (r >>= λ blocks. built (plan_of text p o blocks)) ≡ built plan
          → All (λ e. Any (Covers e) plan.blocks) (all_entries p.sections)
            × All (Fits (effective_limit text p o)) plan.blocks
            × All (Fits max_modbus_block) plan.blocks
      finish (thrown x) sound e = absurd (cc e)
      finish (built bs) sound e =
          let same : sort_by (block_before text) bs ≡ plan.blocks = ground arith in
          let short =
            sort_by-All (block_before text) (Fits (effective_limit text p o)) bs sound.1 in
          rw (← same) (
            sort_by-All_inv (entry_before text)
                (λ e. Any (Covers e) (sort_by (block_before text) bs)) (all_entries p.sections)
                (All-map (λ e. Any (Covers e) bs)
                  (λ e. Any (Covers e) (sort_by (block_before text) bs))
                  (λ e. sort_by-Any (block_before text) (Covers e) bs) (list_plan_entries text p)
                  sound.0),
            short,
            All-map (Fits (effective_limit text p o)) (Fits max_modbus_block) (λ b h. omega arith)
                (sort_by (block_before text) bs) short,
          )
