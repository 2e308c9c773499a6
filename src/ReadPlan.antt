-- ===== src/ReadPlan.antt =====
-- packages/device-profiles/src/frames/read-plan.ts: the requests that read a device. The text order
-- `localeCompare` is a parameter, `collate`, of which nothing is assumed; sorting is by insertion,
-- which is stable, as `Array.prototype.sort` is.
mod Types
pub use Types.*
pub mod Order
pub mod Merge
pub mod Declared
pub mod Plan
pub mod Cost
pub mod Waste
mod Tests
use Prim.Native.Nat.{compare, Ordering}
use Prim.Native.String.{String}
use text.Mathlib.Text.{◌==◌ as str_eq}
use fieldstream.Common.{
  sort_by, ℕ, zero, suc, ◌+◌, ◌-◌, min, max, Bool, true, false, not, ◌&&◌, ◌||◌, Option, none, some,
  List, [], ◌∷◌, ◌++◌, map, ltb, leb, if◌then◌else◌, keep, any, sum_by, length,
}
use fieldstream.Common.Keys.{contains}
use fieldstream.Contracts.{RegisterType, holding, input, register_eq, DataType, words_by_data_type}

-- The position in `REGISTER_TYPE_ORDER`.
abbrev pub rank : RegisterType → ℕ
rank holding = 0
rank input = 1

abbrev pub max_modbus_block : ℕ
max_modbus_block = 125

-- `a || b` on the signs of three comparisons, and whether the sum of them lets the left stand first.
abbrev pub not_after : Ordering → Ordering → Ordering → Bool
not_after Ordering.lt second third = true
not_after Ordering.gt second third = false
not_after Ordering.eq Ordering.lt third = true
not_after Ordering.eq Ordering.gt third = false
not_after Ordering.eq Ordering.eq Ordering.gt = false
not_after Ordering.eq Ordering.eq _ = true

abbrev pub section_entries : String → List ParamSpec → List PlanEntry
section_entries section [] = []
section_entries section (p ∷ ps) = entry_of section p ∷ section_entries section ps

abbrev pub all_entries : List SectionSpec → List PlanEntry
all_entries [] = []
all_entries (s ∷ ss) = section_entries s.key s.params ++ all_entries ss

pub entry_fits_block : PlanEntry → ReadBlock → Bool
entry_fits_block e b =
    register_eq e.register_type b.register_type
    && leb b.start_address e.start
    && leb (e.end + 1) (b.start_address + b.register_count)

-- `assertEntryFitsLimit`
abbrev pub assert_entry_fits : ℕ → PlanEntry → Built (Unit {0})
assert_entry_fits max_block e =
    if ltb max_block e.words then thrown (entry_too_long e max_block) else built tt

abbrev pub draft_of : PlanEntry → BlockDraft
draft_of e = record {
  register_type = e.register_type;
  start = e.start;
  end = e.end;
  keys = e.param.key ∷ [];
}

-- The gap between the draft and the entry, and the length of both together, are within the limits.
-- `entry.start - current.end - 1 <= maxGap` and `end - current.start + 1 <= maxBlock`, with the
-- subtractions carried over.
pub joins : ℕ → ℕ → BlockDraft → PlanEntry → Bool
joins max_gap max_block d e =
    register_eq d.register_type e.register_type
    && leb e.start (d.end + 1 + max_gap)
    && leb (max d.end e.end + 1) (d.start + max_block)

abbrev pub extended : BlockDraft → PlanEntry → BlockDraft
extended d e = record d { end = max d.end e.end; keys = d.keys ++ e.param.key ∷ [] }

-- The rest of the loop of `mergeEntries`, with the last draft in hand.
pub merge_after : ℕ → ℕ → BlockDraft → List PlanEntry → Built (List BlockDraft)
unfolding joins
merge_after max_gap max_block d [] = built (d ∷ [])
merge_after max_gap max_block d (e ∷ es) = do
  _ ← assert_entry_fits max_block e
  elim (joins max_gap max_block d e) [
    | true ↦ merge_after max_gap max_block (extended d e) es
    | false ↦ merge_after max_gap max_block (draft_of e) es >>= λ ds. built (d ∷ ds)
  ]

pub merge_drafts : ℕ → ℕ → List PlanEntry → Built (List BlockDraft)
unfolding merge_after
merge_drafts max_gap max_block [] = built []
merge_drafts max_gap max_block (e ∷ es) = do
  _ ← assert_entry_fits max_block e
  merge_after max_gap max_block (draft_of e) es

abbrev pub merged_block : BlockDraft → PlanBlock
merged_block d = record {
  id = merged_id d.register_type d.start;
  register_type = d.register_type;
  start_address = d.start;
  register_count = d.end + 1 - d.start;
  param_keys = d.keys;
  source = from_merged;
}

abbrev pub merged_blocks : List BlockDraft → List PlanBlock
merged_blocks [] = []
merged_blocks (d ∷ ds) = merged_block d ∷ merged_blocks ds

pub merge_entries : ℕ → ℕ → List PlanEntry → Built (List PlanBlock)
unfolding merge_drafts
merge_entries max_gap max_block es = do
  ds ← merge_drafts max_gap max_block es
  built (merged_blocks ds)

abbrev pub naive_block : PlanEntry → PlanBlock
naive_block e = record {
  id = naive_id e.param.key;
  register_type = e.register_type;
  start_address = e.start;
  register_count = e.words;
  param_keys = e.param.key ∷ [];
  source = from_naive;
}

pub naive_blocks : ℕ → List PlanEntry → Built (List PlanBlock)
naive_blocks max_block [] = built []
naive_blocks max_block (e ∷ es) = do
  _ ← assert_entry_fits max_block e
  bs ← naive_blocks max_block es
  built (naive_block e ∷ bs)

abbrev pub keys_of : List PlanEntry → List String
keys_of [] = []
keys_of (e ∷ es) = e.param.key ∷ keys_of es

-- The entries that a declared block takes.
abbrev pub taken_by : List String → List PlanEntry → ReadBlock → List PlanEntry
taken_by taken entries b =
    keep (λ e. not (contains e.param.key taken) && entry_fits_block e b) entries

-- A block with no parameter is not requested.
abbrev pub with_block : ReadBlock → List String → List PlanBlock → List PlanBlock
with_block b [] rest = rest
with_block b (k ∷ ks) rest =
    record {
      id = declared_id b.id;
      register_type = b.register_type;
      start_address = b.start_address;
      register_count = b.register_count;
      param_keys = k ∷ ks;
      source = from_declared;
    }
    ∷ rest

-- The loop over the declared blocks: the blocks that it keeps and the keys that they take.
pub declared_loop :
    ℕ → List PlanEntry → List String → List ReadBlock → Built (List PlanBlock × List String)
declared_loop max_block entries taken [] = built ([], taken)
declared_loop max_block entries taken (b ∷ bs) =
    let ks = keys_of (taken_by taken entries b) in
    let rest = declared_loop max_block entries (taken ++ ks) bs in
    if ltb max_block b.register_count
    then thrown (block_too_long b max_block)
    else rest >>= λ r. built (with_block b ks r.0, r.1)

pub declared_blocks : List ReadBlock → List PlanEntry → ℕ → ℕ → Built (List PlanBlock)
unfolding declared_loop
declared_blocks declared entries max_gap max_block = do
  kept ← declared_loop max_block entries [] declared
  rest ← merge_entries max_gap max_block (keep (λ e. not (contains e.param.key kept.1)) entries)
  built (kept.0 ++ rest)

-- Membership in the set that `usedAddresses` builds.
abbrev pub is_used : List PlanEntry → RegisterType → ℕ → Bool
is_used entries type address =
    any (λ e. register_eq e.register_type type && leb e.start address && leb address e.end) entries

-- The unused addresses among the first `n` of a block.
pub wasted_upto : List PlanEntry → RegisterType → ℕ → ℕ → ℕ
wasted_upto entries type start zero = 0
wasted_upto entries type start (suc n) =
    wasted_upto entries type start n + (if is_used entries type (start + n) then 0 else 1)

pub wasted_in_block : List PlanEntry → PlanBlock → ℕ
unfolding wasted_upto
wasted_in_block entries b = wasted_upto entries b.register_type b.start_address b.register_count

abbrev pub or_default {ℓ} : {A : Type ℓ} → Option A → A → A
or_default none d = d
or_default (some a) d = a

pub record Collation : Type 0 where
  pub keys : String → String → Ordering
  pub ids : BlockId → BlockId → Ordering

module _ (text : Collation) where
  -- `compareEntries(left, right) <= 0`
  abbrev pub entry_before : PlanEntry → PlanEntry → Bool
  entry_before a b =
      not_after (compare (rank a.register_type) (rank b.register_type)) (compare a.start b.start)
        (text.keys a.param.key b.param.key)

  abbrev pub block_before : PlanBlock → PlanBlock → Bool
  block_before a b =
      not_after (compare (rank a.register_type) (rank b.register_type))
        (compare a.start_address b.start_address) (text.ids a.id b.id)

  pub list_plan_entries : DeviceProfile → List PlanEntry
  list_plan_entries p = sort_by entry_before (all_entries p.sections)

  abbrev pub effective_limit : DeviceProfile → ReadPlanOptions → ℕ
  effective_limit p o =
      min (or_default o.max_block_registers p.max_block_registers) max_modbus_block

  abbrev pub built_blocks : DeviceProfile → ReadPlanOptions → Built (List PlanBlock)
  built_blocks p o =
      let entries = list_plan_entries p in
      let max_block = effective_limit p o in
      let max_gap = or_default o.max_gap_registers p.max_gap_registers in
      let use_declared =
        ltb 0 (length p.declared) && not (or_default o.ignore_declared_blocks false) in
      elim (or_default o.mode merged) [
        | naive ↦ naive_blocks max_block entries
        | merged ↦
            if use_declared
            then declared_blocks p.declared entries max_gap max_block
            else merge_entries max_gap max_block entries
      ]

  pub plan_of : DeviceProfile → ReadPlanOptions → List PlanBlock → ReadPlan
  plan_of p o blocks =
      let ordered = sort_by block_before blocks in
      record {
        profile_key = p.profile_key;
        profile_version = p.version;
        mode = or_default o.mode merged;
        blocks = ordered;
        request_count = length ordered;
        register_count = sum_by (λ b. b.register_count) ordered;
        wasted_registers = sum_by (wasted_in_block (list_plan_entries p)) ordered;
      }

  pub build_device_read_plan : DeviceProfile → ReadPlanOptions → Built ReadPlan
  unfolding plan_of
  build_device_read_plan p o = built_blocks p o >>= λ blocks. built (plan_of p o blocks)
