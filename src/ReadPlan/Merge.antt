-- ===== src/ReadPlan/Merge.antt =====
-- The greedy merge of packages/device-profiles/src/frames/read-plan.ts (`mergeEntries`).
use mathlib.Core.List.{append_assoc}
use Prim.Native.String.{String}
use text.Mathlib.TextPositions.{eq_refl}
use fieldstream.Common.{
  ℕ, suc, ◌+◌, ◌≤◌, ◌≡◌, refl, ap, ◌∙◌, inl, inr, true, false, List, [], ◌∷◌, ◌++◌, arith, ltb,
  Bool-cases, All, Any, All-map, Any-map, length,
}
use fieldstream.Common.Keys.{contains, contains-append}
use fieldstream.ReadPlan.{
  PlanEntry, BlockDraft, Built, built, thrown, ◌>>=◌, draft_of, joins, extended, merge_after,
  merge_drafts, keys_of,
}
use fieldstream.ReadPlan.Order.{NotPast, Sorted, IsEntry}

-- A property of the value, where one is built.
abbrev pub OnBuilt : {A : Type 0} → (A → Type 0) → Built A → Type 0
OnBuilt P (built a) = P a
OnBuilt P (thrown e) = Unit

-- The draft has the entry's registers, and its key.
abbrev pub Holds : PlanEntry → BlockDraft → Type 0
Holds e d =
    (d.register_type ≡ e.register_type)
    × (d.start ≤ e.start)
    × (e.end ≤ d.end)
    × (contains e.param.key d.keys ≡ true)

abbrev Grows : BlockDraft → BlockDraft → Type 0
Grows d d' =
    (d'.register_type ≡ d.register_type)
    × (d'.start ≡ d.start)
    × (d.end ≤ d'.end)
    × ((k : String) → contains k d.keys ≡ true → contains k d'.keys ≡ true)

abbrev pub Within : ℕ → BlockDraft → Type 0
Within max_block d = (d.start ≤ d.end) × (d.end + 1 ≤ d.start + max_block)

abbrev pub draft_keys : List BlockDraft → List String
draft_keys [] = []
draft_keys (d ∷ ds) = d.keys ++ draft_keys ds

record Merged (max_block : ℕ) (d : BlockDraft) (es : List PlanEntry) (ds : List BlockDraft)
    : Type 0 where
  grows : Any (Grows d) ds
  holds : All (λ e. Any (Holds e) ds) es
  within : All (Within max_block) ds
  fewer : length ds ≤ suc (length es)
  all_keys : draft_keys ds ≡ d.keys ++ keys_of es

Holds-Grows : (e : PlanEntry) (d d' : BlockDraft) → Holds e d → Grows d d' → Holds e d'
Holds-Grows e d d' h g = ground (arith, g.3 e.param.key)

Grows-trans : (a b c : BlockDraft) → Grows a b → Grows b c → Grows a c
Grows-trans a b c g h = (h.0 ∙ g.0, h.1 ∙ g.1, omega (arith, g.2, h.2), λ k e. h.3 k (g.3 k e))

extended-Grows : (d : BlockDraft) (e : PlanEntry) → Grows d (extended d e)
extended-Grows d e =
    (refl, refl, omega arith, λ k h. ground (arith, contains-append k d.keys (e.param.key ∷ [])))

extended-Holds :
    (max_gap max_block : ℕ) (d : BlockDraft) (e : PlanEntry)
    → NotPast d.register_type d.start e
    → joins max_gap max_block d e ≡ true
    → Holds e (extended d e)
unfolding joins
extended-Holds max_gap max_block d e past h =
    ground (arith, contains-append e.param.key d.keys (e.param.key ∷ []), eq_refl e.param.key)

draft_of-Holds : (e : PlanEntry) → Holds e (draft_of e)
draft_of-Holds e = (refl, omega arith, omega arith, ground (arith, eq_refl e.param.key))

extended-Within :
    (max_gap max_block : ℕ) (d : BlockDraft) (e : PlanEntry)
    → joins max_gap max_block d e ≡ true
    → d.start ≤ d.end
    → Within max_block (extended d e)
unfolding joins
extended-Within max_gap max_block d e h w = ground arith

draft_of-Within :
    (max_block : ℕ) (e : PlanEntry)
    → IsEntry e
    → ltb max_block e.words ≡ false
    → Within max_block (draft_of e)
draft_of-Within max_block e w h = ground arith

Merged-joined :
    (max_gap max_block : ℕ) (d : BlockDraft) (e : PlanEntry) (es : List PlanEntry)
    (ds : List BlockDraft)
    → NotPast d.register_type d.start e
    → joins max_gap max_block d e ≡ true
    → Merged max_block (extended d e) es ds
    → Merged max_block d (e ∷ es) ds
Merged-joined max_gap max_block d e es ds past j m = record {
  grows =
      Any-map (Grows (extended d e)) (Grows d)
        (λ c. Grows-trans d (extended d e) c (extended-Grows d e)) ds m.grows;
  holds = (
    Any-map (Grows (extended d e)) (Holds e)
        (λ c. Holds-Grows e (extended d e) c (extended-Holds max_gap max_block d e past j)) ds
        m.grows,
    m.holds,
  );
  within = m.within;
  fewer = omega (arith, m.fewer);
  all_keys = m.all_keys ∙ append_assoc d.keys (e.param.key ∷ []) (keys_of es);
}

Merged-apart :
    (max_block : ℕ) (d : BlockDraft) (e : PlanEntry) (es : List PlanEntry) (ds : List BlockDraft)
    → Within max_block d
    → Merged max_block (draft_of e) es ds
    → Merged max_block d (e ∷ es) (d ∷ ds)
Merged-apart max_block d e es ds w m = record {
  grows = inl (refl, refl, omega arith, λ k h. h);
  holds = (
    inr (
        Any-map (Grows (draft_of e)) (Holds e)
          (λ c. Holds-Grows e (draft_of e) c (draft_of-Holds e)) ds m.grows),
    All-map (λ x. Any (Holds x) ds) (λ x. Any (Holds x) (d ∷ ds)) (λ x h. inr h) es m.holds,
  );
  within = (w, m.within);
  fewer = omega (arith, m.fewer);
  all_keys = ap (λ ks. d.keys ++ ks) m.all_keys;
}

merge_after-Merged :
    (max_gap max_block : ℕ) (d : BlockDraft) (es : List PlanEntry)
    → Within max_block d
    → All (NotPast d.register_type d.start) es
    → Sorted es
    → All IsEntry es
    → OnBuilt (Merged max_block d es) (merge_after max_gap max_block d es)
unfolding merge_after
merge_after-Merged max_gap max_block d [] w past sorted ok = record {
  grows = inl (refl, refl, omega arith, λ k h. h);
  holds = tt;
  within = (w, tt);
  fewer = omega arith;
  all_keys = refl;
}
merge_after-Merged max_gap max_block d (e ∷ es) w past sorted ok =
    elim (Bool-cases (ltb max_block e.words)) [
      | inl long ↦ rw long tt
      | inr fits ↦ elim (Bool-cases (joins max_gap max_block d e)) [
        | inl j ↦
            rw (fits, j)
              (together j (merge_after max_gap max_block (extended d e) es) (
                merge_after-Merged max_gap max_block (extended d e) es
                  (extended-Within max_gap max_block d e j w.0) past.1 sorted.1 ok.1))
        | inr j ↦
            rw (fits, j)
              (apart (merge_after max_gap max_block (draft_of e) es) (
                merge_after-Merged max_gap max_block (draft_of e) es
                  (draft_of-Within max_block e ok.0 fits) sorted.0 sorted.1 ok.1))
      ]
    ]
  where
    apart :
        (r : Built (List BlockDraft))
        → OnBuilt (Merged max_block (draft_of e) es) r
        → OnBuilt (Merged max_block d (e ∷ es)) (r >>= λ ds. built (d ∷ ds))
    apart (built ds) m = Merged-apart max_block d e es ds w m
    apart (thrown x) m = tt

    together :
        joins max_gap max_block d e ≡ true
        → (r : Built (List BlockDraft)) → OnBuilt (Merged max_block (extended d e) es) r
        → OnBuilt (Merged max_block d (e ∷ es)) r
    together j (built ds) m = Merged-joined max_gap max_block d e es ds past.0 j m
    together j (thrown x) m = tt

-- What `mergeEntries` promises of the drafts it makes of a sorted list of entries.
pub record MergeSpec (max_block : ℕ) (es : List PlanEntry) (ds : List BlockDraft) : Type 0 where
  pub holds : All (λ e. Any (Holds e) ds) es
  pub within : All (Within max_block) ds
  pub fewer : length ds ≤ length es
  pub all_keys : draft_keys ds ≡ keys_of es

pub merge_drafts-MergeSpec :
    (max_gap max_block : ℕ) (es : List PlanEntry)
    → Sorted es
    → All IsEntry es
    → OnBuilt (MergeSpec max_block es) (merge_drafts max_gap max_block es)
unfolding merge_drafts
merge_drafts-MergeSpec max_gap max_block [] sorted ok = record {
  holds = tt;
  within = tt;
  fewer = omega arith;
  all_keys = refl;
}
merge_drafts-MergeSpec max_gap max_block (e ∷ es) sorted ok =
    elim (Bool-cases (ltb max_block e.words)) [
      | inl long ↦ rw long tt
      | inr fits ↦ rw fits (
          first fits (merge_after max_gap max_block (draft_of e) es) (
            merge_after-Merged max_gap max_block (draft_of e) es
              (draft_of-Within max_block e ok.0 fits) sorted.0 sorted.1 ok.1))
    ]
  where
    first :
        ltb max_block e.words ≡ false
        → (r : Built (List BlockDraft)) → OnBuilt (Merged max_block (draft_of e) es) r
        → OnBuilt (MergeSpec max_block (e ∷ es)) r
    first fits (built ds) m = record {
      holds = (
        Any-map (Grows (draft_of e)) (Holds e)
            (λ c. Holds-Grows e (draft_of e) c (draft_of-Holds e)) ds m.grows,
        m.holds,
      );
      within = m.within;
      fewer = m.fewer;
      all_keys = m.all_keys;
    }
    first fits (thrown x) m = tt
