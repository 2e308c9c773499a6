-- ===== src/ReadPlan/Declared.antt =====
-- Declared blocks and the automatic rest (`declaredBlocks` of
-- packages/device-profiles/src/frames/read-plan.ts).
use Prim.Native.String.{String}
use text.Mathlib.Text.{◌==◌ as str_eq}
use text.Mathlib.TextEquality.{eq_iff}
use fieldstream.Common.{
  ℕ, ◌+◌, ◌≤◌, ◌≡◌, refl, sym, ap, ◌∙◌, ◌⊎◌, inl, inr, Bool, true, false, not, ◌&&◌, ◌||◌, List, [],
  ◌∷◌, ◌++◌, arith, ltb, Bool-cases, All, Any, All-append, All-map, Any-append_left,
  Any-append_right, keep, All-zip,
}
use fieldstream.Common.Keys.{contains, contains-append, Distinct}
use fieldstream.ReadPlan.{
  PlanEntry, PlanBlock, BlockDraft, ReadBlock, Built, built, thrown, ◌>>=◌, merged_blocks,
  merge_entries, merge_drafts, keys_of, entry_fits_block, taken_by, with_block, declared_loop,
  declared_blocks, naive_blocks, naive_block,
}
use fieldstream.ReadPlan.Order.{Precedes, Sorted, IsEntry}
use fieldstream.ReadPlan.Merge.{OnBuilt, Holds, Within, MergeSpec, merge_drafts-MergeSpec}

-- One request reads the entry whole, and names its key.
abbrev pub Covers : PlanEntry → PlanBlock → Type 0
Covers e b =
    (b.register_type ≡ e.register_type)
    × (b.start_address ≤ e.start)
    × (e.end + 1 ≤ b.start_address + b.register_count)
    × (contains e.param.key b.param_keys ≡ true)

abbrev pub Fits : ℕ → PlanBlock → Type 0
Fits limit b = b.register_count ≤ limit

abbrev pub Sound : ℕ → List PlanEntry → List PlanBlock → Type 0
Sound limit es bs = All (λ e. Any (Covers e) bs) es × All (Fits limit) bs

-- An entry is the only one with its key.
abbrev pub AloneIn : List PlanEntry → PlanEntry → Type 0
AloneIn es e = All (λ x. e.param.key ≡ x.param.key → e ≡ x) es

abbrev pub UniqueKeys : List PlanEntry → Type 0
UniqueKeys es = All (AloneIn es) es

absent_ne :
    (k : String) (es : List PlanEntry)
    → contains k (keys_of es) ≡ false
    → All (λ x. k ≡ x.param.key → ⊥) es
absent_ne k [] h = tt
absent_ne k (x ∷ xs) h =
    ((λ e. ground (arith, (eq_iff x.param.key k).1 (sym e))), absent_ne k xs (ground arith))

pub Distinct-UniqueKeys : (es : List PlanEntry) → Distinct (keys_of es) → UniqueKeys es
Distinct-UniqueKeys [] h = tt
Distinct-UniqueKeys (e ∷ es) h =
    let other = absent_ne e.param.key es h.0 in
    (
      (
        (λ k. refl),
        All-map (λ x. e.param.key ≡ x.param.key → ⊥) (λ x. e.param.key ≡ x.param.key → e ≡ x)
            (λ x no' k. absurd (no' k)) es other,
      ),
      All-zip (λ x. e.param.key ≡ x.param.key → ⊥) (AloneIn es) (AloneIn (e ∷ es))
          (λ x no' alone. ((λ k. absurd (no' (sym k))), alone)) es other
          (Distinct-UniqueKeys es h.1),
    )

merged_block-Covers :
    (limit : ℕ) (e : PlanEntry) (ds : List BlockDraft)
    → All (Within limit) ds
    → Any (Holds e) ds
    → Any (Covers e) (merged_blocks ds)
merged_block-Covers limit e [] w h = elim h [ ]
merged_block-Covers limit e (d ∷ ds) w (inl h) = inl (h.0, h.1, omega (arith, w.0.0, h.2), h.3)
merged_block-Covers limit e (d ∷ ds) w (inr h) = inr (merged_block-Covers limit e ds w.1 h)

merged_block-Fits :
    (limit : ℕ) (ds : List BlockDraft) → All (Within limit) ds → All (Fits limit) (merged_blocks ds)
merged_block-Fits limit [] w = tt
merged_block-Fits limit (d ∷ ds) w = (omega (arith, w.0), merged_block-Fits limit ds w.1)

pub merge_entries-Sound :
    (max_gap limit : ℕ) (es : List PlanEntry)
    → Sorted es
    → All IsEntry es
    → OnBuilt (Sound limit es) (merge_entries max_gap limit es)
unfolding merge_entries
merge_entries-Sound max_gap limit es sorted ok =
    from (merge_drafts max_gap limit es) (merge_drafts-MergeSpec max_gap limit es sorted ok)
  where
    from :
        (r : Built (List BlockDraft))
        → OnBuilt (MergeSpec limit es) r
        → OnBuilt (Sound limit es) (r >>= λ ds. built (merged_blocks ds))
    from (built ds) m = (
      All-map (λ e. Any (Holds e) ds) (λ e. Any (Covers e) (merged_blocks ds))
          (λ e h. merged_block-Covers limit e ds m.within h) es m.holds,
      merged_block-Fits limit ds m.within,
    )
    from (thrown x) m = tt

pub naive_blocks-Sound :
    (limit : ℕ) (es : List PlanEntry)
    → All IsEntry es
    → OnBuilt (Sound limit es) (naive_blocks limit es)
unfolding naive_blocks
naive_blocks-Sound limit [] ok = (tt, tt)
naive_blocks-Sound limit (e ∷ es) ok = elim (Bool-cases (ltb limit e.words)) [
  | inl long ↦ rw long tt
  | inr fits ↦ rw fits (more fits (naive_blocks limit es) (naive_blocks-Sound limit es ok.1))
]
  where
    more :
        ltb limit e.words ≡ false
        → (r : Built (List PlanBlock)) → OnBuilt (Sound limit es) r
        → OnBuilt (Sound limit (e ∷ es)) (r >>= λ bs. built (naive_block e ∷ bs))
    more fits (built bs) m = (
      (
        inl (
          refl,
          omega arith,
          omega (arith, ok.0),
          ground (arith, eq_iff e.param.key e.param.key),
        ),
        All-map (λ x. Any (Covers x) bs) (λ x. Any (Covers x) (naive_block e ∷ bs)) (λ x h. inr h)
            es m.0,
      ),
      (ground arith, m.1),
    )
    more fits (thrown x) m = tt

found :
    (q : PlanEntry → Bool) (e : PlanEntry) (es : List PlanEntry)
    → AloneIn es e
    → contains e.param.key (keys_of (keep q es)) ≡ true
    → q e ≡ true
found q e [] alone h = cc
found q e (x ∷ xs) alone h = elim (Bool-cases (q x)) [
  | inl chosen ↦
      let later : contains e.param.key (keys_of (keep q xs)) ≡ true → q e ≡ true =
        found q e xs alone.1 in
      pick chosen later (rw chosen at h)
  | inr passed ↦ found q e xs alone.1 (rw passed at h)
]
  where
    pick :
        q x ≡ true
        → (contains e.param.key (keys_of (keep q xs)) ≡ true → q e ≡ true)
        → (str_eq x.param.key e.param.key || contains e.param.key (keys_of (keep q xs))) ≡ true
        → q e ≡ true
    pick chosen later h = elim (Bool-cases (str_eq x.param.key e.param.key)) [
      | inl same ↦ ap q (alone.0 (sym ((eq_iff x.param.key e.param.key).0 same))) ∙ chosen
      | inr other ↦ later (rw other at h)
    ]

with_block-Any :
    (e : PlanEntry) (b : ReadBlock) (ks : List String) (bs : List PlanBlock)
    → Any (Covers e) bs
    → Any (Covers e) (with_block b ks bs)
with_block-Any e b [] bs h = h
with_block-Any e b (k ∷ ks) bs h = inr h

with_block-head :
    (e : PlanEntry) (b : ReadBlock) (ks : List String) (bs : List PlanBlock)
    → entry_fits_block e b ≡ true
    → contains e.param.key ks ≡ true
    → Any (Covers e) (with_block b ks bs)
unfolding entry_fits_block
with_block-head e b [] bs fits h = cc
with_block-head e b (k ∷ ks) bs fits h = inl (ground arith, ground arith, ground arith, h)

with_block-Fits :
    (limit : ℕ) (b : ReadBlock) (ks : List String) (bs : List PlanBlock)
    → b.register_count ≤ limit
    → All (Fits limit) bs
    → All (Fits limit) (with_block b ks bs)
with_block-Fits limit b [] bs h hs = hs
with_block-Fits limit b (k ∷ ks) bs h hs = (h, hs)

-- What the loop over the declared blocks keeps: an entry whose key is taken has a block that covers
-- it, unless the key was taken before the loop began.
abbrev LoopSpec : ℕ → List PlanEntry → List String → List PlanBlock × List String → Type 0
LoopSpec limit es taken r =
    All
      (λ e.
        contains e.param.key r.1 ≡ true → (contains e.param.key taken ≡ true) ⊎ Any (Covers e) r.0)
      es
    × All (Fits limit) r.0

declared_loop-LoopSpec :
    (limit : ℕ) (es : List PlanEntry) (taken : List String) (bs : List ReadBlock)
    → UniqueKeys es
    → OnBuilt (LoopSpec limit es taken) (declared_loop limit es taken bs)
unfolding declared_loop
declared_loop-LoopSpec limit es taken [] unique = (
  All-map (AloneIn es)
      (λ e. contains e.param.key taken ≡ true → (contains e.param.key taken ≡ true) ⊎ ⊥)
      (λ e alone h. inl h) es unique,
  tt,
)
declared_loop-LoopSpec limit es taken (b ∷ bs) unique =
    elim (Bool-cases (ltb limit b.register_count)) [
      | inl long ↦ rw long tt
      | inr fits ↦ rw fits (
          one fits (declared_loop limit es (taken ++ keys_of (taken_by taken es b)) bs)
            (declared_loop-LoopSpec limit es (taken ++ keys_of (taken_by taken es b)) bs unique))
    ]
  where
    ks : List String
    ks = keys_of (taken_by taken es b)

    covered :
        (r : List PlanBlock × List String) (e : PlanEntry)
        → AloneIn es e
        → (contains e.param.key r.1 ≡ true
            → (contains e.param.key (taken ++ ks) ≡ true) ⊎ Any (Covers e) r.0)
        → contains e.param.key r.1 ≡ true
        → (contains e.param.key taken ≡ true) ⊎ Any (Covers e) (with_block b ks r.0)
    covered r e alone spec h = elim (spec h) [
      | inr later ↦ inr (with_block-Any e b ks r.0 later)
      | inl now ↦ elim (Bool-cases (contains e.param.key taken)) [
        | inl before ↦ inl before
        | inr fresh ↦
            let mine : contains e.param.key ks ≡ true =
              ground (arith, contains-append e.param.key taken ks, fresh, now) in
            let chosen =
              found (λ x. not (contains x.param.key taken) && entry_fits_block x b) e es alone
                mine in
            inr (with_block-head e b ks r.0 (ground (arith, chosen, fresh)) mine)
      ]
    ]

    one :
        ltb limit b.register_count ≡ false
        → (r : Built (List PlanBlock × List String)) → OnBuilt (LoopSpec limit es (taken ++ ks)) r
        → OnBuilt (LoopSpec limit es taken) (r >>= λ r. built (with_block b ks r.0, r.1))
    one fits (built r) m = (
      All-zip (AloneIn es)
          (λ e.
            contains e.param.key r.1 ≡ true
            → (contains e.param.key (taken ++ ks) ≡ true) ⊎ Any (Covers e) r.0)
          (λ e.
            contains e.param.key r.1 ≡ true
            → (contains e.param.key taken ≡ true) ⊎ Any (Covers e) (with_block b ks r.0))
          (covered r) es unique m.0,
      with_block-Fits limit b ks r.0 (ground arith) m.1,
    )
    one fits (thrown x) m = tt

pub keep-All :
    (P : PlanEntry → Type 0) (q : PlanEntry → Bool) (es : List PlanEntry)
    → All P es
    → All P (keep q es)
keep-All P q [] h = tt
keep-All P q (e ∷ es) h = ground (arith, keep-All P q es h.1)

keep-Sorted : (q : PlanEntry → Bool) (es : List PlanEntry) → Sorted es → Sorted (keep q es)
keep-Sorted q [] h = tt
keep-Sorted q (e ∷ es) h = ground (arith, keep-Sorted q es h.1, keep-All (Precedes e) q es h.0)

keep-All_inv :
    (P : PlanEntry → Type 0) (q : PlanEntry → Bool) (es : List PlanEntry)
    → All P (keep q es)
    → All (λ e. q e ≡ true → P e) es
keep-All_inv P q [] h = tt
keep-All_inv P q (e ∷ es) h = elim (Bool-cases (q e)) [
  | inl in' ↦
      let h' : P e × All P (keep q es) = (rw in' at h) in ((λ _. h'.0), keep-All_inv P q es h'.1)
  | inr out ↦ ((λ k. absurd (cc (out))), keep-All_inv P q es (rw out at h))
]

pub declared_blocks-Sound :
    (declared : List ReadBlock) (es : List PlanEntry) (max_gap limit : ℕ)
    → Sorted es
    → All IsEntry es
    → UniqueKeys es
    → OnBuilt (Sound limit es) (declared_blocks declared es max_gap limit)
unfolding declared_blocks
declared_blocks-Sound declared es max_gap limit sorted ok unique =
    outer (declared_loop limit es [] declared) (declared_loop-LoopSpec limit es [] declared unique)
  where
    rest : List String → List PlanEntry
    rest taken = keep (λ e. not (contains e.param.key taken)) es

    covered :
        (r : List PlanBlock × List String) (bs : List PlanBlock) (e : PlanEntry)
        → (contains e.param.key r.1 ≡ true → (contains e.param.key [] ≡ true) ⊎ Any (Covers e) r.0)
        → (not (contains e.param.key r.1) ≡ true → Any (Covers e) bs)
        → Any (Covers e) (r.0 ++ bs)
    covered r bs e kept automatic = elim (Bool-cases (contains e.param.key r.1)) [
      | inl taken ↦ elim (kept taken) [
        | inl none' ↦ absurd (cc none')
        | inr c ↦ Any-append_left (Covers e) r.0 bs c
      ]
      | inr free ↦ Any-append_right (Covers e) r.0 bs (automatic (rw free))
    ]

    inner :
        (r : List PlanBlock × List String) (m : Built (List PlanBlock))
        → LoopSpec limit es [] r
        → OnBuilt (Sound limit (rest r.1)) m
        → OnBuilt (Sound limit es) (m >>= λ bs. built (r.0 ++ bs))
    inner r (built bs) spec m = (
      All-zip
          (λ e.
            contains e.param.key r.1 ≡ true → (contains e.param.key [] ≡ true) ⊎ Any (Covers e) r.0)
          (λ e. not (contains e.param.key r.1) ≡ true → Any (Covers e) bs)
          (λ e. Any (Covers e) (r.0 ++ bs)) (covered r bs) es spec.0
          (keep-All_inv (λ e. Any (Covers e) bs) (λ e. not (contains e.param.key r.1)) es m.0),
      All-append (Fits limit) r.0 bs spec.1 m.1,
    )
    inner r (thrown x) spec m = tt

    outer :
        (r : Built (List PlanBlock × List String))
        → OnBuilt (LoopSpec limit es []) r
        → OnBuilt
            (Sound limit es)
            (r >>= λ kept. merge_entries max_gap limit (rest kept.1) >>= λ bs. built (kept.0 ++ bs))
    outer (built r) spec = inner r (merge_entries max_gap limit (rest r.1)) spec (
        merge_entries-Sound max_gap limit (rest r.1)
          (keep-Sorted (λ e. not (contains e.param.key r.1)) es sorted)
          (keep-All IsEntry (λ e. not (contains e.param.key r.1)) es ok))
    outer (thrown x) spec = tt
