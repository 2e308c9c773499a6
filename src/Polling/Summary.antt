-- ===== src/Polling/Summary.antt =====
-- The summary of services/edge-collector/src/polling/latency.ts, against the schema of a latency window.
use fieldstream.Common.{
  ℕ, suc, ◌+◌, ◌*◌, ◌≤◌, ◌≡◌, refl, Option, none, some, List, [], ◌∷◌, arith, ltb, leb, length,
  sum_by, Bool-cases, inl, inr, sort_by, sort_by-sum, length_by-sum, ◌∙◌, sym,
}
use fieldstream.Polling.Latency.{
  RequestOutcome, answered, unanswered, latency_buckets_ms, count_in, zeros, counts_of,
  durations_of, timeouts_of, suggest_timeout_ms, nearest_rank, summarize_latency,
}

abbrev pub total : List ℕ → ℕ
total = sum_by (λ n. n)

length-count_in :
    (bounds : List ℕ) (d : ℕ) (counts : List ℕ) → length (count_in bounds d counts) ≡ length counts
unfolding count_in
length-count_in bounds d [] = refl
length-count_in [] d (c ∷ cs) = refl
length-count_in (b ∷ bs) d (c ∷ cs) = ground (arith, length-count_in bs d cs)

total-count_in :
    (bounds : List ℕ) (d : ℕ) (counts : List ℕ)
    → suc (length bounds) ≤ length counts
    → total (count_in bounds d counts) ≡ total counts + 1
unfolding count_in
total-count_in bounds d [] room = absurd (omega (arith, room))
total-count_in [] d (c ∷ cs) room = omega arith
total-count_in (b ∷ bs) d (c ∷ cs) room =
    ground (arith, total-count_in bs d cs (omega (arith, room)))

length-counts_of :
    (outcomes : List RequestOutcome) (counts : List ℕ)
    → length (counts_of outcomes counts) ≡ length counts
unfolding counts_of
length-counts_of [] counts = refl
length-counts_of (answered d ∷ rest) counts =
    length-counts_of rest (count_in latency_buckets_ms d counts)
    ∙ length-count_in latency_buckets_ms d counts
length-counts_of (unanswered ∷ rest) counts = length-counts_of rest counts

total-counts_of :
    (outcomes : List RequestOutcome) (counts : List ℕ)
    → suc (length latency_buckets_ms) ≤ length counts
    → total (counts_of outcomes counts) ≡ total counts + length (durations_of outcomes)
unfolding counts_of
total-counts_of [] counts room = omega arith
total-counts_of (answered d ∷ rest) counts room = omega (
  arith,
  total-count_in latency_buckets_ms d counts room,
  total-counts_of rest (count_in latency_buckets_ms d counts)
      (omega (arith, room, length-count_in latency_buckets_ms d counts)),
)
total-counts_of (unanswered ∷ rest) counts room = total-counts_of rest counts room

length-durations_of :
    (outcomes : List RequestOutcome)
    → length (durations_of outcomes) + timeouts_of outcomes ≡ length outcomes
length-durations_of [] = omega arith
length-durations_of (answered d ∷ rest) = omega (arith, length-durations_of rest)
length-durations_of (unanswered ∷ rest) = omega (arith, length-durations_of rest)

-- What a hint says of a 99th percentile.
abbrev pub Hint : Option ℕ → Option ℕ → ℕ → Type 0
Hint none p99 samples = Unit
Hint (some ms) none samples = ⊥
Hint (some ms) (some p99) samples = (500 ≤ ms) × (p99 * 5 ≤ ms) × (100 ≤ samples)

suggest_timeout_ms-Hint :
    (p99 : Option ℕ) (samples : ℕ) → Hint (suggest_timeout_ms p99 samples) p99 samples
unfolding suggest_timeout_ms
suggest_timeout_ms-Hint none samples = tt
suggest_timeout_ms-Hint (some p99) samples = elim (Bool-cases (ltb samples 100)) [
  | inl few ↦ rw few tt
  | inr many ↦ rw many (omega arith, omega arith, ground (arith, many))
]

-- A summary has one count more than bounds, as the schema of the message asks. Its counts add up to
-- its samples, and samples and timeouts together are the outcomes; a timeout is hinted only from
-- 100 samples on, and is then at least half a second and at least five times the 99th percentile.
pub summarize_latency_lem :
    (outcomes : List RequestOutcome)
    → let w = summarize_latency outcomes in
      (length w.counts ≡ length w.buckets_ms + 1)
      × (total w.counts ≡ w.samples)
      × (w.samples + w.timeouts ≡ length outcomes)
      × Hint w.suggested_timeout_ms w.p99_ms w.samples
unfolding summarize_latency
summarize_latency_lem outcomes = (
  omega (arith, length-counts_of outcomes (zeros latency_buckets_ms)),
  omega (arith, total-counts_of outcomes (zeros latency_buckets_ms) (omega arith), sorted_length),
  omega (arith, length-durations_of outcomes, sorted_length),
  suggest_timeout_ms-Hint (nearest_rank sorted 99) (length sorted),
)
  where
    sorted : List ℕ
    sorted = sort_by leb (durations_of outcomes)

    sorted_length : length sorted ≡ length (durations_of outcomes)
    sorted_length =
        length_by-sum leb sorted
        ∙ sort_by-sum leb (λ _. 1) (durations_of outcomes)
        ∙ sym (length_by-sum leb (durations_of outcomes))
