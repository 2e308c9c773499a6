-- ===== src/Polling/Latency.antt =====
-- services/edge-collector/src/polling/latency.ts: the ring of the last outcomes of requests, and its
-- summary. Durations are whole milliseconds already, so rounding changes nothing; the products of
-- floats under `Math.ceil` are exact up to the ring's 2,000 outcomes, so they are whole-number
-- quotients rounded up here.
use fieldstream.Common.{
  ℕ, zero, suc, ◌+◌, ◌-◌, ◌*◌, ◌/◌, ◌%◌, max, Option, none, some, List, [], ◌∷◌, ◌++◌, ltb, leb,
  if◌then◌else◌, length, get_elem?, sort_by,
}

pub data RequestOutcome : Type 0 where
  answered : ℕ → RequestOutcome
  unanswered : RequestOutcome

pub record LatencyWindow : Type 0 where
  pub buckets_ms : List ℕ
  pub counts : List ℕ
  pub samples : ℕ
  pub timeouts : ℕ
  pub p50_ms : Option ℕ
  pub p95_ms : Option ℕ
  pub p99_ms : Option ℕ
  pub suggested_timeout_ms : Option ℕ

abbrev pub latency_buckets_ms : List ℕ
latency_buckets_ms = 25 ∷ 50 ∷ 75 ∷ 100 ∷ 150 ∷ 200 ∷ 300 ∷ 400 ∷ 600 ∷ 800 ∷ 1200 ∷ []

abbrev pub latency_window_size : ℕ
latency_window_size = 2000

abbrev pub min_samples_for_timeout_hint : ℕ
min_samples_for_timeout_hint = 100

abbrev pub ceil_div : ℕ → ℕ → ℕ
ceil_div a b = (a + b - 1) / b

unfoldable pub nearest_rank : List ℕ → ℕ → Option ℕ
nearest_rank [] percentile = none
nearest_rank (x ∷ xs) percentile =
    get_elem? (x ∷ xs) (max 1 (ceil_div (percentile * length (x ∷ xs)) 100) - 1)

unfoldable pub suggest_timeout_ms : Option ℕ → ℕ → Option ℕ
suggest_timeout_ms none samples = none
suggest_timeout_ms (some p99) samples =
    if ltb samples min_samples_for_timeout_hint
    then none
    else some (max 500 (ceil_div (p99 * 5) 100 * 100))

-- `counts[index] += 1` at the first bound not below the duration, and at the end where there is none.
unfoldable pub count_in : List ℕ → ℕ → List ℕ → List ℕ
count_in bounds duration [] = []
count_in [] duration (c ∷ cs) = (c + 1) ∷ cs
count_in (b ∷ bs) duration (c ∷ cs) =
    if leb duration b then (c + 1) ∷ cs else c ∷ count_in bs duration cs

abbrev pub zeros : List ℕ → List ℕ
zeros [] = 0 ∷ []
zeros (b ∷ bs) = 0 ∷ zeros bs

-- The loop over the outcomes: the counts, and the durations and timeouts seen.
unfoldable pub counts_of : List RequestOutcome → List ℕ → List ℕ
unfolding count_in
counts_of [] counts = counts
counts_of (answered duration ∷ rest) counts =
    counts_of rest (count_in latency_buckets_ms duration counts)
counts_of (unanswered ∷ rest) counts = counts_of rest counts

abbrev pub durations_of : List RequestOutcome → List ℕ
durations_of [] = []
durations_of (answered duration ∷ rest) = duration ∷ durations_of rest
durations_of (unanswered ∷ rest) = durations_of rest

abbrev pub timeouts_of : List RequestOutcome → ℕ
timeouts_of [] = 0
timeouts_of (answered duration ∷ rest) = timeouts_of rest
timeouts_of (unanswered ∷ rest) = timeouts_of rest + 1

unfoldable pub summarize_latency : List RequestOutcome → LatencyWindow
unfolding nearest_rank suggest_timeout_ms counts_of
summarize_latency outcomes =
    let sorted = sort_by leb (durations_of outcomes) in
    record {
      buckets_ms = latency_buckets_ms;
      counts = counts_of outcomes (zeros latency_buckets_ms);
      samples = length sorted;
      timeouts = timeouts_of outcomes;
      p50_ms = nearest_rank sorted 50;
      p95_ms = nearest_rank sorted 95;
      p99_ms = nearest_rank sorted 99;
      suggested_timeout_ms = suggest_timeout_ms (nearest_rank sorted 99) (length sorted);
    }

-- `createLatencyTracker`
pub record LatencyTracker : Type 0 where
  pub outcomes : List RequestOutcome
  pub next : ℕ

abbrev pub new_tracker : LatencyTracker
new_tracker = record { outcomes = []; next = 0 }

-- `outcomes[i] = v` within the array.
abbrev pub set_at : {A : Type 0} → List A → ℕ → A → List A
set_at [] i v = []
set_at (x ∷ xs) zero v = v ∷ xs
set_at (x ∷ xs) (suc i) v = x ∷ set_at xs i v

unfoldable pub record_outcome : ℕ → LatencyTracker → RequestOutcome → LatencyTracker
record_outcome capacity t outcome =
    if ltb (length t.outcomes) capacity
    then record t { outcomes = t.outcomes ++ outcome ∷ [] }
    else record { outcomes = set_at t.outcomes t.next outcome; next = (t.next + 1) % capacity }
