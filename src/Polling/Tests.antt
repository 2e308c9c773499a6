-- ===== src/Polling/Tests.antt =====
-- A ring with room for two outcomes, and a poll of two blocks whose second request times out.
use fieldstream.Common.{ℕ, zero, suc, ◌+◌, ◌≡◌, List, [], ◌∷◌, arith, length, true, false}
use fieldstream.Contracts.{holding}
use fieldstream.ReadPlan.{PlanBlock, merged_id, from_merged}
use fieldstream.Polling.{thrown}
use fieldstream.Polling.Latency.{
  RequestOutcome, answered, unanswered, new_tracker, summarize_latency,
}
use fieldstream.Polling.Summary.{total, Hint, summarize_latency_lem}
use fieldstream.Polling.Window.{oldest_first, record_all, record_all-newest}
use fieldstream.Polling.Device.{Answer, words_read, failed, poll_device}
use fieldstream.Polling.Answers.{Answered, Stopped, poll_device_answers}

abbrev outcomes : List RequestOutcome
outcomes = answered 40 ∷ unanswered ∷ answered 55 ∷ []

record_all-newest_example :
    oldest_first (record_all 2 new_tracker outcomes) ≡ unanswered ∷ answered 55 ∷ []
record_all-newest_example = record_all-newest 2 outcomes (omega arith)

abbrev block : ℕ → PlanBlock
block start = record {
  id = merged_id holding start;
  register_type = holding;
  start_address = start;
  register_count = 1;
  param_keys = "a" ∷ [];
  source = from_merged;
}

abbrev two_blocks : List PlanBlock
two_blocks = block 10 ∷ block 20 ∷ []

abbrev answer : ℕ → Answer
answer zero = record { started = 100; ended = 130; reply = words_read (7 ∷ []) }
answer (suc k) = record {
  started = 130;
  ended = 430;
  reply = failed (thrown false true false false);
}

poll_device_answers_example :
    let r = poll_device answer 100 430 two_blocks in
    Answered answer 0 two_blocks r.blocks
    × Stopped answer two_blocks r.blocks 0 r
    × (length r.request_durations_ms ≡ length r.blocks)
poll_device_answers_example = poll_device_answers answer 100 430 two_blocks

summarize_latency_lem_example :
    let w = summarize_latency outcomes in
    (length w.counts ≡ length w.buckets_ms + 1)
    × (total w.counts ≡ w.samples)
    × (w.samples + w.timeouts ≡ length outcomes)
    × Hint w.suggested_timeout_ms w.p99_ms w.samples
summarize_latency_lem_example = summarize_latency_lem outcomes
