-- ===== src/Polling/Device.antt =====
-- services/edge-collector/src/polling/device-poll.ts: the requests of one poll of a device. The port
-- is an answer to each request, by its number, with the times around it.
use fieldstream.Common.{ℕ, ◌+◌, ◌-◌, Bool, true, false, Option, none, some, List, [], ◌∷◌, ◌++◌}
use fieldstream.Contracts.{RegisterType}
use fieldstream.ReadPlan.{PlanBlock}
use fieldstream.Polling.{ErrorKind, Failure, classify_error, is_timeout}

pub record RawBlock : Type 0 where
  pub register_type : RegisterType
  pub start_address : ℕ
  pub words : List ℕ

pub data Reply : Type 0 where
  words_read : List ℕ → Reply
  failed : Failure → Reply

-- An answer with the clock before the request and after it.
pub record Answer : Type 0 where
  pub started : ℕ
  pub ended : ℕ
  pub reply : Reply

pub record DevicePoll : Type 0 where
  pub ok : Bool
  pub blocks : List RawBlock
  pub error_kind : Option ErrorKind
  pub request_count : ℕ
  pub duration_ms : ℕ
  pub request_durations_ms : List ℕ
  pub timed_out : Bool

abbrev pub raw_block : PlanBlock → List ℕ → RawBlock
raw_block block words = record {
  register_type = block.register_type;
  start_address = block.start_address;
  words = words;
}

module _ (answer : ℕ → Answer) (started_at ended_at : ℕ) where
  -- The loop over the blocks, with what it has gathered. `ended_at` is the clock at the return.
  unfoldable pub poll_blocks : List PlanBlock → List RawBlock → List ℕ → ℕ → DevicePoll
  unfolding classify_error
  poll_blocks [] blocks durations count = record {
    ok = true;
    blocks = blocks;
    error_kind = none;
    request_count = count;
    duration_ms = ended_at - started_at;
    request_durations_ms = durations;
    timed_out = false;
  }
  poll_blocks (b ∷ bs) blocks durations count = elim ((answer count).reply) [
    | words_read words ↦
        poll_blocks bs (blocks ++ raw_block b words ∷ [])
          (durations ++ ((answer count).ended - (answer count).started) ∷ []) (count + 1)
    | failed error ↦ record {
      ok = false;
      blocks = blocks;
      error_kind = some (classify_error error);
      request_count = count + 1;
      duration_ms = ended_at - started_at;
      request_durations_ms = durations;
      timed_out = is_timeout (classify_error error);
    }
  ]

  unfoldable pub poll_device : List PlanBlock → DevicePoll
  unfolding poll_blocks
  poll_device plan = poll_blocks plan [] [] 0
