-- ===== src/Polling/Answers.antt =====
-- What one poll of services/edge-collector/src/polling/device-poll.ts tells of the answers to it.
use mathlib.Core.List.{append_assoc, append-nil}
use fieldstream.Common.{
  ℕ, suc, ◌+◌, ◌-◌, ◌≤◌, ◌≡◌, refl, sym, ap, ◌∙◌, ◌⊎◌, inl, inr, true, false, none, some, List, [],
  ◌∷◌, ◌++◌, arith, length, length-append,
}
use fieldstream.ReadPlan.{PlanBlock}
use fieldstream.Polling.{Failure, classify_error}
use fieldstream.Polling.Device.{
  RawBlock, Reply, words_read, failed, Answer, DevicePoll, raw_block, poll_blocks, poll_device,
}

module _ (answer : ℕ → Answer) where
  -- The blocks are those of the plan in its order, with the words of the answers from the `k`-th on.
  abbrev pub Answered : ℕ → List PlanBlock → List RawBlock → Type 0
  Answered k bs [] = Unit
  Answered k [] (r ∷ rs) = ⊥
  Answered k (b ∷ bs) (r ∷ rs) =
      ((answer k).reply ≡ words_read r.words) × (r ≡ raw_block b r.words) × Answered (k + 1) bs rs

  -- Where the poll stopped: after the whole plan, or at the first request that failed.
  abbrev pub Stopped : List PlanBlock → List RawBlock → ℕ → DevicePoll → Type 0
  Stopped bs read first r =
      ((r.ok ≡ true)
        × (r.error_kind ≡ none)
        × (length read ≡ length bs)
        × (r.request_count ≡ first + length read))
      ⊎ ((e : Failure) × (r.ok ≡ false)
          × (r.error_kind ≡ some (classify_error e))
          × ((answer (first + length read)).reply ≡ failed e)
          × (suc (length read) ≤ length bs)
          × (r.request_count ≡ first + length read + 1))

  record Polled (bs : List PlanBlock) (acc : List RawBlock) (durations : List ℕ) (k : ℕ)
      (r : DevicePoll) : Type 0 where
    read : List RawBlock
    blocks_are : r.blocks ≡ acc ++ read
    in_order : Answered k bs read
    stopped : Stopped bs read k r
    measured : length r.request_durations_ms ≡ length durations + length read

  later_stop :
      (b : PlanBlock) (bs : List PlanBlock) (x : RawBlock) (read : List RawBlock) (k : ℕ)
      (r : DevicePoll)
      → Stopped bs read (k + 1) r
      → Stopped (b ∷ bs) (x ∷ read) k r
  later_stop b bs x read k r (inl (ok, none_failed, whole, counted)) =
      inl (ok, none_failed, omega (arith, whole), omega (arith, counted))
  later_stop b bs x read k r (inr (e, not_ok, kind, at, short, counted)) = inr (
    e,
    not_ok,
    kind,
    ap (λ i. (answer i).reply) {x = k + suc (length read)} {y = k + 1 + length read} (omega arith)
        ∙ at,
    omega (arith, short),
    omega (arith, counted),
  )

  further :
      (b : PlanBlock) (bs : List PlanBlock) (acc : List RawBlock) (durations : List ℕ) (k : ℕ)
      (words : List ℕ)
      → (answer k).reply ≡ words_read words
      → (r : DevicePoll)
      → Polled bs
          (acc ++ raw_block b words ∷ [])
          (durations ++ ((answer k).ended - (answer k).started) ∷ [])
          (k + 1)
          r
      → Polled (b ∷ bs) acc durations k r
  further b bs acc durations k words e r p = record {
    read = raw_block b words ∷ p.read;
    blocks_are = p.blocks_are ∙ append_assoc acc (raw_block b words ∷ []) p.read;
    in_order = (e, refl, p.in_order);
    stopped = later_stop b bs (raw_block b words) p.read k r p.stopped;
    measured =
        omega (
          arith,
          p.measured,
          length-append durations (((answer k).ended - (answer k).started) ∷ []),
        );
  }

  module _ (started_at ended_at : ℕ) where
    poll_blocks-Polled :
        (bs : List PlanBlock) (acc : List RawBlock) (durations : List ℕ) (k : ℕ)
        → Polled bs acc durations k (poll_blocks answer started_at ended_at bs acc durations k)
    unfolding poll_blocks
    poll_blocks-Polled [] acc durations k = record {
      read = [];
      blocks_are = sym (append-nil acc);
      in_order = tt;
      stopped = inl (refl, refl, refl, omega arith);
      measured = omega arith;
    }
    poll_blocks-Polled (b ∷ bs) acc durations k =
        by_reply (answer k).reply refl
          (λ acc' durations'. poll_blocks-Polled bs acc' durations' (k + 1))
      where
        by_reply :
            (reply : Reply)
            → (answer k).reply ≡ reply
            → ((acc' : List RawBlock) (durations' : List ℕ)
                → Polled bs acc' durations'
                    (k + 1)
                    (poll_blocks answer started_at ended_at bs acc' durations' (k + 1)))
            → Polled
                (b ∷ bs)
                acc
                durations
                k
                (poll_blocks answer started_at ended_at (b ∷ bs) acc durations k)
        by_reply (words_read words) e rest =
            rw (e, poll_blocks)
              (further b bs acc durations k words e _ (
                rest (acc ++ raw_block b words ∷ [])
                  (durations ++ ((answer k).ended - (answer k).started) ∷ [])))
        by_reply (failed error) e rest =
            rw (e, poll_blocks)
              (record {
                read = [];
                blocks_are = sym (append-nil acc);
                in_order = tt;
                stopped = inr (
                  error,
                  refl,
                  refl,
                  ap (λ i. (answer i).reply) {x = k + 0} {y = k} (omega arith) ∙ e,
                  omega arith,
                  omega arith,
                );
                measured = omega arith;
              })

-- A poll reads the blocks of the plan in their order, each from the answer to its own request, and
-- stops at the first request that fails, whose kind of error it gives; where none fails it has read
-- the whole plan. It makes one request for each block read and one for the failure, and measures one
-- duration for each block read.
pub poll_device_answers :
    (answer : ℕ → Answer) (started_at ended_at : ℕ) (plan : List PlanBlock)
    → let r = poll_device answer started_at ended_at plan in
      Answered answer 0 plan r.blocks
      × Stopped answer plan r.blocks 0 r
      × (length r.request_durations_ms ≡ length r.blocks)
unfolding poll_device
poll_device_answers answer started_at ended_at plan =
    let p = poll_blocks-Polled answer started_at ended_at plan [] [] 0 in
    rw p.blocks_are (p.in_order, p.stopped, omega (arith, p.measured))
