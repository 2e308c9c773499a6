-- ===== src/Publisher.antt =====
-- services/edge-collector/src/publish/bounded-publisher.ts: the buffer between polling and the
-- broker. The asynchronous pump is a state machine: what it does between two waits is one step, and
-- the events are what the outside does while it waits. Sending is not modelled beyond its outcome.
pub mod Run
pub mod Bounds
pub mod Order
mod Tests
use fieldstream.Common.{
  ℕ, zero, suc, ◌+◌, ◌-◌, Bool, true, false, not, ◌&&◌, ◌||◌, Option, none, some, List, [], ◌∷◌,
  ◌++◌, ltb, leb, if◌then◌else◌, length, take, drop,
}

pub record Options : Type 0 where
  pub capacity : ℕ
  pub batch_size : ℕ

-- A buffered message with the time it was put in.
pub record Pending (M : Type 0) : Type 0 where
  pub message : M
  pub at : ℕ

-- Where the pump waits: nowhere, on `send`, on `sleep` after a failure, or at its end, before
-- `finally` has run.
pub data Phase : Type 0 where
  stopped sending sleeping ended : Phase

pub record Publisher (M : Type 0) : Type 0 where
  pub queue : List (Pending M)
  pub in_flight : List (Pending M)
  pub dropped : ℕ
  pub phase : Phase
  pub closed : Bool

abbrev pub created : {M : Type 0} → Publisher M
created = record { queue = []; in_flight = []; dropped = 0; phase = stopped; closed = false }

abbrev pub is_empty : {A : Type 0} → List A → Bool
is_empty [] = true
is_empty (x ∷ xs) = false

abbrev pub is_stopped : Phase → Bool
is_stopped stopped = true
is_stopped _ = false

module _ {M : Type 0} (o : Options) where
  unfoldable pub trim : Publisher M → Publisher M
  trim p =
      let excess = length p.queue - o.capacity in
      record p { queue = drop excess p.queue; dropped = p.dropped + excess }

  -- The head of the loop of `pump`: take a batch and send it, or end.
  pub pump_head : Publisher M → Publisher M
  pump_head p =
      if not (is_empty p.queue) && not p.closed
      then record p {
        queue = drop (length (take o.batch_size p.queue)) p.queue;
        in_flight = take o.batch_size p.queue;
        phase = sending;
      }
      else record p { phase = ended }

  unfoldable pub kick : Publisher M → Publisher M
  unfolding pump_head
  kick p = if not (is_stopped p.phase) || p.closed then p else pump_head p

  unfoldable pub enqueue : Publisher M → M → ℕ → Publisher M
  unfolding trim kick
  enqueue p message now =
      kick (trim (record p { queue = p.queue ++ record { message = message; at = now } ∷ [] }))

  -- `send` resolved: the batch is gone, and the loop goes on.
  unfoldable pub send_resolved : Publisher M → Publisher M
  unfolding pump_head
  send_resolved p = pump_head (record p { in_flight = [] })

  -- `send` rejected: the batch goes back to the front, and the pump sleeps.
  unfoldable pub send_rejected : Publisher M → Publisher M
  unfolding trim
  send_rejected p = record (trim (record p { queue = p.in_flight ++ p.queue; in_flight = [] })) {
    phase = sleeping;
  }

  -- `sleep` resolved.
  unfoldable pub woken : Publisher M → Publisher M
  unfolding pump_head
  woken p = pump_head p

  -- The callback of `finally`.
  unfoldable pub settle : Publisher M → Publisher M
  unfolding kick
  settle p = let q = record p { phase = stopped } in if is_empty q.queue then q else kick q

module _ {M : Type 0} where
  unfoldable pub close : Publisher M → Publisher M
  close p = record p { closed = true }

  pub oldest_age_ms : Publisher M → ℕ → ℕ
  oldest_age_ms p now = elim p.in_flight [
    | oldest ∷ _ ↦ now - oldest.at
    | [] ↦ elim p.queue [ oldest ∷ _ ↦ now - oldest.at | [] ↦ 0 ]
  ]
