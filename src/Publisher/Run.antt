-- ===== src/Publisher/Run.antt =====
-- Histories of the buffer of services/edge-collector/src/publish/bounded-publisher.ts.
use fieldstream.Common.{ℕ, List, [], ◌∷◌, ◌++◌}
use fieldstream.Publisher.{
  Options, Pending, Publisher, Phase, sending, sleeping, ended, enqueue, send_resolved,
  send_rejected, woken, settle, close,
}

-- What can happen between two steps of the pump.
pub data Event (M : Type 0) : Type 0 where
  puts : M → ℕ → Event M
  resolves rejects wakes settles closes : Event M

-- The buffer, with what was delivered and all that was ever put in, oldest first.
pub record History (M : Type 0) : Type 0 where
  pub now : Publisher M
  pub delivered : List (Pending M)
  pub put_in : List (Pending M)

module _ {M : Type 0} (o : Options) where
  -- An event of the pump happens only where the pump waits for it.
  unfoldable pub pump_step : Phase → Event M → History M → History M
  pump_step sending resolves h = record h {
    now = send_resolved o h.now;
    delivered = h.delivered ++ h.now.in_flight;
  }
  pump_step sending rejects h = record h { now = send_rejected o h.now }
  pump_step sleeping wakes h = record h { now = woken o h.now }
  pump_step ended settles h = record h { now = settle o h.now }
  pump_step _ _ h = h

  unfoldable pub step : Event M → History M → History M
  unfolding pump_step
  step (puts m at) h = record h {
    now = enqueue o h.now m at;
    put_in = h.put_in ++ record { message = m; at = at } ∷ [];
  }
  step closes h = record h { now = close h.now }
  step e h = pump_step h.now.phase e h

  unfoldable pub run : List (Event M) → History M → History M
  run [] h = h
  run (e ∷ es) h = run es (step e h)
