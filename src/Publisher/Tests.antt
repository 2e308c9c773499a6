-- ===== src/Publisher/Tests.antt =====
-- Runs of the buffer of services/edge-collector/src/publish/bounded-publisher.ts.
use fieldstream.Common.{ℕ, ◌≡◌, refl, List, [], ◌∷◌}
use fieldstream.Publisher.{Options, Pending, enqueue, send_rejected, woken, send_resolved}
use fieldstream.Publisher.Run.{
  Event, puts, resolves, rejects, wakes, settles, History, run, step, pump_step,
}
use fieldstream.Publisher.Bounds.{fresh}
use fieldstream.Publisher.Order.{InOrder, run-InOrder}

abbrev two_by_one : Options
two_by_one = record { capacity = 2; batch_size = 1 }

-- A failure with a full queue drops the oldest message, which comes back to the front.
abbrev failing : List (Event ℕ)
failing = puts 7 0 ∷ puts 8 1 ∷ puts 9 2 ∷ rejects ∷ wakes ∷ resolves ∷ resolves ∷ settles ∷ []

run-InOrder_example : InOrder (run two_by_one failing fresh) (run two_by_one failing fresh).now
run-InOrder_example = run-InOrder two_by_one failing

abbrev sent : History ℕ → List (Pending ℕ)
sent h = h.delivered

failing-delivers :
    sent (run two_by_one failing fresh)
    ≡ record { message = 8; at = 1 } ∷ record { message = 9; at = 2 } ∷ []
unfolding run step pump_step enqueue send_rejected woken send_resolved
failing-delivers = refl
