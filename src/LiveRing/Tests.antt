-- ===== src/LiveRing/Tests.antt =====
-- Runs of the ring of services/api-gateway/src/events/live-ring.ts.
use fieldstream.Common.{ℕ, ◌≡◌, arith, List, [], ◌∷◌}
use fieldstream.LiveRing.{reading, alarm, seen, since, EventId}
use fieldstream.LiveRing.Missed.{Appended, promised, since-promised, after_all}

abbrev three_events : List (Appended ℕ ℕ)
three_events =
    record { kind = reading; keys = []; payload = 10 }
    ∷ record { kind = alarm; keys = []; payload = 11 }
    ∷ record { kind = reading; keys = []; payload = 12 }
    ∷ []

abbrev second : EventId
second = record { epoch = 77; seq = 2 }

since-promised_example :
    since (after_all 2 77 three_events).ring (seen second)
    ≡ promised 2 77 (after_all 2 77 three_events) second
since-promised_example = since-promised 2 77 three_events second (omega arith)
