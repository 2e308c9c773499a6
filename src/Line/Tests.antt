-- ===== src/Line/Tests.antt =====
-- A line with two devices of one profile: the first answers, and the second times out.
use fieldstream.Common.{
  ℕ, ◌+◌, ◌≤◌, ◌≡◌, ◌≢◌, ◌⊎◌, refl, none, some, List, [], ◌∷◌, arith, true, false,
}
use Prim.Native.Nat.{Ordering}
use Prim.Native.String.{String}
use fieldstream.Contracts.{holding, uint16}
use fieldstream.Breaker.{Breaker, closed_breaker}
use fieldstream.ReadPlan.{Collation, DeviceProfile, merged}
use fieldstream.Polling.{thrown}
use fieldstream.Polling.Latency.{new_tracker}
use fieldstream.Polling.Device.{Answer, words_read, failed}
use fieldstream.Line.{Line, Slot}
use fieldstream.Line.Pass.{Wake, port_opened, port_answered, idle_delay_ms}
use fieldstream.Line.Lifecycle.{Event, begins, wakes, trips, wakes_abandoned, step, run}
use fieldstream.Line.Stray.{SameReadings}
use fieldstream.Line.Watch.{Inv, started, worker_run-Inv, late_answer-SameReadings}
use fieldstream.Line.Tally.{due_slots}
use fieldstream.Line.Idle.{idle_delay_ms_lem}

-- A text order that takes all texts for equal; nothing below depends on it.
abbrev flat : Collation
flat = record { keys = λ a b. Ordering.eq; ids = λ a b. Ordering.eq }

abbrev meter : DeviceProfile
meter = record {
  profile_key = "meter";
  version = 1;
  max_block_registers = 100;
  max_gap_registers = 0;
  declared = [];
  sections =
      record {
        key = "main";
        params =
            record { key = "a"; address = 10; register_type = holding; data_type = uint16 } ∷ [];
      }
      ∷ [];
}

abbrev slot : ℕ → String → Slot
slot place code = record {
  place = place;
  context = record {
    site_code = "site";
    gateway_code = "gw";
    line_code = "line";
    device = record {
      code = code;
      line_code = "line";
      slave_id = place + 1;
      profile_key = "meter";
    };
    profile = meter;
  };
}

abbrev two_meters : Line
two_meters = record {
  code = "line";
  request_timeout_ms = 1000;
  slots = slot 0 "m1" ∷ slot 1 "m2" ∷ [];
  breakers = λ _. closed_breaker;
  connected = false;
  latency = new_tracker;
  plan_mode = merged;
  poll_interval_ms = 5000;
  reconnect_attempt = 0;
  reconnects = [];
  cycle_started_at = none;
  cycle_limit_ms = none;
  watchdog_trips = 0;
  generation = 0;
  last_cycle = none;
  running = true;
  frames = [];
  cycles = [];
  statuses = [];
}

abbrev words : ℕ → Answer
words _ = record { started = 20; ended = 50; reply = words_read (7 ∷ []) }

abbrev silence : ℕ → Answer
silence _ = record { started = 50; ended = 1050; reply = failed (thrown false true false false) }

abbrev answers : List Wake
answers = port_opened 10 ∷ port_answered words 10 50 ∷ port_answered silence 50 1050 ∷ []

-- The watchdog gives up on the first pass; the second one is under way.
abbrev history : List Event
history = begins 0 1 ∷ wakes (port_opened 10) 10 ∷ trips 300000 ∷ begins 301000 2 ∷ []

worker_run-Inv_example : Inv (run flat history (started two_meters))
worker_run-Inv_example = worker_run-Inv flat two_meters history (omega arith) (omega arith)

late_answer-SameReadings_example :
    SameReadings
      (run flat history (started two_meters)).line
      (step flat
        (wakes_abandoned 0 (port_answered words 20 302000))
        (run flat history (started two_meters))).line
late_answer-SameReadings_example =
    late_answer-SameReadings flat two_meters history 0 (port_answered words 20 302000) (omega arith)
      (omega arith)

-- Both breakers are open; the first probe is due at 30,000.
abbrev broken : Breaker
broken = record { failures = 2; is_open = true; probe_delay_ms = 30000; next_probe_at = some 30000 }

abbrev both_open : Line
both_open = record two_meters { breakers = λ _. broken }

none_due : due_slots both_open 28000 ≡ []
unfolding fieldstream.Breaker.breaker_allows
none_due = refl

idle_delay_ms_lem_example :
    (idle_delay_ms both_open 28000 ≤ 5000)
    × ((idle_delay_ms both_open 28000 ≤ 1999) ⊎ (due_slots both_open (28000 + 1999) ≡ []))
    × ((idle_delay_ms both_open 28000 ≡ 5000)
        ⊎ (due_slots both_open (28000 + idle_delay_ms both_open 28000) ≢ []))
idle_delay_ms_lem_example = idle_delay_ms_lem both_open 28000 1999 none_due
