-- ===== src/Tracker/Tests.antt =====
-- A stand of one device, which leaves the instance and comes back while a batch is written.
use fieldstream.Common.{◌≡◌, refl, none, some, List, [], ◌∷◌, true}
use fieldstream.Contracts.{defrost}
use fieldstream.Health.{HealthPolicy}
use fieldstream.Tracker.{adopt, confirm_published}
use fieldstream.Tracker.Stand.{Stand}
use fieldstream.Tracker.Frames.{FrameObservation, observe_all, commit}
use fieldstream.Tracker.Check.{evaluate}
use fieldstream.Tracker.Settled.{evaluate-told_once}
use fieldstream.Tracker.Late.{
  Step, cycle, checks, adopts, releases, new_health_tracker, take_steps, late_frames-ignored,
}

abbrev policy : HealthPolicy
policy = record { offline_after_errors = 3; stale_after_ms = 60000; startup_grace_ms = 30000 }

abbrev stand : Stand
stand = record {
  sites = record { code = "s"; name = "Site"; timezone = "UTC" } ∷ [];
  gateways = record { code = "g"; site_code = "s"; host = "host" } ∷ [];
  lines =
      record {
        code = "l";
        gateway_code = "g";
        port = 4001;
        baud = 9600;
        poll_interval_ms = 5000;
        request_timeout_ms = 600;
      }
      ∷ [];
  devices = record { code = "d"; line_code = "l"; slave_id = 1; profile_key = "meter" } ∷ [];
}

abbrev earlier : List Step
earlier = adopts 1000 (some []) ("d" ∷ []) ∷ cycle "d" true 2000 ∷ checks 3000 ∷ []

abbrev frames : List FrameObservation
frames =
    record {
      device_code = "d";
      at_ms = 3500;
      mode = defrost;
      door_open = some true;
      defrost_active = some true;
    }
    ∷ []

abbrev later : List Step
later = cycle "d" true 5000 ∷ []

abbrev handing_over : List Step
handing_over = releases ("d" ∷ []) ∷ checks 3800 ∷ []

late_frames-ignored_example :
    let s = take_steps stand policy earlier (new_health_tracker stand 0) in
    let adopted = adopt 4000 none ("d" ∷ []) (take_steps stand policy handing_over s) in
    let s' = take_steps stand policy later adopted in
    (commit (observe_all s frames ([], [])).0 s').tracks "d" ≡ s'.tracks "d"
late_frames-ignored_example =
    late_frames-ignored stand policy 0 4000 earlier handing_over later frames none ("d" ∷ []) "d"
      refl refl

-- The device came online before this check, and its state is confirmed after it.
evaluate-told_once_example :
    let s = take_steps stand policy earlier (new_health_tracker stand 0) in
    let first = evaluate stand policy s 90000 in
    (evaluate stand policy (confirm_published first.states first.tracker) 90000).events ≡ []
evaluate-told_once_example =
    let s = take_steps stand policy earlier (new_health_tracker stand 0) in
    evaluate-told_once stand policy s 90000 (evaluate stand policy s 90000).states
