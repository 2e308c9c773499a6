-- ===== src/Line/Frames.antt =====
-- The messages that services/edge-collector/src/polling/frames.ts builds of one device: `buildRawFrame`
-- and `buildPollCycle`, which is always given the state of the breaker.
use fieldstream.Common.{ℕ, Bool, Option, List}
use fieldstream.Breaker.{BreakerView}
use fieldstream.ReadPlan.{PlanMode}
use fieldstream.Polling.{ErrorKind, BackoffStep}
use fieldstream.Polling.Device.{RawBlock}
use fieldstream.Line.{DeviceContext, TelemetryRaw, PollCycle}

abbrev pub build_raw_frame : DeviceContext → List RawBlock → ℕ → ℕ → ℕ → TelemetryRaw
build_raw_frame context blocks at cycle_ms trace_id = record {
  ts = at;
  site_code = context.site_code;
  gateway_code = context.gateway_code;
  line_code = context.line_code;
  device_code = context.device.code;
  slave_id = context.device.slave_id;
  profile_key = context.profile.profile_key;
  profile_version = context.profile.version;
  blocks = blocks;
  cycle_ms = cycle_ms;
  trace_id = trace_id;
}

pub record CycleFacts : Type 0 where
  pub ok : Bool
  pub error_kind : Option ErrorKind
  pub duration_ms : ℕ
  pub request_count : ℕ
  pub plan_mode : PlanMode
  pub backoff : Option BackoffStep
  pub state : BreakerView
  pub next_probe_at : Option ℕ

abbrev pub build_poll_cycle : DeviceContext → CycleFacts → ℕ → ℕ → PollCycle
build_poll_cycle context facts at trace_id = record {
  ts = at;
  line_code = context.line_code;
  device_code = context.device.code;
  ok = facts.ok;
  error_kind = facts.error_kind;
  duration_ms = facts.duration_ms;
  request_count = facts.request_count;
  plan_mode = facts.plan_mode;
  backoff = facts.backoff;
  state = facts.state;
  next_probe_at = facts.next_probe_at;
  trace_id = trace_id;
}
