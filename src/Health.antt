-- ===== src/Health.antt =====
-- packages/domain/src/health.ts: the health tree of a site. Times are whole milliseconds; an ISO
-- timestamp is kept as the instant that it prints, so `Date.parse` of it is that instant.
mod Types
pub use Types.*
pub mod Verdicts
pub mod Tree
pub mod Totals
pub mod Leaves
mod Tests
use Prim.Native.String.{String}
use fieldstream.Common.{
  ℕ, zero, suc, ◌+◌, Bool, true, false, not, ◌&&◌, ◌||◌, Option, none, some, List, [], ◌∷◌, ltb,
  leb, if◌then◌else◌, any, all, sum_by,
}
use fieldstream.Contracts.{HealthStatus, online, degraded, offline, unknown, status_eq}

abbrev pub verdict_of : HealthStatus → HealthReason → Verdict
verdict_of s r = record { status = s; reason = r }

unfoldable pub resolve_since : Option HealthSnapshot → HealthStatus → ℕ → ℕ
resolve_since none status now = now
resolve_since (some prev) status now = if status_eq prev.status status then prev.since_ms else now

-- `nowMs - lastOkAtMs > staleAfterMs`, and the like for the grace period, without a negative difference.
abbrev pub older_than : ℕ → ℕ → ℕ → Bool
older_than at limit now = ltb (at + limit) now

never_ok : DeviceInput → TreeInput → Bool → Verdict
never_ok d i exhausted =
    if ltb i.now_ms (i.started_at_ms + i.policy.startup_grace_ms)
    then verdict_of unknown startup_grace
    else if exhausted
    then verdict_of offline consecutive_errors
    else if ltb 0 d.consecutive_errors
    then verdict_of unknown awaiting_success
    else verdict_of unknown no_data

once_ok : ℕ → TreeInput → Bool → Verdict
once_ok last i exhausted =
    if exhausted
    then verdict_of offline consecutive_errors
    else if older_than last i.policy.stale_after_ms i.now_ms
    then verdict_of degraded stale
    else verdict_of online ok

pub device_verdict : DeviceInput → TreeInput → Bool → Verdict
unfolding never_ok once_ok
device_verdict d i polling_enabled =
    let exhausted = leb i.policy.offline_after_errors d.consecutive_errors in
    if not polling_enabled then verdict_of unknown polling_disabled else elim d.last_ok_at_ms [
      | none ↦ never_ok d i exhausted
      | some last ↦ once_ok last i exhausted
    ]

abbrev pub is_status : HealthStatus → Summary → Bool
is_status s child = status_eq child.status s

pub aggregate : List Summary → Verdict
aggregate [] = verdict_of unknown no_data
aggregate (first ∷ rest) =
    let children = first ∷ rest in
    if any (is_status online) children
    then verdict_of online ok
    else if all (is_status offline) children
    then verdict_of offline children_offline
    else if all (is_status unknown) children
    then verdict_of unknown
        (if all (λ c. reason_eq c.reason first.reason) children then first.reason else no_data)
    else verdict_of degraded (if any (is_status offline) children then children_offline else stale)

unfoldable pub without_false_offline : Verdict → Verdict
without_false_offline v = if status_eq v.status offline then verdict_of unknown v.reason else v

unfoldable pub sum_errors : List Summary → ℕ
sum_errors = sum_by (λ c. c.consecutive_errors)

-- One step of the `reduce` in `latestOk`.
abbrev pub later_ok : Option ℕ → Option ℕ → Option ℕ
later_ok acc none = acc
later_ok none (some at) = some at
later_ok (some best) (some at) = if ltb best at then some at else some best

pub latest_from : Option ℕ → List Summary → Option ℕ
latest_from acc [] = acc
latest_from acc (c ∷ cs) = latest_from (later_ok acc c.last_ok_at) cs

unfoldable pub latest_ok : List Summary → Option ℕ
unfolding latest_from
latest_ok = latest_from none

build_device_node : DeviceInput → TreeInput → Bool → HealthNode
build_device_node d i polling_enabled =
    let verdict = device_verdict d i polling_enabled in
    node
      (record {
        kind = device;
        code = d.code;
        label = d.label;
        status = verdict.status;
        reason = verdict.reason;
        since = resolve_since d.prev verdict.status i.now_ms;
        last_ok_at = d.last_ok_at_ms;
        consecutive_errors = d.consecutive_errors;
      })
      nil

build_devices : List DeviceInput → TreeInput → Bool → Children
build_devices [] i polling_enabled = nil
build_devices (d ∷ ds) i polling_enabled =
    cons (build_device_node d i polling_enabled) (build_devices ds i polling_enabled)

-- The node that the three levels above the devices build from their children.
parent_node :
    NodeKind → String → String → Option HealthSnapshot → Verdict → TreeInput → Children → HealthNode
parent_node kind code label prev verdict i children =
    node
      (record {
        kind = kind;
        code = code;
        label = label;
        status = verdict.status;
        reason = verdict.reason;
        since = resolve_since prev verdict.status i.now_ms;
        last_ok_at = latest_ok (summaries children);
        consecutive_errors = sum_errors (summaries children);
      })
      children

build_line_node : LineInput → TreeInput → HealthNode
build_line_node l i =
    let devices = build_devices l.devices i l.polling_enabled in
    let verdict =
      if l.polling_enabled
      then aggregate (summaries devices)
      else verdict_of unknown polling_disabled in
    parent_node line l.code l.label l.prev verdict i devices

build_lines : List LineInput → TreeInput → Children
build_lines [] i = nil
build_lines (l ∷ ls) i = cons (build_line_node l i) (build_lines ls i)

build_gateway_node : GatewayInput → TreeInput → HealthNode
build_gateway_node g i =
    let lines = build_lines g.lines i in
    let verdict = without_false_offline (aggregate (summaries lines)) in
    parent_node gateway g.code g.label g.prev verdict i lines

build_gateways : List GatewayInput → TreeInput → Children
build_gateways [] i = nil
build_gateways (g ∷ gs) i = cons (build_gateway_node g i) (build_gateways gs i)

pub build_health_tree : TreeInput → HealthNode
unfolding build_devices build_lines build_gateways
build_health_tree i =
    let gateways = build_gateways i.site.gateways i in
    let verdict = without_false_offline (aggregate (summaries gateways)) in
    parent_node site i.site.code i.site.label i.site.prev verdict i gateways
