-- ===== src/Tracker/Stand.antt =====
-- The stand of packages/contracts/src/topology/stand.ts, and the health tree of it that the tracker of
-- services/stream-processor/src/health/tracker.ts builds.
use Prim.Native.String.{String}
use text.Mathlib.Text.{◌==◌ as str_eq}
use fieldstream.Common.{ℕ, true, Option, none, some, List, [], ◌∷◌, ◌++◌, keep, map}
use fieldstream.Common.Keys.{put}
use fieldstream.Health.{
  HealthPolicy, HealthSnapshot, DeviceInput, LineInput, GatewayInput, SiteInput, Summary,
  build_health_tree,
}
use fieldstream.Health.Leaves.{device_nodes}
use fieldstream.Line.{StandDevice}
use fieldstream.Tracker.{DeviceTrack, Tracker, ok_at_for_tree}

pub record StandSite : Type 0 where
  pub code : String
  pub name : String
  pub timezone : String

pub record StandGateway : Type 0 where
  pub code : String
  pub site_code : String
  pub host : String

pub record StandLine : Type 0 where
  pub code : String
  pub gateway_code : String
  pub port : ℕ
  pub baud : ℕ
  pub poll_interval_ms : ℕ
  pub request_timeout_ms : ℕ

pub record Stand : Type 0 where
  pub sites : List StandSite
  pub gateways : List StandGateway
  pub lines : List StandLine
  pub devices : List StandDevice

-- What the tree reads of the track of a device, where it has one.
abbrev pub ok_of : Option DeviceTrack → Option ℕ
ok_of none = none
ok_of (some track) = ok_at_for_tree track

abbrev pub errors_of : Option DeviceTrack → ℕ
errors_of none = 0
errors_of (some track) = track.consecutive_errors

abbrev pub health_of : Option DeviceTrack → Option HealthSnapshot
health_of none = none
health_of (some track) = track.health

module _ (stand : Stand) (policy : HealthPolicy) where
  abbrev pub device_input : Tracker → StandDevice → DeviceInput
  device_input s d = record {
    code = d.code;
    label = d.code;
    last_ok_at_ms = ok_of (s.tracks d.code);
    consecutive_errors = errors_of (s.tracks d.code);
    prev = health_of (s.tracks d.code);
  }

  abbrev pub line_input : Tracker → StandLine → LineInput
  line_input s l = record {
    code = l.code;
    label = l.code;
    polling_enabled = true;
    devices = map (device_input s) (keep (λ d. str_eq d.line_code l.code) stand.devices);
    prev = none;
  }

  abbrev pub gateway_input : Tracker → StandGateway → GatewayInput
  gateway_input s g = record {
    code = g.code;
    label = g.code;
    lines = map (line_input s) (keep (λ l. str_eq l.gateway_code g.code) stand.lines);
    prev = none;
  }

  abbrev pub site_input : Tracker → StandSite → SiteInput
  site_input s site = record {
    code = site.code;
    label = site.name;
    gateways = map (gateway_input s) (keep (λ g. str_eq g.site_code site.code) stand.gateways);
    prev = none;
  }

  -- The leaves of all sites, and `new Map` of them by code.
  unfoldable pub leaf_list : Tracker → ℕ → ℕ → List StandSite → List Summary
  unfolding device_nodes
  leaf_list s grace_from_ms now_ms [] = []
  leaf_list s grace_from_ms now_ms (site ∷ sites) =
      device_nodes (
        build_health_tree (record {
          site = site_input s site;
          policy = policy;
          started_at_ms = grace_from_ms;
          now_ms = now_ms;
        }))
      ++ leaf_list s grace_from_ms now_ms sites

  abbrev pub by_code : List Summary → List (String × Summary) → List (String × Summary)
  by_code [] seen = seen
  by_code (leaf ∷ rest) seen = by_code rest (put leaf.code leaf seen)

  unfoldable pub leaves_from : Tracker → ℕ → ℕ → List (String × Summary)
  unfolding leaf_list
  leaves_from s grace_from_ms now_ms = by_code (leaf_list s grace_from_ms now_ms stand.sites) []
