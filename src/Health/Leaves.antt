-- ===== src/Health/Leaves.antt =====
-- The leaves of the health tree of packages/domain/src/health.ts, which the tracker of
-- services/stream-processor/src/health/tracker.ts takes by `deviceNodes`, and what they depend on.
use Prim.Native.String.{String}
use fieldstream.Common.{
  ◌≡◌, refl, ap, ◌∙◌, Bool, true, false, List, [], ◌∷◌, ◌++◌, if◌then◌else◌, map,
}
use mathlib.Core.List.{map-append}
use fieldstream.Contracts.{HealthStatus}
use fieldstream.Health.{
  HealthReason, NodeKind, device, DeviceInput, LineInput, GatewayInput, TreeInput, Summary,
  HealthNode, Children, node, nil, cons, device_verdict, never_ok, once_ok, build_device_node,
  build_devices, parent_node, build_line_node, build_lines, build_gateway_node, build_gateways,
  build_health_tree,
}

abbrev is_device : NodeKind → Bool
is_device device = true
is_device _ = false

-- `deviceNodes`, of a node and of its children.
unfoldable mutual
  pub device_nodes : HealthNode → List Summary
  device_nodes (node s children) = if is_device s.kind then s ∷ [] else nodes_among children

  pub nodes_among : Children → List Summary
  nodes_among nil = []
  nodes_among (cons child rest) = device_nodes child ++ nodes_among rest

-- What a leaf says, less its times and counts.
pub record Facts : Type 0 where
  pub code : String
  pub status : HealthStatus
  pub reason : HealthReason

abbrev pub facts_of : Summary → Facts
facts_of s = record { code = s.code; status = s.status; reason = s.reason }

abbrev pub device_facts : TreeInput → Bool → DeviceInput → Facts
device_facts i enabled d =
    let v = device_verdict d i enabled in
    record { code = d.code; status = v.status; reason = v.reason }

abbrev pub lines_facts : TreeInput → List LineInput → List Facts
lines_facts i [] = []
lines_facts i (l ∷ ls) = map (device_facts i l.polling_enabled) l.devices ++ lines_facts i ls

abbrev pub gateways_facts : TreeInput → List GatewayInput → List Facts
gateways_facts i [] = []
gateways_facts i (g ∷ gs) = lines_facts i g.lines ++ gateways_facts i gs

nodes_among-devices :
    (ds : List DeviceInput) (i : TreeInput) (enabled : Bool)
    → map facts_of (nodes_among (build_devices ds i enabled)) ≡ map (device_facts i enabled) ds
unfolding nodes_among build_devices build_device_node
nodes_among-devices [] i enabled = refl
nodes_among-devices (d ∷ ds) i enabled =
    ap (λ r. device_facts i enabled d ∷ r) (nodes_among-devices ds i enabled)

nodes_among-lines :
    (ls : List LineInput) (i : TreeInput)
    → map facts_of (nodes_among (build_lines ls i)) ≡ lines_facts i ls
unfolding nodes_among build_lines build_line_node parent_node
nodes_among-lines [] i = refl
nodes_among-lines (l ∷ ls) i =
    map-append facts_of (nodes_among (build_devices l.devices i l.polling_enabled))
      (nodes_among (build_lines ls i))
    ∙ ap (λ r. r ++ map facts_of (nodes_among (build_lines ls i)))
        (nodes_among-devices l.devices i l.polling_enabled)
    ∙ ap (λ r. map (device_facts i l.polling_enabled) l.devices ++ r) (nodes_among-lines ls i)

nodes_among-gateways :
    (gs : List GatewayInput) (i : TreeInput)
    → map facts_of (nodes_among (build_gateways gs i)) ≡ gateways_facts i gs
unfolding nodes_among build_gateways build_gateway_node parent_node
nodes_among-gateways [] i = refl
nodes_among-gateways (g ∷ gs) i =
    map-append facts_of (nodes_among (build_lines g.lines i)) (nodes_among (build_gateways gs i))
    ∙ ap (λ r. r ++ map facts_of (nodes_among (build_gateways gs i))) (nodes_among-lines g.lines i)
    ∙ ap (λ r. lines_facts i g.lines ++ r) (nodes_among-gateways gs i)

pub device_nodes-facts :
    (i : TreeInput)
    → map facts_of (device_nodes (build_health_tree i)) ≡ gateways_facts i i.site.gateways
unfolding device_nodes build_health_tree parent_node
device_nodes-facts i = nodes_among-gateways i.site.gateways i

-- A device's verdict depends on its last success and its errors, on the policy and on the times.
pub device_verdict-same :
    (d d' : DeviceInput) (i i' : TreeInput) (enabled : Bool)
    → d.last_ok_at_ms ≡ d'.last_ok_at_ms
    → d.consecutive_errors ≡ d'.consecutive_errors
    → i.policy ≡ i'.policy
    → i.started_at_ms ≡ i'.started_at_ms
    → i.now_ms ≡ i'.now_ms
    → device_verdict d i enabled ≡ device_verdict d' i' enabled
unfolding device_verdict never_ok once_ok
device_verdict-same d d' i i' enabled ok errors policy started now =
    ap (λ o. device_verdict (record d { last_ok_at_ms = o }) i enabled) ok
    ∙ ap
        (λ n.
          device_verdict (record d { last_ok_at_ms = d'.last_ok_at_ms; consecutive_errors = n }) i
            enabled)
        errors
    ∙ ap (λ p. device_verdict d' (record i { policy = p }) enabled) policy
    ∙ ap (λ t. device_verdict d' (record i { policy = i'.policy; started_at_ms = t }) enabled)
        started
    ∙ ap
        (λ t.
          device_verdict d'
            (record i { policy = i'.policy; started_at_ms = i'.started_at_ms; now_ms = t }) enabled)
        now
