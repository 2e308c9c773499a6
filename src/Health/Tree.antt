-- ===== src/Health/Tree.antt =====
-- The whole tree of packages/domain/src/health.ts: no false alarm above a line, and what a parent
-- sums up.
use fieldstream.Common.{◌≡◌, ◌≢◌, refl, Bool, List, [], ◌∷◌, arith, All, Any}
use fieldstream.Contracts.{online, offline}
use fieldstream.Health.{
  NodeKind, site, gateway, line, device, DeviceInput, LineInput, GatewayInput, TreeInput, Verdict,
  Summary, HealthNode, Children, node, nil, cons, summaries, aggregate, without_false_offline,
  build_device_node, build_devices, parent_node, build_line_node, build_lines, build_gateway_node,
  build_gateways, build_health_tree,
}
use fieldstream.Health.Verdicts.{Has, aggregate-status}

-- What a node claims, against its children.
abbrev pub Warranted : NodeKind → Summary → List Summary → Type 0
Warranted device s cs = cs ≡ []
Warranted line s cs =
    (s.status ≡ offline → (cs ≢ []) × All (Has offline) cs)
    × (s.status ≡ online → Any (Has online) cs)
Warranted gateway s cs = (s.status ≢ offline) × (s.status ≡ online → Any (Has online) cs)
Warranted site s cs = (s.status ≢ offline) × (s.status ≡ online → Any (Has online) cs)

unfoldable mutual
  pub WarrantedTree : HealthNode → Type 0
  WarrantedTree (node s children) =
      Warranted s.kind s (summaries children) × WarrantedForest children

  pub WarrantedForest : Children → Type 0
  WarrantedForest nil = Unit
  WarrantedForest (cons child rest) = WarrantedTree child × WarrantedForest rest

false_offline :
    (v : Verdict) (cs : List Summary)
    → (v.status ≡ online → Any (Has online) cs)
    → ((without_false_offline v).status ≢ offline)
      × ((without_false_offline v).status ≡ online → Any (Has online) cs)
unfolding without_false_offline
false_offline v cs h = (ground arith, λ e. h (ground arith))

devices_warranted :
    (ds : List DeviceInput) (i : TreeInput) (p : Bool) → WarrantedForest (build_devices ds i p)
unfolding build_devices build_device_node WarrantedTree WarrantedForest
devices_warranted [] i p = tt
devices_warranted (d ∷ ds) i p = ((refl, tt), devices_warranted ds i p)

line_warranted : (l : LineInput) (i : TreeInput) → WarrantedTree (build_line_node l i)
unfolding build_line_node parent_node WarrantedTree WarrantedForest
line_warranted l i =
    let cs = summaries (build_devices l.devices i l.polling_enabled) in
    let spec = aggregate-status cs in
    (
      (λ e. spec.1.0 (ground arith), λ e. spec.0.0 (ground arith)),
      devices_warranted l.devices i l.polling_enabled,
    )

lines_warranted : (ls : List LineInput) (i : TreeInput) → WarrantedForest (build_lines ls i)
unfolding build_lines WarrantedTree WarrantedForest
lines_warranted [] i = tt
lines_warranted (l ∷ ls) i = (line_warranted l i, lines_warranted ls i)

gateway_warranted : (g : GatewayInput) (i : TreeInput) → WarrantedTree (build_gateway_node g i)
unfolding build_gateway_node parent_node WarrantedTree
gateway_warranted g i =
    let cs = summaries (build_lines g.lines i) in
    (false_offline (aggregate cs) cs (aggregate-status cs).0.0, lines_warranted g.lines i)

gateways_warranted :
    (gs : List GatewayInput) (i : TreeInput) → WarrantedForest (build_gateways gs i)
unfolding build_gateways WarrantedTree WarrantedForest
gateways_warranted [] i = tt
gateways_warranted (g ∷ gs) i = (gateway_warranted g i, gateways_warranted gs i)

-- In every tree that is built, at every node: a gateway or the site is never offline; a line is
-- offline only if it has devices and all of them are; and a line, a gateway or the site is online
-- only if one of its children is.
pub build_health_tree-WarrantedTree : (i : TreeInput) → WarrantedTree (build_health_tree i)
unfolding build_health_tree parent_node WarrantedTree
build_health_tree-WarrantedTree i =
    let cs = summaries (build_gateways i.site.gateways i) in
    (
      false_offline (aggregate cs) cs (aggregate-status cs).0.0,
      gateways_warranted i.site.gateways i,
    )
