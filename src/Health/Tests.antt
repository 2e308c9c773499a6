-- ===== src/Health/Tests.antt =====
-- A small site: one gateway with a silent line and a line that is not polled.
use fieldstream.Common.{
  ◌≡◌, ◌≢◌, ◌↔◌, ◌⊎◌, refl, inl, true, false, none, some, [], ◌∷◌, arith, All, Any,
}
use fieldstream.Contracts.{online, offline, unknown}
use fieldstream.Health.{
  DeviceInput, LineInput, TreeInput, Summary, device_verdict, aggregate, latest_ok, summary,
  build_health_tree, device, consecutive_errors, verdict_of, children_offline,
  without_false_offline,
}
use fieldstream.Health.Verdicts.{device_verdict-status, children-status, Has}
use fieldstream.Health.Tree.{WarrantedTree, build_health_tree-WarrantedTree}
use fieldstream.Health.Totals.{NoLater, latest_ok-max, NoDeviceLater, build_health_tree-totals}

abbrev silent : DeviceInput
silent = record {
  code = "RC-101";
  label = "Chamber";
  last_ok_at_ms = some 40;
  consecutive_errors = 5;
  prev = none;
}

abbrev dead_line : LineInput
dead_line = record {
  code = "L1";
  label = "Line";
  polling_enabled = true;
  devices = silent ∷ [];
  prev = none;
}

abbrev plant : TreeInput
plant = record {
  site = record {
    code = "SITE-A";
    label = "Site";
    gateways =
        record {
          code = "GW-1";
          label = "Gateway";
          lines = dead_line ∷ record dead_line { code = "L2"; polling_enabled = false } ∷ [];
          prev = none;
        }
        ∷ [];
    prev = none;
  };
  policy = record { offline_after_errors = 5; stale_after_ms = 300; startup_grace_ms = 70 };
  started_at_ms = 0;
  now_ms = 100;
}

abbrev dead_summary : Summary
dead_summary = record {
  kind = device;
  code = "RC-101";
  label = "Chamber";
  status = offline;
  reason = consecutive_errors;
  since = 100;
  last_ok_at = some 40;
  consecutive_errors = 5;
}

all_dead : aggregate (dead_summary ∷ []) ≡ verdict_of offline children_offline
unfolding aggregate
all_dead = refl

device_verdict-status_example : (device_verdict silent plant true).status ≡ offline
device_verdict-status_example =
    (device_verdict-status silent plant true).0.1 (refl, omega arith, inl (λ e. cc e))

children-status_example :
    let v = aggregate (dead_summary ∷ []) in
    let shown = without_false_offline v in
    ((v.status ≡ online) ↔ Any (Has online) (dead_summary ∷ []))
    × ((v.status ≡ offline) ↔ (((dead_summary ∷ []) ≢ []) × All (Has offline) (dead_summary ∷ [])))
    × ((v.status ≡ unknown) ↔ All (Has unknown) (dead_summary ∷ []))
    × (shown.status ≢ offline)
    × ((shown.status ≡ online) ↔ Any (Has online) (dead_summary ∷ []))
    × ((shown.status ≡ unknown)
        ↔ (All (Has unknown) (dead_summary ∷ []) ⊎ All (Has offline) (dead_summary ∷ [])))
children-status_example = children-status (dead_summary ∷ [])

build_health_tree-WarrantedTree_example : WarrantedTree (build_health_tree plant)
build_health_tree-WarrantedTree_example = build_health_tree-WarrantedTree plant

latest_ok-max_example :
    ((latest_ok (dead_summary ∷ []) ≡ none)
      ⊎ Any (λ c. c.last_ok_at ≡ latest_ok (dead_summary ∷ [])) (dead_summary ∷ []))
    × All (λ c. NoLater c.last_ok_at (latest_ok (dead_summary ∷ []))) (dead_summary ∷ [])
latest_ok-max_example = latest_ok-max (dead_summary ∷ [])

build_health_tree-totals_example :
    let s = summary (build_health_tree plant) in
    (s.consecutive_errors ≡ 10) × NoDeviceLater plant.site.gateways s.last_ok_at
build_health_tree-totals_example = build_health_tree-totals plant
