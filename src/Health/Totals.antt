-- ===== src/Health/Totals.antt =====
-- What a node of packages/domain/src/health.ts sums up over the devices below it.
use mathlib.Core.Path.{ap₂}
use fieldstream.Common.{
  ℕ, ◌+◌, ◌≤◌, ◌≡◌, refl, sym, ap, ◌∙◌, ◌⊎◌, inl, inr, Bool, Option, none, some, List, [], ◌∷◌,
  arith, All, Any, sum_by,
}
use fieldstream.Health.{
  DeviceInput, LineInput, GatewayInput, TreeInput, Summary, summary, summaries, latest_ok,
  latest_from, later_ok, sum_errors, build_device_node, build_devices, parent_node, build_line_node,
  build_lines, build_gateway_node, build_gateways, build_health_tree,
}

-- No success is later than the other instant.
abbrev pub NoLater : Option ℕ → Option ℕ → Type 0
NoLater none b = Unit
NoLater (some a) none = ⊥
NoLater (some a) (some b) = a ≤ b

NoLater-trans : (a b c : Option ℕ) → NoLater a b → NoLater b c → NoLater a c
NoLater-trans none b c h g = tt
NoLater-trans (some a) none c h g = absurd h
NoLater-trans (some a) (some b) none h g = absurd g
NoLater-trans (some a) (some b) (some c) h g = omega arith

NoLater-refl : (a : Option ℕ) → NoLater a a
NoLater-refl none = tt
NoLater-refl (some a) = omega arith

NoLater-later_ok : (a b : Option ℕ) → NoLater a (later_ok a b) × NoLater b (later_ok a b)
NoLater-later_ok none none = (tt, tt)
NoLater-later_ok none (some b) = (tt, omega arith)
NoLater-later_ok (some a) none = (omega arith, tt)
NoLater-later_ok (some a) (some b) = (ground arith, ground arith)

latest_from-bounds :
    (acc : Option ℕ) (cs : List Summary)
    → NoLater acc (latest_from acc cs) × All (λ c. NoLater c.last_ok_at (latest_from acc cs)) cs
unfolding latest_from
latest_from-bounds acc [] = (NoLater-refl acc, tt)
latest_from-bounds acc (c ∷ cs) =
    let next = later_ok acc c.last_ok_at in
    let (low, rest) = latest_from-bounds next cs in
    let (acc_le, c_le) = NoLater-later_ok acc c.last_ok_at in
    (
      NoLater-trans acc next (latest_from next cs) acc_le low,
      (NoLater-trans c.last_ok_at next (latest_from next cs) c_le low, rest),
    )

either : (a b : Option ℕ) → (later_ok a b ≡ a) ⊎ (later_ok a b ≡ b)
either none none = inl refl
either none (some b) = inr refl
either (some a) none = inl refl
either (some a) (some b) = ground arith

latest_from_attained :
    (acc : Option ℕ) (cs : List Summary)
    → (latest_from acc cs ≡ acc) ⊎ Any (λ c. c.last_ok_at ≡ latest_from acc cs) cs
unfolding latest_from
latest_from_attained acc [] = inl refl
latest_from_attained acc (c ∷ cs) = pick (latest_from_attained (later_ok acc c.last_ok_at) cs)
  where
    pick :
        (latest_from (later_ok acc c.last_ok_at) cs ≡ later_ok acc c.last_ok_at)
          ⊎ Any (λ d. d.last_ok_at ≡ latest_from (later_ok acc c.last_ok_at) cs) cs
        → (latest_from (later_ok acc c.last_ok_at) cs ≡ acc)
          ⊎ ((c.last_ok_at ≡ latest_from (later_ok acc c.last_ok_at) cs)
              ⊎ Any (λ d. d.last_ok_at ≡ latest_from (later_ok acc c.last_ok_at) cs) cs)
    pick (inl e) = elim (either acc c.last_ok_at) [
      | inl same ↦ inl (e ∙ same)
      | inr fresh ↦ inr (inl (sym fresh ∙ sym e))
    ]
    pick (inr later) = inr (inr later)

-- The latest success is that of a child, or there is none, and no child's is later.
pub latest_ok-max :
    (cs : List Summary)
    → ((latest_ok cs ≡ none) ⊎ Any (λ c. c.last_ok_at ≡ latest_ok cs) cs)
      × All (λ c. NoLater c.last_ok_at (latest_ok cs)) cs
unfolding latest_ok
latest_ok-max cs = (latest_from_attained none cs, (latest_from-bounds none cs).1)

-- Errors of all the devices of a line, of a gateway, of a site.
abbrev pub line_errors : LineInput → ℕ
line_errors l = sum_by (λ d. d.consecutive_errors) l.devices

abbrev pub gateway_errors : GatewayInput → ℕ
gateway_errors g = sum_by line_errors g.lines

device_sum :
    (ds : List DeviceInput) (i : TreeInput) (p : Bool)
    → sum_errors (summaries (build_devices ds i p)) ≡ sum_by (λ d. d.consecutive_errors) ds
unfolding sum_errors build_devices build_device_node
device_sum [] i p = refl
device_sum (d ∷ ds) i p = ap (λ r. d.consecutive_errors + r) (device_sum ds i p)

line_sum :
    (ls : List LineInput) (i : TreeInput)
    → sum_errors (summaries (build_lines ls i)) ≡ sum_by line_errors ls
unfolding sum_errors build_lines build_line_node parent_node
line_sum [] i = refl
line_sum (l ∷ ls) i = ap₂ (λ a b. a + b) (device_sum l.devices i l.polling_enabled) (line_sum ls i)

gateway_sum :
    (gs : List GatewayInput) (i : TreeInput)
    → sum_errors (summaries (build_gateways gs i)) ≡ sum_by gateway_errors gs
unfolding sum_errors build_gateways build_gateway_node parent_node
gateway_sum [] i = refl
gateway_sum (g ∷ gs) i = ap₂ (λ a b. a + b) (line_sum g.lines i) (gateway_sum gs i)

-- No device of the site answered later than the instant.
abbrev pub NoDeviceLater : List GatewayInput → Option ℕ → Type 0
NoDeviceLater gs best =
    All (λ g. All (λ l. All (λ d. NoLater d.last_ok_at_ms best) l.devices) g.lines) gs

devices-NoLater :
    (ds : List DeviceInput) (i : TreeInput) (p : Bool) (a b : Option ℕ)
    → All (λ c. NoLater c.last_ok_at a) (summaries (build_devices ds i p))
    → NoLater a b
    → All (λ d. NoLater d.last_ok_at_ms b) ds
unfolding build_devices build_device_node
devices-NoLater [] i p a b h g = tt
devices-NoLater (d ∷ ds) i p a b h g =
    (NoLater-trans d.last_ok_at_ms a b h.0 g, devices-NoLater ds i p a b h.1 g)

lines-NoLater :
    (ls : List LineInput) (i : TreeInput) (a b : Option ℕ)
    → All (λ c. NoLater c.last_ok_at a) (summaries (build_lines ls i))
    → NoLater a b
    → All (λ l. All (λ d. NoLater d.last_ok_at_ms b) l.devices) ls
unfolding build_lines build_line_node parent_node
lines-NoLater [] i a b h g = tt
lines-NoLater (l ∷ ls) i a b h g =
    let cs = summaries (build_devices l.devices i l.polling_enabled) in
    (
      devices-NoLater l.devices i l.polling_enabled (latest_ok cs) b (latest_ok-max cs).1
          (NoLater-trans (latest_ok cs) a b h.0 g),
      lines-NoLater ls i a b h.1 g,
    )

gateways-NoLater :
    (gs : List GatewayInput) (i : TreeInput) (a : Option ℕ)
    → All (λ c. NoLater c.last_ok_at a) (summaries (build_gateways gs i))
    → NoDeviceLater gs a
unfolding build_gateways build_gateway_node parent_node
gateways-NoLater [] i a h = tt
gateways-NoLater (g ∷ gs) i a h =
    let cs = summaries (build_lines g.lines i) in
    (lines-NoLater g.lines i (latest_ok cs) a (latest_ok-max cs).1 h.0, gateways-NoLater gs i a h.1)

-- The site counts the errors of all its devices, polled or not, each once, and no device of the site
-- has answered later than the success that the site shows.
pub build_health_tree-totals :
    (i : TreeInput)
    → let s = summary (build_health_tree i) in
      (s.consecutive_errors ≡ sum_by gateway_errors i.site.gateways)
      × NoDeviceLater i.site.gateways s.last_ok_at
unfolding build_health_tree parent_node
build_health_tree-totals i =
    let cs = summaries (build_gateways i.site.gateways i) in
    (
      gateway_sum i.site.gateways i,
      gateways-NoLater i.site.gateways i (latest_ok cs) (latest_ok-max cs).1,
    )
