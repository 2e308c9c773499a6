-- ===== src/Tracker/LeafFacts.antt =====
-- What the leaves that services/stream-processor/src/health/tracker.ts reads say of the devices, and
-- what of the tracks they depend on.
use Prim.Native.String.{String}
use text.Mathlib.Text.{◌==◌ as str_eq}
use text.Mathlib.TextEquality.{eq_iff}
use mathlib.Core.List.{map-append}
use fieldstream.Common.{
  ℕ, ◌≡◌, refl, sym, ap, ◌∙◌, Bool, true, false, ◌||◌, Option, none, some, List, [], ◌∷◌, ◌++◌,
  arith, if◌then◌else◌, map, keep,
}
use fieldstream.Common.Keys.{contains, lookup, put, keys, lookup-put}
use fieldstream.Health.{HealthPolicy, TreeInput, Summary, build_health_tree}
use fieldstream.Health.Leaves.{
  device_nodes, Facts, facts_of, device_facts, lines_facts, gateways_facts, device_nodes-facts,
  device_verdict-same,
}
use fieldstream.Line.{StandDevice}
use fieldstream.Tracker.{Tracker}
use fieldstream.Tracker.Stand.{
  StandSite, StandGateway, StandLine, Stand, ok_of, errors_of, device_input, line_input,
  gateway_input, site_input, leaf_list, by_code, leaves_from,
}

abbrev pub opt_facts : Option Summary → Option Facts
opt_facts none = none
opt_facts (some leaf) = some (facts_of leaf)

-- The last of the facts of a device.
abbrev pub last_facts : String → List Facts → Option Facts → Option Facts
last_facts code [] seen = seen
last_facts code (f ∷ fs) seen = last_facts code fs (if str_eq f.code code then some f else seen)

abbrev pub is_some : {A : Type 0} → Option A → Bool
is_some none = false
is_some (some a) = true

map-both :
    {X : Type 0} (φ : Facts → X) (as' bs as'' bs' : List Facts)
    → map φ as' ≡ map φ as''
    → map φ bs ≡ map φ bs'
    → map φ (as' ++ bs) ≡ map φ (as'' ++ bs')
map-both φ as' bs as'' bs' e f =
    map-append φ as' bs
    ∙ ap (λ r. r ++ map φ bs) e
    ∙ ap (λ r. map φ as'' ++ r) f
    ∙ sym (map-append φ as'' bs')

module _ (stand : Stand) (policy : HealthPolicy) where
  abbrev pub input_at : Tracker → ℕ → ℕ → StandSite → TreeInput
  input_at s from now_ms site = record {
    site = site_input stand policy s site;
    policy = policy;
    started_at_ms = from;
    now_ms = now_ms;
  }

  -- Two trackers whose trees agree on what `φ` takes of each device.
  module _ {X : Type 0} (φ : Facts → X) (s s' : Tracker) (from from' now_ms : ℕ)
      (agree : (site : StandSite) (d : StandDevice)
        → φ (device_facts (input_at s from now_ms site) true (device_input stand policy s d))
          ≡ φ (
              device_facts
                (input_at s' from' now_ms site)
                true
                (device_input stand policy s' d))) where
    devices-agree :
        (site : StandSite) (ds : List StandDevice)
        → map φ (
            map
              (device_facts (input_at s from now_ms site) true)
              (map (device_input stand policy s) ds))
          ≡ map φ (
              map
                (device_facts (input_at s' from' now_ms site) true)
                (map (device_input stand policy s') ds))
    devices-agree site [] = refl
    devices-agree site (d ∷ ds) = rw (agree site d, devices-agree site ds) refl

    lines-agree :
        (site : StandSite) (ls : List StandLine)
        → map φ (lines_facts (input_at s from now_ms site) (map (line_input stand policy s) ls))
          ≡ map φ
              (lines_facts (input_at s' from' now_ms site) (map (line_input stand policy s') ls))
    lines-agree site [] = refl
    lines-agree site (l ∷ ls) =
        let ds = keep (λ d. str_eq d.line_code l.code) stand.devices in
        map-both φ
          (map (device_facts (input_at s from now_ms site) true)
            (map (device_input stand policy s) ds))
          (lines_facts (input_at s from now_ms site) (map (line_input stand policy s) ls))
          (map (device_facts (input_at s' from' now_ms site) true)
            (map (device_input stand policy s') ds))
          (lines_facts (input_at s' from' now_ms site) (map (line_input stand policy s') ls))
          (devices-agree site ds) (lines-agree site ls)

    gateways-agree :
        (site : StandSite) (gs : List StandGateway)
        → map φ
            (gateways_facts (input_at s from now_ms site) (map (gateway_input stand policy s) gs))
          ≡ map φ (
              gateways_facts
                (input_at s' from' now_ms site)
                (map (gateway_input stand policy s') gs))
    gateways-agree site [] = refl
    gateways-agree site (g ∷ gs) =
        let ls = keep (λ l. str_eq l.gateway_code g.code) stand.lines in
        map-both φ (lines_facts (input_at s from now_ms site) (map (line_input stand policy s) ls))
          (gateways_facts (input_at s from now_ms site) (map (gateway_input stand policy s) gs))
          (lines_facts (input_at s' from' now_ms site) (map (line_input stand policy s') ls))
          (gateways_facts (input_at s' from' now_ms site) (map (gateway_input stand policy s') gs))
          (lines-agree site ls) (gateways-agree site gs)

    leaf_list-agree :
        (sites : List StandSite)
        → map φ (map facts_of (leaf_list stand policy s from now_ms sites))
          ≡ map φ (map facts_of (leaf_list stand policy s' from' now_ms sites))
    unfolding leaf_list
    leaf_list-agree [] = refl
    leaf_list-agree (site ∷ sites) =
        let i = input_at s from now_ms site in
        let i' = input_at s' from' now_ms site in
        let gs = keep (λ g. str_eq g.site_code site.code) stand.gateways in
        ap (map φ) (
          map-append facts_of (device_nodes (build_health_tree i))
            (leaf_list stand policy s from now_ms sites))
        ∙ map-both φ (map facts_of (device_nodes (build_health_tree i)))
            (map facts_of (leaf_list stand policy s from now_ms sites))
            (map facts_of (device_nodes (build_health_tree i')))
            (map facts_of (leaf_list stand policy s' from' now_ms sites))
            (ap (map φ) (device_nodes-facts i)
              ∙ gateways-agree site gs
              ∙ sym (ap (map φ) (device_nodes-facts i')))
            (leaf_list-agree sites)
        ∙ sym (
            ap (map φ) (
              map-append facts_of (device_nodes (build_health_tree i'))
                (leaf_list stand policy s' from' now_ms sites)))

  abbrev pub said : Tracker → ℕ → ℕ → List Facts
  said s from now_ms = map facts_of (leaf_list stand policy s from now_ms stand.sites)

  map-id : (fs : List Facts) → map (λ f. f) fs ≡ fs
  map-id [] = refl
  map-id (f ∷ fs) = ap (λ r. f ∷ r) (map-id fs)

  -- The leaves say the same where no success and no error came in between.
  pub said-same :
      (s s' : Tracker) (from now_ms : ℕ)
      → ((code : String) → ok_of (s.tracks code) ≡ ok_of (s'.tracks code))
      → ((code : String) → errors_of (s.tracks code) ≡ errors_of (s'.tracks code))
      → said s from now_ms ≡ said s' from now_ms
  said-same s s' from now_ms ok errors =
      sym (map-id (said s from now_ms))
      ∙ leaf_list-agree (λ f. f) s s' from from now_ms
          (λ site d.
            ap (λ v. record { code = d.code; status = v.status; reason = v.reason })
              (device_verdict-same (device_input stand policy s d) (device_input stand policy s' d)
                (input_at s from now_ms site) (input_at s' from now_ms site) true (ok d.code)
                (errors d.code) refl refl refl))
          stand.sites
      ∙ map-id (said s' from now_ms)

  -- The leaves are those of the same devices in every window of grace.
  pub said-codes :
      (s : Tracker) (from from' now_ms : ℕ)
      → map (λ f. f.code) (said s from now_ms) ≡ map (λ f. f.code) (said s from' now_ms)
  said-codes s from from' now_ms =
      leaf_list-agree (λ f. f.code) s s from from' now_ms (λ site d. refl) stand.sites

lookup-by_code :
    (stand : Stand) (policy : HealthPolicy) (code : String) (leaves : List Summary)
    (seen : List (String × Summary))
    → opt_facts (lookup code (by_code stand policy leaves seen))
      ≡ last_facts code (map facts_of leaves) (opt_facts (lookup code seen))
lookup-by_code stand policy code [] seen = refl
lookup-by_code stand policy code (leaf ∷ leaves) seen =
    lookup-by_code stand policy code leaves (put leaf.code leaf seen)
    ∙ ap (last_facts code (map facts_of leaves))
        (ap opt_facts (lookup-put leaf.code code leaf seen) ∙ by_name (str_eq leaf.code code))
  where
    by_name :
        (same : Bool)
        → opt_facts (if same then some leaf else lookup code seen)
          ≡ (if same then some (facts_of leaf) else opt_facts (lookup code seen))
    by_name true = refl
    by_name false = refl

pub is_some-last_facts :
    (code : String) (fs : List Facts) (seen : Option Facts)
    → is_some (last_facts code fs seen) ≡ (contains code (map (λ f. f.code) fs) || is_some seen)
is_some-last_facts code [] seen = refl
is_some-last_facts code (f ∷ fs) seen =
    ground (arith, is_some-last_facts code fs (if str_eq f.code code then some f else seen))

contains-put :
    (code k : String) (leaf : Summary) (m : List (String × Summary))
    → contains code (keys (put k leaf m)) ≡ (str_eq k code || contains code (keys m))
unfolding put
contains-put code k leaf [] = refl
contains-put code k leaf ((j, v) ∷ m) = ground (arith, contains-put code k leaf m, eq_iff j k)

contains-by_code :
    (stand : Stand) (policy : HealthPolicy) (code : String) (leaves : List Summary)
    (seen : List (String × Summary))
    → contains code (keys (by_code stand policy leaves seen))
      ≡ (contains code (map (λ f. f.code) (map facts_of leaves)) || contains code (keys seen))
contains-by_code stand policy code [] seen = refl
contains-by_code stand policy code (leaf ∷ leaves) seen = ground (
  arith,
  contains-by_code stand policy code leaves (put leaf.code leaf seen),
  contains-put code leaf.code leaf seen,
)

module _ (stand : Stand) (policy : HealthPolicy) (s : Tracker) (now_ms : ℕ) where
  abbrev pub node_facts : ℕ → String → Option Facts
  node_facts from code = last_facts code (said stand policy s from now_ms) none

  pub lookup-leaves_from :
      (from : ℕ) (code : String)
      → opt_facts (lookup code (leaves_from stand policy s from now_ms)) ≡ node_facts from code
  unfolding leaves_from
  lookup-leaves_from from code =
      lookup-by_code stand policy code (leaf_list stand policy s from now_ms stand.sites) []

  pub contains-leaves_from :
      (from : ℕ) (code : String)
      → contains code (keys (leaves_from stand policy s from now_ms))
        ≡ is_some (node_facts from code)
  unfolding leaves_from
  contains-leaves_from from code =
      contains-by_code stand policy code (leaf_list stand policy s from now_ms stand.sites) []
      ∙ sym (is_some-last_facts code (said stand policy s from now_ms) none)

  pub is_some-node_facts :
      (from from' : ℕ) (code : String)
      → is_some (node_facts from code) ≡ is_some (node_facts from' code)
  is_some-node_facts from from' code =
      is_some-last_facts code (said stand policy s from now_ms) none
      ∙ ap (λ codes. contains code codes || false) (said-codes stand policy s from from' now_ms)
      ∙ sym (is_some-last_facts code (said stand policy s from' now_ms) none)
