-- ===== src/Health/Verdicts.antt =====
-- What the verdicts of packages/domain/src/health.ts mean, on one device and over children.
use fieldstream.Common.{
  ℕ, ◌+◌, ◌≤◌, ◌<◌, ◌≡◌, ◌≢◌, refl, ◌↔◌, ◌⊎◌, Bool, true, false, Option, none, some, List, [], ◌∷◌,
  arith, inl, inr, if◌then◌else◌, any, all, All, Any, any-Any, all-All,
}
use fieldstream.Contracts.{HealthStatus, online, degraded, offline, unknown, status_eq}
use fieldstream.Health.{
  DeviceInput, TreeInput, Summary, Verdict, verdict_of, without_false_offline, device_verdict,
  aggregate, is_status,
}

-- The start-up grace no longer covers a device that has never answered.
abbrev pub GraceOver : DeviceInput → TreeInput → Type 0
GraceOver d i = i.started_at_ms + i.policy.startup_grace_ms ≤ i.now_ms

abbrev pub Silent : DeviceInput → Type 0
Silent d = d.last_ok_at_ms ≡ none

-- A device is offline exactly when its line is polled, its errors in a row have reached the policy's
-- limit, and it has answered before or the start-up grace is over. It is online exactly when its line
-- is polled, its errors are below the limit, and its last answer is no older than the policy allows.
-- It is degraded exactly when it is polled, below the limit and its last answer is older.
pub device_verdict-status :
    (d : DeviceInput) (i : TreeInput) (polled : Bool)
    → let v = device_verdict d i polled in
      ((v.status ≡ offline) ↔ (
        (polled ≡ true)
        × (i.policy.offline_after_errors ≤ d.consecutive_errors)
        × ((d.last_ok_at_ms ≢ none) ⊎ GraceOver d i)))
      × ((v.status ≡ online) ↔ (
          (polled ≡ true)
          × (d.consecutive_errors < i.policy.offline_after_errors)
          × (last : ℕ) × (d.last_ok_at_ms ≡ some last)
          × (i.now_ms ≤ last + i.policy.stale_after_ms)))
      × ((v.status ≡ degraded) ↔ (
          (polled ≡ true)
          × (d.consecutive_errors < i.policy.offline_after_errors)
          × (last : ℕ) × (d.last_ok_at_ms ≡ some last)
          × (last + i.policy.stale_after_ms < i.now_ms)))
unfolding device_verdict
device_verdict-status d i polled = (
  (λ h. ground arith, λ h. ground arith),
  (λ h. ground arith, λ h. ground arith),
  (λ h. ground arith, λ h. ground arith),
)

abbrev pub Has : HealthStatus → Summary → Type 0
Has s c = is_status s c ≡ true

none_online :
    (s : HealthStatus) (cs : List Summary)
    → status_eq s online ≡ false
    → all (is_status s) cs ≡ true
    → any (is_status online) cs ≡ false
none_online s [] other h = refl
none_online s (c ∷ cs) other h = ground (arith, none_online s cs)

pub aggregate-status :
    (cs : List Summary)
    → let v = aggregate cs in
      ((v.status ≡ online) ↔ Any (Has online) cs)
      × ((v.status ≡ offline) ↔ ((cs ≢ []) × All (Has offline) cs))
      × ((v.status ≡ unknown) ↔ All (Has unknown) cs)
unfolding aggregate
aggregate-status [] =
    ((λ h. cc, λ h. absurd h), (λ h. cc, λ h. absurd (h.0 refl)), (λ h. tt, λ h. refl))
aggregate-status (c ∷ cs) =
    let children = c ∷ cs in
    (
      (
        λ h. (any-Any (is_status online) children).0 (ground arith),
        λ h. ground (arith, (any-Any (is_status online) children).1 h),
      ),
      (
        λ h. (λ e. cc e, (all-All (is_status offline) children).0 (ground arith)),
        λ h. ground (
          arith,
          (all-All (is_status offline) children).1 h.1,
          none_online offline children refl,
        ),
      ),
      (
        λ h. (all-All (is_status unknown) children).0 (ground arith),
        λ h.
            ground (
              arith,
              (all-All (is_status unknown) children).1 h,
              none_online unknown children refl,
            ),
      ),
    )

without_false_offline-status :
    (v : Verdict)
    → let shown = without_false_offline v in
      (shown.status ≢ offline)
      × ((shown.status ≡ online) ↔ (v.status ≡ online))
      × ((shown.status ≡ unknown) ↔ ((v.status ≡ unknown) ⊎ (v.status ≡ offline)))
unfolding without_false_offline
without_false_offline-status v = by_status v.status refl
  where
    by_status :
        (s : HealthStatus)
        → v.status ≡ s
        → let shown = if status_eq v.status offline then verdict_of unknown v.reason else v in
          (shown.status ≢ offline)
          × ((shown.status ≡ online) ↔ (v.status ≡ online))
          × ((shown.status ≡ unknown) ↔ ((v.status ≡ unknown) ⊎ (v.status ≡ offline)))
    by_status online e = ground (arith, e)
    by_status degraded e = ground (arith, e)
    by_status offline e = ground (arith, e)
    by_status unknown e = ground (arith, e)

-- What the statuses of children add up to: online exactly when some child is online, offline exactly
-- when there are children and all are offline, and unknown exactly when all are unknown, which
-- includes no children at all. In place of it a gateway and a site show no offline: they are online
-- exactly when some child is, and unknown exactly when all children are unknown or all are offline.
pub children-status :
    (cs : List Summary)
    → let v = aggregate cs in
      let shown = without_false_offline v in
      ((v.status ≡ online) ↔ Any (Has online) cs)
      × ((v.status ≡ offline) ↔ ((cs ≢ []) × All (Has offline) cs))
      × ((v.status ≡ unknown) ↔ All (Has unknown) cs)
      × (shown.status ≢ offline)
      × ((shown.status ≡ online) ↔ Any (Has online) cs)
      × ((shown.status ≡ unknown) ↔ (All (Has unknown) cs ⊎ All (Has offline) cs))
children-status cs =
    let a = aggregate-status cs in
    let w = without_false_offline-status (aggregate cs) in
    (
      a.0,
      a.1,
      a.2,
      w.0,
      (λ h. a.0.0 (w.1.0 h), λ h. w.1.1 (a.0.1 h)),
      (to_children, λ h. elim h [ inl u ↦ w.2.1 (inl (a.2.1 u)) | inr o ↦ from_offline cs o ]),
    )
  where
    to_children :
        (without_false_offline (aggregate cs)).status ≡ unknown
        → All (Has unknown) cs ⊎ All (Has offline) cs
    to_children h = elim ((without_false_offline-status (aggregate cs)).2.0 h) [
      | inl u ↦ inl ((aggregate-status cs).2.0 u)
      | inr o ↦ inr ((aggregate-status cs).1.0 o).1
    ]

    from_offline :
        (cs : List Summary)
        → All (Has offline) cs
        → (without_false_offline (aggregate cs)).status ≡ unknown
    from_offline [] o =
        (without_false_offline-status (aggregate [])).2.1 (inl ((aggregate-status []).2.1 tt))
    from_offline (c ∷ cs) o =
        (without_false_offline-status (aggregate (c ∷ cs))).2.1
          (inr ((aggregate-status (c ∷ cs)).1.1 (λ e. cc e, o)))

-- The instant is no earlier than any success among the children.
abbrev pub Covers : Option ℕ → Summary → Type 0
Covers best c = elim c.last_ok_at as (λ o. Type 0) [
  | none ↦ Unit
  | some at ↦ (b : ℕ) × (best ≡ some b) × (at ≤ b)
]
