-- ===== src/Health/Types.antt =====
-- The data of packages/domain/src/health.ts and of packages/contracts/src/messages/health.ts.
use Prim.Native.String.{String}
use fieldstream.Common.{ℕ, Bool, true, false, Option, List, [], ◌∷◌}
use fieldstream.Contracts.{HealthStatus}

-- healthReasonSchema
pub data HealthReason : Type 0 where
  ok consecutive_errors stale no_data awaiting_success startup_grace polling_disabled
        children_offline :
      HealthReason

abbrev pub reason_eq : HealthReason → HealthReason → Bool
reason_eq ok ok = true
reason_eq consecutive_errors consecutive_errors = true
reason_eq stale stale = true
reason_eq no_data no_data = true
reason_eq awaiting_success awaiting_success = true
reason_eq startup_grace startup_grace = true
reason_eq polling_disabled polling_disabled = true
reason_eq children_offline children_offline = true
reason_eq _ _ = false

-- healthNodeKindSchema
pub data NodeKind : Type 0 where
  site gateway line device : NodeKind

pub record HealthPolicy : Type 0 where
  pub offline_after_errors : ℕ
  pub stale_after_ms : ℕ
  pub startup_grace_ms : ℕ

pub record HealthSnapshot : Type 0 where
  pub status : HealthStatus
  pub since_ms : ℕ

pub record DeviceInput : Type 0 where
  pub code : String
  pub label : String
  pub last_ok_at_ms : Option ℕ
  pub consecutive_errors : ℕ
  pub prev : Option HealthSnapshot

pub record LineInput : Type 0 where
  pub code : String
  pub label : String
  pub polling_enabled : Bool
  pub devices : List DeviceInput
  pub prev : Option HealthSnapshot

pub record GatewayInput : Type 0 where
  pub code : String
  pub label : String
  pub lines : List LineInput
  pub prev : Option HealthSnapshot

pub record SiteInput : Type 0 where
  pub code : String
  pub label : String
  pub gateways : List GatewayInput
  pub prev : Option HealthSnapshot

pub record TreeInput : Type 0 where
  pub site : SiteInput
  pub policy : HealthPolicy
  pub started_at_ms : ℕ
  pub now_ms : ℕ

pub record Verdict : Type 0 where
  pub status : HealthStatus
  pub reason : HealthReason

-- `HealthNode` without its children, which `Node` adds.
pub record Summary : Type 0 where
  pub kind : NodeKind
  pub code : String
  pub label : String
  pub status : HealthStatus
  pub reason : HealthReason
  pub since : ℕ
  pub last_ok_at : Option ℕ
  pub consecutive_errors : ℕ

mutual
  pub data HealthNode : Type 0 where
    node : Summary → Children → HealthNode

  pub data Children : Type 0 where
    nil : Children
    cons : HealthNode → Children → Children

abbrev pub summary : HealthNode → Summary
summary (node s children) = s

abbrev pub summaries : Children → List Summary
summaries nil = []
summaries (cons child rest) = summary child ∷ summaries rest
