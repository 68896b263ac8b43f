-- ===== src/Mediation/World.antt =====
-- What core/mediation/proxy.py works on: the context of a run, what a call returns, the stores that it
-- reads and writes, and what it takes from outside. A tool's run is recorded in `executed`, with the
-- id of the audit entry before it.
use growth_operator.Approvals.Engine.{Params}
use growth_operator.Approvals.Tool.{CommunicationMode}
use growth_operator.Mediation.Limits.{RateEntry, BudgetEntry, Flag}
use growth_operator.Mediation.Manifest.{Manifest, Crypto}
use growth_operator.Prelude.{Bool, ℕ, List, Option, String}

-- A tool's output, by the key that the proxy reads.
pub record Output : Type 0 where
  pub content_class : Option String

pub record RunContext : Type 0 where
  pub org_id : ℕ
  pub run_id : ℕ
  pub instance_id : ℕ
  pub manifest : Manifest
  pub manifest_hash : List ℕ
  pub untrusted : Bool
  pub approved : List String
  pub communication_mode : CommunicationMode

pub data ErrorCode : Type 0 where
  permission_denied_manifest config_schema_violation rate_limited budget_exceeded
        provider_unavailable :
      ErrorCode

-- What a call returns, or raises: `aborted` is `RunAborted`, and `raised` is any other exception.
pub data Outcome : Type 0 where
  done : Output → ℕ → Outcome
  refused : ErrorCode → Bool → Option ℕ → Outcome
  pending : ℕ → Outcome
  aborted : ℕ → Outcome
  raised : Outcome

pub data AuditAction : Type 0 where
  denied intent : AuditAction

-- An entry that the proxy appends for `tool.{tool}:denied` or `tool.{tool}:intent`.
pub record AuditEvent : Type 0 where
  pub id : ℕ
  pub run_id : ℕ
  pub tool : String
  pub action : AuditAction

pub record Executed : Type 0 where
  pub tool : String
  pub audit_id : ℕ

-- The stores that a call reads and writes.
pub record World : Type 0 where
  pub rates : List RateEntry
  pub budgets : List BudgetEntry
  pub untrusted : List Flag
  pub violations : List (ℕ × ℕ)
  pub alerts : List (ℕ × String)
  pub audit : List AuditEvent
  pub executed : List Executed

abbrev pub ToolImpl : Type 0
ToolImpl = RunContext → Params → ℕ → Option Output

-- What the call takes from outside, all at the time of the call.
pub record Env : Type 0 where
  pub now : ℕ
  pub crypto : Crypto
  pub current : ℕ → Option (List ℕ)
  pub validates : Params → List (String × String) → Bool
  pub tier_eval : Option (RunContext → String → Params → ℕ)
  pub engine_tier : RunContext → String → Params → Option ℕ
  pub is_executable : ℕ → ℕ → Bool
  pub is_entitled : ℕ → String → Bool
  pub registry : String → Option ToolImpl
