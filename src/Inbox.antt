-- ===== src/Inbox.antt =====
-- The agent inbox of src/inbox: its rows, its errors, and the queries that the operations of
-- inbox.service.ts share. A query that the source filters by tenant filters by tenant here.
mod Inversion
mod Rows
mod Admitted
mod Claimed
mod Candidates
mod Routed
mod Routing
mod Capacity
mod Unloaded
mod Released
mod Operations
mod Isolation
mod Updated
mod Examples
pub use api_whats_app.Base.Result.{
  HttpError, bad_request, not_found, unprocessable, conflict, Result, ok, err, ◌>>=◌, ◌>>◌, guard,
  or_fail,
}
pub mod Admission
pub mod Assign
pub mod Route
pub mod Update
use api_whats_app.Base.{
  ℕ, ◌==◌, if◌then◌else◌, Bool, true, false, ◌&&◌, ◌||◌, Option, none, some, List, [], ◌∷◌, ◌++◌,
  keep, count_if, Text, text, Row,
}

pub data ConversationStatus : Type 0 where
  open_ pending resolved : ConversationStatus

pub data Priority : Type 0 where
  low normal high urgent : Priority

pub data Presence : Type 0 where
  available away offline : Presence

pub record Conversation : Type 0 where
  pub id : ℕ
  pub tenant_id : ℕ
  pub status : ConversationStatus
  pub priority : Priority
  pub assigned_agent_id : Option ℕ
  pub unread_count : ℕ
  pub resolved_at : Option ℕ

instance abbrev pub conversation_row : Row Conversation
conversation_row = record { key = λ c. c.id }

pub record Agent : Type 0 where
  pub id : ℕ
  pub tenant_id : ℕ
  pub active : Bool
  pub presence : Presence
  pub max_concurrent : Option ℕ

instance abbrev pub agent_row : Row Agent
agent_row = record { key = λ a. a.id }

pub record Team : Type 0 where
  pub id : ℕ
  pub tenant_id : ℕ
  pub active : Bool

instance abbrev pub team_row : Row Team
team_row = record { key = λ t. t.id }

pub record Member : Type 0 where
  pub tenant_id : ℕ
  pub team_id : ℕ
  pub agent_id : ℕ

-- A conversation has at most one.
pub record TeamAssignment : Type 0 where
  pub tenant_id : ℕ
  pub conversation_id : ℕ
  pub team_id : ℕ

instance abbrev pub assignment_row : Row TeamAssignment
assignment_row = record { key = λ a. a.conversation_id }

pub record Skill : Type 0 where
  pub id : ℕ
  pub tenant_id : ℕ
  pub active : Bool

pub record Requirement : Type 0 where
  pub tenant_id : ℕ
  pub conversation_id : ℕ
  pub skill_id : ℕ
  pub min_level : ℕ

pub record Proficiency : Type 0 where
  pub tenant_id : ℕ
  pub agent_id : ℕ
  pub skill_id : ℕ
  pub level : ℕ

-- An audit row, without its metadata and request context.
pub record Audit : Type 0 where
  pub tenant_id : ℕ
  pub actor : ℕ
  pub action : Text
  pub entity_id : ℕ

pub record Inbox : Type 0 where
  pub conversations : List Conversation
  pub agents : List Agent
  pub teams : List Team
  pub members : List Member
  pub assignments : List TeamAssignment
  pub skills : List Skill
  pub requirements : List Requirement
  pub proficiencies : List Proficiency
  pub audits : List Audit

-- `MutationActor`
pub record Actor : Type 0 where
  pub tenant_id : ℕ
  pub api_key_id : Option ℕ

-- `findFirst({ where: { id, tenantId } })`
abbrev pub of_tenant {ℓ} : {A : Type ℓ} → (A → ℕ) → ℕ → Option A → Option A
of_tenant tenant t none = none
of_tenant tenant t (some a) = if tenant a == t then some a else none

-- `auditLogData` and `auditLog.create`: only a principal with an API key leaves a row.
unfoldable pub write_audit : Actor → Text → ℕ → Inbox → Inbox
write_audit actor action entity inbox = elim actor.api_key_id [
  | none ↦ inbox
  | some key_id ↦ record inbox {
    audits =
        inbox.audits
        ++ record {
          tenant_id = actor.tenant_id;
          actor = key_id;
          action = action;
          entity_id = entity;
        }
          ∷ [];
  }
]

abbrev pub is_id : ℕ → Option ℕ → Bool
is_id n none = false
is_id n (some m) = m == n

abbrev pub is_open : ConversationStatus → Bool
is_open open_ = true
is_open pending = true
is_open resolved = false

-- A conversation that counts towards the load of an agent: OPEN or PENDING and assigned to it.
abbrev pub loads : ℕ → ℕ → Conversation → Bool
loads tenant agent c = c.tenant_id == tenant && is_id agent c.assigned_agent_id && is_open c.status

abbrev pub load : ℕ → ℕ → List Conversation → ℕ
load tenant agent cs = count_if (loads tenant agent) cs
