-- ===== src/Inbox/Update.antt =====
-- `updateConversation` of src/inbox/inbox.service.ts: status, priority, agent and team of a
-- conversation are changed together, after the admission of a newly assigned agent.
use api_whats_app.Base.{
  ℕ, ◌==◌, if◌then◌else◌, Bool, true, false, not, ◌&&◌, Option, none, some, [], ◌∷◌, ◌++◌, keep,
  text, find, modify,
}
use api_whats_app.Inbox.{
  ConversationStatus, resolved, Priority, Conversation, Team, team_row, TeamAssignment,
  assignment_row, Inbox, Actor, bad_request, unprocessable, Result, ok, ◌>>=◌, ◌>>◌, guard, or_fail,
  of_tenant, write_audit,
}
use api_whats_app.Inbox.Admission.{
  LockedAgentCapacity, lock_active_agent_capacity, assert_agent_available,
  assert_agent_has_capacity, assert_agent_meets_skills,
}
use api_whats_app.Inbox.Assign.{
  find_conversation, update_row, team_of, assert_agent_team_membership,
}

-- A field that may be absent, null or set.
pub data Change : Type 0 where
  absent : Change
  cleared : Change
  set_to : ℕ → Change

-- `UpdateConversationDto`
pub record UpdateConversation : Type 0 where
  pub status : Option ConversationStatus
  pub priority : Option Priority
  pub agent : Change
  pub team : Change

-- `dto.x === undefined ? existing : dto.x`
abbrev pub final : Change → Option ℕ → Option ℕ
final absent existing = existing
final cleared existing = none
final (set_to n) existing = some n

abbrev pub is_absent : Change → Bool
is_absent absent = true
is_absent _ = false

abbrev no_status : Option ConversationStatus → Bool
no_status none = true
no_status (some s) = false

abbrev no_priority : Option Priority → Bool
no_priority none = true
no_priority (some p) = false

-- `changedFields(dto).length === 0`
abbrev pub is_empty_update : UpdateConversation → Bool
is_empty_update dto =
    no_status dto.status && no_priority dto.priority && is_absent dto.agent && is_absent dto.team

abbrev pub lock_if_set : ℕ → Change → Inbox → Result (Option LockedAgentCapacity)
lock_if_set tenant (set_to agent) inbox = do
  capacity ←
      lock_active_agent_capacity tenant agent
        (text "Assigned inbox agent is not active in this tenant") inbox
  ok (some capacity)
lock_if_set tenant _ inbox = ok none

abbrev active_team : Option Team → Option Team
active_team none = none
active_team (some t) = if t.active then some t else none

abbrev pub team_if_set : ℕ → Change → Inbox → Result (Unit {0})
team_if_set tenant (set_to team) inbox = do
  _ ←
      or_fail (unprocessable (text "Assigned inbox team is not active in this tenant"))
        (active_team (of_tenant (λ (t : Team). t.tenant_id) tenant (find team inbox.teams)))
  ok tt
team_if_set tenant _ inbox = ok tt

-- Checked when an agent or a team was given and both are set in the end.
abbrev pub membership_if : Bool → ℕ → Option ℕ → Option ℕ → Inbox → Result (Unit {0})
membership_if true tenant (some agent) (some team) inbox =
    assert_agent_team_membership tenant team agent
      (text "Assigned inbox agent is not a member of the assigned team") inbox
membership_if _ tenant _ _ inbox = ok tt

abbrev pub skills_if_set : ℕ → ℕ → Change → Inbox → Result (Unit {0})
skills_if_set tenant id (set_to agent) inbox =
    assert_agent_meets_skills tenant id agent
      (text "Assigned inbox agent does not satisfy conversation skill requirements") inbox
skills_if_set tenant id _ inbox = ok tt

abbrev pub holds : Option ℕ → ℕ → Bool
holds none agent = false
holds (some holder) agent = holder == agent

-- `newAgentAdmission`: the agent given is not the one that has the conversation.
abbrev pub admission_if_new : ℕ → Option ℕ → Option LockedAgentCapacity → Inbox → Result (Unit {0})
admission_if_new tenant holder none inbox = ok tt
admission_if_new tenant holder (some capacity) inbox =
    if holds holder capacity.agent_id then ok tt else do
      assert_agent_available capacity
          (text "Assigned inbox agent is not available for new conversations")
      assert_agent_has_capacity tenant capacity
          (text "Assigned inbox agent has no remaining conversation capacity") inbox

-- `deleteMany` or `upsert` of the team assignment.
unfoldable pub write_team : ℕ → ℕ → Change → Inbox → Inbox
write_team tenant id absent inbox = inbox
write_team tenant id cleared inbox = record inbox {
  assignments =
      keep (λ a. not (a.tenant_id == tenant && a.conversation_id == id)) inbox.assignments;
}
write_team tenant id (set_to team) inbox = elim (find id inbox.assignments) [
  | none ↦ record inbox {
    assignments =
        inbox.assignments
        ++ record { tenant_id = tenant; conversation_id = id; team_id = team } ∷ [];
  }
  | some _ ↦ record inbox {
    assignments = modify id (λ (a : TeamAssignment). record a { team_id = team }) inbox.assignments;
  }
]

abbrev is_resolved : ConversationStatus → Bool
is_resolved resolved = true
is_resolved _ = false

abbrev with_status : ℕ → Option ConversationStatus → Conversation → Conversation
with_status now none c = c
with_status now (some s) c = record c {
  status = s;
  resolved_at = if is_resolved s then some now else none;
}

abbrev with_priority : Option Priority → Conversation → Conversation
with_priority none c = c
with_priority (some p) c = record c { priority = p }

-- The columns that the update writes.
unfoldable pub updated_row : ℕ → UpdateConversation → Conversation → Conversation
updated_row now dto c =
    let c' = with_priority dto.priority (with_status now dto.status c) in
    record c' { assigned_agent_id = final dto.agent c.assigned_agent_id }

unfoldable pub update_conversation : Actor → ℕ → ℕ → UpdateConversation → Inbox → Result Inbox
unfolding write_team updated_row
update_conversation actor now id dto inbox = do
  guard (not (is_empty_update dto))
      (bad_request (text "At least one conversation field must be provided"))
  existing ← find_conversation actor.tenant_id id inbox
  capacity ← lock_if_set actor.tenant_id dto.agent inbox
  team_if_set actor.tenant_id dto.team inbox
  membership_if (not (is_absent dto.agent && is_absent dto.team)) actor.tenant_id
      (final dto.agent existing.assigned_agent_id) (final dto.team (team_of id inbox)) inbox
  skills_if_set actor.tenant_id id dto.agent inbox
  admission_if_new actor.tenant_id existing.assigned_agent_id capacity inbox
  ok (
      write_audit actor (text "inbox.conversation.updated") id
        (update_row id (updated_row now dto) (write_team actor.tenant_id id dto.team inbox)))
