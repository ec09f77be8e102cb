-- ===== src/Inbox/Assign.antt =====
-- src/inbox/inbox.service.ts: `claimConversation`, `releaseConversation`, `updateConversation` and
-- `markRead`. Each is one transaction: on an exception the tables stay as they were.
use api_whats_app.Base.{
  ℕ, ◌==◌, if◌then◌else◌, Bool, true, false, ◌&&◌, Option, none, some, any, Text, text, find,
  modify,
}
use api_whats_app.Inbox.{
  Conversation, conversation_row, Agent, agent_row, team_row, Member, assignment_row, Inbox, Actor,
  not_found, unprocessable, conflict, Result, ok, err, ◌>>=◌, ◌>>◌, guard, or_fail, of_tenant,
  write_audit,
}
use api_whats_app.Inbox.Admission.{
  LockedAgentCapacity, lock_active_agent_capacity, assert_agent_available,
  assert_agent_has_capacity, assert_agent_meets_skills,
}

-- What an operation returns: the tables and whether it changed the conversation.
pub record Outcome : Type 0 where
  pub inbox : Inbox
  pub changed : Bool

abbrev pub find_conversation : ℕ → ℕ → Inbox → Result Conversation
find_conversation tenant id inbox =
    or_fail (not_found (text "Conversation not found"))
      (of_tenant (λ (c : Conversation). c.tenant_id) tenant (find id inbox.conversations))

abbrev pub update_row : ℕ → (Conversation → Conversation) → Inbox → Inbox
update_row id f inbox = record inbox { conversations = modify id f inbox.conversations }

abbrev pub assign_to : Option ℕ → Conversation → Conversation
assign_to agent c = record c { assigned_agent_id = agent }

-- `existing.teamAssignment?.teamId`
abbrev pub team_of : ℕ → Inbox → Option ℕ
team_of id inbox = elim (find id inbox.assignments) [ none ↦ none | some a ↦ some a.team_id ]

abbrev pub is_member : ℕ → ℕ → ℕ → Member → Bool
is_member tenant team agent m = m.tenant_id == tenant && m.team_id == team && m.agent_id == agent

-- `assertAgentTeamMembership`
unfoldable pub assert_agent_team_membership : ℕ → ℕ → ℕ → Text → Inbox → Result (Unit {0})
assert_agent_team_membership tenant team agent message inbox =
    guard (any (is_member tenant team agent) inbox.members) (unprocessable message)

-- The check is made only for a conversation with a team.
abbrev pub membership_if : ℕ → Option ℕ → ℕ → Text → Inbox → Result (Unit {0})
membership_if tenant none agent message inbox = ok tt
membership_if tenant (some team) agent message inbox =
    assert_agent_team_membership tenant team agent message inbox

-- `claimConversation` for a conversation that nobody has.
unfoldable pub claim_free : Actor → ℕ → ℕ → LockedAgentCapacity → Inbox → Result Outcome
unfolding assert_agent_team_membership
claim_free actor id agent_id capacity inbox = do
  assert_agent_available capacity (text "Inbox agent is not available for new conversations")
  membership_if actor.tenant_id (team_of id inbox) agent_id
      (text "Inbox agent is not a member of the assigned team") inbox
  assert_agent_meets_skills actor.tenant_id id agent_id
      (text "Inbox agent does not satisfy conversation skill requirements") inbox
  assert_agent_has_capacity actor.tenant_id capacity
      (text "Inbox agent has no remaining conversation capacity") inbox
  ok (record {
    inbox =
        write_audit actor (text "inbox.conversation.claimed") id
          (update_row id (assign_to (some agent_id)) inbox);
    changed = true;
  })

-- The answer by who has the conversation.
unfoldable pub claim_held : Actor → ℕ → ℕ → LockedAgentCapacity → Inbox → Option ℕ → Result Outcome
unfolding claim_free
claim_held actor id agent_id capacity inbox none = claim_free actor id agent_id capacity inbox
claim_held actor id agent_id capacity inbox (some holder) =
    if holder == agent_id
    then ok (record { inbox = inbox; changed = false })
    else err (conflict (text "Conversation is already assigned to another inbox agent"))

unfoldable pub claim_conversation : Actor → ℕ → ℕ → Inbox → Result Outcome
unfolding claim_held
claim_conversation actor id agent_id inbox = do
  existing ← find_conversation actor.tenant_id id inbox
  capacity ←
      lock_active_agent_capacity actor.tenant_id agent_id
        (text "Inbox agent is not active in this tenant") inbox
  claim_held actor id agent_id capacity inbox existing.assigned_agent_id

-- The same for a release.
unfoldable pub release_held : Actor → ℕ → ℕ → Inbox → Option ℕ → Result Outcome
release_held actor id agent_id inbox none = ok (record { inbox = inbox; changed = false })
release_held actor id agent_id inbox (some holder) =
    if holder == agent_id
    then ok (record {
      inbox =
          write_audit actor (text "inbox.conversation.released") id
            (update_row id (assign_to none) inbox);
      changed = true;
    })
    else err (conflict (text "Conversation is assigned to another inbox agent"))

unfoldable pub release_conversation : Actor → ℕ → ℕ → Inbox → Result Outcome
unfolding release_held
release_conversation actor id agent_id inbox = do
  existing ← find_conversation actor.tenant_id id inbox
  _ ←
      or_fail (unprocessable (text "Inbox agent is not in this tenant"))
        (of_tenant (λ (a : Agent). a.tenant_id) actor.tenant_id (find agent_id inbox.agents))
  release_held actor id agent_id inbox existing.assigned_agent_id

unfoldable pub mark_read : Actor → ℕ → Inbox → Result Inbox
mark_read actor id inbox = do
  _ ← find_conversation actor.tenant_id id inbox
  ok (update_row id (λ (c : Conversation). record c { unread_count = 0 }) inbox)
