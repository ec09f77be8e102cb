-- ===== src/Inbox/Updated.antt =====
-- What `updateConversation` of src/inbox/inbox.service.ts has checked when it succeeds.
use mathlib.Core.Path.{subst₂}
use api_whats_app.Base.{
  ℕ, ◌≡◌, ◌⊎◌, sym, ap, ◌∙◌, Bool, true, false, not, ◌&&◌, Option, none, some, all, find, find-key,
  text, Bool-cases, inl, inr,
}
use api_whats_app.Inbox.{
  available, Conversation, conversation_row, Agent, agent_row, Inbox, Actor, ok, write_audit, load,
}
use api_whats_app.Inbox.Inversion.{ok-injective, >>=-eq-ok, guard->>-eq-ok}
use api_whats_app.Inbox.Admission.{
  LockedAgentCapacity, RequirementRow, lock_requirements, meets, lock_active_agent_capacity,
  assert_agent_available,
}
use api_whats_app.Inbox.Admitted.{
  HasRoom, IsMember, find_conversation-eq-ok, lock-eq-ok, assert_skills-eq-ok,
  assert_available-eq-ok, assert_capacity-eq-ok, membership-eq-ok,
}
use api_whats_app.Inbox.Assign.{
  find_conversation, update_row, team_of, assert_agent_team_membership,
}
use api_whats_app.Inbox.Update.{
  Change, absent, cleared, set_to, UpdateConversation, final, is_absent, holds, is_empty_update,
  lock_if_set, team_if_set, membership_if, skills_if_set, admission_if_new, updated_row, write_team,
  update_conversation,
}

-- The agent may have the conversation with the team: it is the tenant's and active, a member of the
-- team, if any, and every required skill is active and met. It is available and has room, unless it
-- has the conversation already.
pub record IsFit (tenant id : ℕ) (inbox : Inbox) (holder team : Option ℕ) (agent : ℕ) : Type 0 where
  pub worker : Agent
  pub listed : find agent inbox.agents ≡ some worker
  pub same_tenant : worker.tenant_id ≡ tenant
  pub active : worker.active ≡ true
  pub member : IsMember tenant agent inbox team
  pub skills_active :
      all
        (λ (q : RequirementRow). q.active)
        (lock_requirements tenant id inbox.skills inbox.requirements)
      ≡ true
  pub skills_met :
      all
        (meets tenant agent inbox.proficiencies)
        (lock_requirements tenant id inbox.skills inbox.requirements)
      ≡ true
  pub new :
      (holds holder agent ≡ true)
      ⊎ ((worker.presence ≡ available)
          × HasRoom (load tenant agent inbox.conversations) worker.max_concurrent)

-- What is asked of a change of the agent.
abbrev pub Admits : ℕ → ℕ → Inbox → Option ℕ → Option ℕ → Change → Type 0
Admits tenant id inbox holder team (set_to agent) = IsFit tenant id inbox holder team agent
Admits tenant id inbox holder team _ = Unit

module _ (tenant : ℕ) (inbox : Inbox) where
  lock_if_set-eq-ok :
      (agent : ℕ) {o : Option LockedAgentCapacity}
      → lock_if_set tenant (set_to agent) inbox ≡ ok o
      → (cap : LockedAgentCapacity) × (lock_active_agent_capacity tenant agent
            (text "Assigned inbox agent is not active in this tenant")
            inbox
          ≡ ok cap)
        × (o ≡ some cap)
  lock_if_set-eq-ok agent e =
      let (cap, p, e1) =
        >>=-eq-ok
          (lock_active_agent_capacity tenant agent
            (text "Assigned inbox agent is not active in this tenant") inbox)
          (λ c. ok (some c)) e in
      (cap, p, sym (ok-injective e1))

  admission_if_new-eq-ok :
      (holder : Option ℕ) (cap : LockedAgentCapacity) {u : Unit {0}}
      → admission_if_new tenant holder (some cap) inbox ≡ ok u
      → holds holder cap.agent_id ≡ false
      → (cap.presence ≡ available)
        × HasRoom (load tenant cap.agent_id inbox.conversations) cap.max_concurrent
  admission_if_new-eq-ok holder cap e new =
      let (_, p, e1) =
        >>=-eq-ok
          (assert_agent_available cap
            (text "Assigned inbox agent is not available for new conversations"))
          _ (rw new at e) in
      (assert_available-eq-ok cap _ p, assert_capacity-eq-ok tenant cap _ inbox e1)

  given-eq-ok :
      (agent : ℕ) (test : Bool) (team : Option ℕ) {u : Unit {0}}
      → membership_if (not (false && test)) tenant (some agent) team inbox ≡ ok u
      → IsMember tenant agent inbox team
  unfolding assert_agent_team_membership
  given-eq-ok agent test none e = tt
  given-eq-ok agent test (some t) e = membership-eq-ok tenant agent (some t) _ inbox e

  set_to-IsFit :
      (id agent : ℕ) (holder team : Option ℕ) (cap : LockedAgentCapacity) {u v w : Unit {0}}
      → lock_active_agent_capacity tenant agent
          (text "Assigned inbox agent is not active in this tenant")
          inbox
        ≡ ok cap
      → IsMember tenant agent inbox team
      → skills_if_set tenant id (set_to agent) inbox ≡ ok v
      → admission_if_new tenant holder (some cap) inbox ≡ ok w
      → IsFit tenant id inbox holder team agent
  set_to-IsFit id agent holder team cap locked member skills new =
      let (a, listed, same_tenant, active, same_id, same_presence, same_limit) =
        lock-eq-ok tenant agent _ inbox locked in
      let same : cap.agent_id ≡ agent = same_id ∙ find-key agent inbox.agents listed in
      let (skills_active, met) = assert_skills-eq-ok tenant id agent _ inbox skills in
      record {
        worker = a;
        listed = listed;
        same_tenant = same_tenant;
        active = active;
        member = member;
        skills_active = skills_active;
        skills_met = met;
        new = elim (Bool-cases (holds holder agent)) [
          | inl h ↦ inl h
          | inr h ↦
              let (here, room) =
                admission_if_new-eq-ok holder cap new (ap (holds holder) same ∙ h) in
              inr (
                sym same_presence ∙ here,
                subst₂ (λ n most. HasRoom (load tenant n inbox.conversations) most) same same_limit
                    room,
              )
        ];
      }

  checks-Admits :
      (id : ℕ) (change : Change) (test : Bool) (holder team : Option ℕ)
      {o : Option LockedAgentCapacity} {u v w : Unit {0}}
      → lock_if_set tenant change inbox ≡ ok o
      → membership_if (not (is_absent change && test)) tenant (final change holder) team inbox
        ≡ ok u
      → skills_if_set tenant id change inbox ≡ ok v
      → admission_if_new tenant holder o inbox ≡ ok w
      → Admits tenant id inbox holder team change
  checks-Admits id absent test holder team lock member skills new = tt
  checks-Admits id cleared test holder team lock member skills new = tt
  checks-Admits id (set_to agent) test holder team {u = u} {v = v} {w = w} lock member skills new =
      let (cap, locked, same) = lock_if_set-eq-ok agent lock in
      set_to-IsFit id agent holder team cap {u = u} {v = v} {w = w} locked
        (given-eq-ok agent test team member) skills
        (ap (λ o. admission_if_new tenant holder o inbox) (sym same) ∙ new)

-- A successful update: the conversation is the tenant's, a given agent was admitted, and the tables
-- are written.
pub record IsUpdated (actor : Actor) (now id : ℕ) (dto : UpdateConversation) (inbox out : Inbox)
    : Type 0 where
  pub conversation : Conversation
  pub found : find id inbox.conversations ≡ some conversation
  pub of_the_tenant : conversation.tenant_id ≡ actor.tenant_id
  pub admits :
      Admits actor.tenant_id id inbox conversation.assigned_agent_id
        (final dto.team (team_of id inbox))
        dto.agent
  pub done :
      out
      ≡ write_audit actor
          (text "inbox.conversation.updated")
          id
          (update_row id (updated_row now dto) (write_team actor.tenant_id id dto.team inbox))

-- A successful update writes the conversation, its team and the audit row of an actor with a key,
-- and nothing else. The conversation is the tenant's. An agent that it assigns is the tenant's and
-- active, a member of the team that the conversation then has, if any, and meets every required
-- skill; it is also available and has room, unless it had the conversation already.
pub update-IsUpdated :
    (actor : Actor) (now id : ℕ) (dto : UpdateConversation) (inbox out : Inbox)
    → update_conversation actor now id dto inbox ≡ ok out
    → IsUpdated actor now id dto inbox out
unfolding update_conversation
update-IsUpdated actor now id dto inbox out e =
    let (_, e0) = guard->>-eq-ok (not (is_empty_update dto)) _ _ e in
    let (c, p, e1) = >>=-eq-ok (find_conversation actor.tenant_id id inbox) _ e0 in
    let (found, own) = find_conversation-eq-ok actor.tenant_id id inbox p in
    let (capacity, q, e2) = >>=-eq-ok (lock_if_set actor.tenant_id dto.agent inbox) _ e1 in
    let (_, _, e3) = >>=-eq-ok (team_if_set actor.tenant_id dto.team inbox) _ e2 in
    let (_, r, e4) =
      >>=-eq-ok
        (membership_if (not (is_absent dto.agent && is_absent dto.team)) actor.tenant_id
          (final dto.agent c.assigned_agent_id) (final dto.team (team_of id inbox)) inbox)
        _ e3 in
    let (_, s, e5) = >>=-eq-ok (skills_if_set actor.tenant_id id dto.agent inbox) _ e4 in
    let (_, t, e6) =
      >>=-eq-ok (admission_if_new actor.tenant_id c.assigned_agent_id capacity inbox) _ e5 in
    record {
      conversation = c;
      found = found;
      of_the_tenant = own;
      admits =
          checks-Admits actor.tenant_id inbox id dto.agent (is_absent dto.team) c.assigned_agent_id
            (final dto.team (team_of id inbox)) q r s t;
      done = sym (ok-injective e6);
    }
