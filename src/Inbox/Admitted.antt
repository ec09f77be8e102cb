-- ===== src/Inbox/Admitted.antt =====
-- What the admission checks of src/inbox tell when they pass.
use api_whats_app.Base.{
  ℕ, ◌≡◌, true, Option, none, some, arith, Option-cases, inl, inr, find, all, any, ap, sym, ◌∙◌,
  Text, ltb,
}
use api_whats_app.Inbox.{
  Presence, available, Conversation, conversation_row, Agent, agent_row, Inbox, ok, guard, or_fail,
  of_tenant, load, unprocessable,
}
use api_whats_app.Inbox.Inversion.{
  >>=-eq-ok, guard-eq-ok, or_fail-eq-ok, if_some-eq-some, of_tenant-eq-some,
}
use api_whats_app.Inbox.Admission.{
  LockedAgentCapacity, RequirementRow, lock_active_agent_capacity, assert_agent_available,
  assert_agent_has_capacity, assert_agent_meets_skills, lock_requirements, meets, is_available,
  active_agent,
}
use api_whats_app.Inbox.Assign.{
  find_conversation, team_of, is_member, assert_agent_team_membership, membership_if,
}

-- The load leaves room for one more conversation.
abbrev pub HasRoom : ℕ → Option ℕ → Type 0
HasRoom n none = Unit
HasRoom n (some most) = ltb n most ≡ true

-- The agent is a member of the team, if there is one.
abbrev pub IsMember : ℕ → ℕ → Inbox → Option ℕ → Type 0
IsMember tenant agent inbox none = Unit
IsMember tenant agent inbox (some team) = any (is_member tenant team agent) inbox.members ≡ true

-- The agent may take the conversation: the conversation is the tenant's and nobody's; the agent is
-- the tenant's, active, available and has room; it is a member of the conversation's team, if any;
-- every required skill is active and met.
pub record IsAdmitted (tenant id agent : ℕ) (inbox : Inbox) : Type 0 where
  pub conversation : Conversation
  pub found : find id inbox.conversations ≡ some conversation
  pub of_the_tenant : conversation.tenant_id ≡ tenant
  pub free : conversation.assigned_agent_id ≡ none
  pub worker : Agent
  pub listed : find agent inbox.agents ≡ some worker
  pub same_tenant : worker.tenant_id ≡ tenant
  pub active : worker.active ≡ true
  pub is_here : worker.presence ≡ available
  pub room : HasRoom (load tenant agent inbox.conversations) worker.max_concurrent
  pub member : IsMember tenant agent inbox (team_of id inbox)
  pub skills_active :
      all
        (λ (q : RequirementRow). q.active)
        (lock_requirements tenant id inbox.skills inbox.requirements)
      ≡ true
  pub skills_met :
      all
        (meets tenant agent inbox.proficiencies)
        (lock_requirements tenant id inbox.skills inbox.requirements)
      ≡ true

active_agent-eq-some :
    (o : Option Agent) {a : Agent} → active_agent o ≡ some a → (o ≡ some a) × (a.active ≡ true)
active_agent-eq-some none h = absurd (cc)
active_agent-eq-some (some x) h =
    let (hit, same) = if_some-eq-some x.active h in
    (ap some same, ap (λ (y : Agent). y.active) (sym same) ∙ hit)

pub lock-eq-ok :
    (tenant agent : ℕ) (message : Text) (inbox : Inbox) {cap : LockedAgentCapacity}
    → lock_active_agent_capacity tenant agent message inbox ≡ ok cap
    → (a : Agent) × (find agent inbox.agents ≡ some a)
      × (a.tenant_id ≡ tenant)
      × (a.active ≡ true)
      × (cap.agent_id ≡ a.id)
      × (cap.presence ≡ a.presence)
      × (cap.max_concurrent ≡ a.max_concurrent)
unfolding lock_active_agent_capacity
lock-eq-ok tenant agent message inbox {cap} e =
    let (a, p, e1) =
      >>=-eq-ok
        (or_fail (unprocessable message)
          (active_agent (of_tenant (λ (x : Agent). x.tenant_id) tenant (find agent inbox.agents))))
        (λ (x : Agent).
          ok (record { agent_id = x.id; presence = x.presence; max_concurrent = x.max_concurrent }))
        e in
    let (q, active) = active_agent-eq-some _ (or_fail-eq-ok _ _ p) in
    let (found, tenant_) = of_tenant-eq-some (λ (x : Agent). x.tenant_id) tenant _ q in
    (a, found, tenant_, active, ground (arith, e1), ground (arith, e1), ground (arith, e1))

pub assert_skills-eq-ok :
    (tenant id agent : ℕ) (message : Text) (inbox : Inbox) {u : Unit {0}}
    → assert_agent_meets_skills tenant id agent message inbox ≡ ok u
    → (all
          (λ (q : RequirementRow). q.active)
          (lock_requirements tenant id inbox.skills inbox.requirements)
        ≡ true)
      × (all
            (meets tenant agent inbox.proficiencies)
            (lock_requirements tenant id inbox.skills inbox.requirements)
          ≡ true)
unfolding assert_agent_meets_skills
assert_skills-eq-ok tenant id agent message inbox e =
    let (u, p, e1) = >>=-eq-ok (guard _ _) _ e in (guard-eq-ok _ _ p, guard-eq-ok _ _ e1)

pub is_available-eq-true : (p : Presence) → is_available p ≡ true → p ≡ available
is_available-eq-true p h = ground arith

pub assert_available-eq-ok :
    (cap : LockedAgentCapacity) (message : Text) {u : Unit {0}}
    → assert_agent_available cap message ≡ ok u
    → cap.presence ≡ available
unfolding assert_agent_available
assert_available-eq-ok cap message e = is_available-eq-true _ (guard-eq-ok _ _ e)

pub assert_capacity-eq-ok :
    (tenant : ℕ) (cap : LockedAgentCapacity) (message : Text) (inbox : Inbox) {u : Unit {0}}
    → assert_agent_has_capacity tenant cap message inbox ≡ ok u
    → HasRoom (load tenant cap.agent_id inbox.conversations) cap.max_concurrent
unfolding assert_agent_has_capacity
assert_capacity-eq-ok tenant cap message inbox e = elim (Option-cases cap.max_concurrent) [
  | inl none_ ↦ rw none_ tt
  | inr (most, some_) ↦ rw some_ (guard-eq-ok _ _ (rw (some_, assert_agent_has_capacity) at e))
]

pub membership-eq-ok :
    (tenant agent : ℕ) (o : Option ℕ) (message : Text) (inbox : Inbox) {u : Unit {0}}
    → membership_if tenant o agent message inbox ≡ ok u
    → IsMember tenant agent inbox o
unfolding assert_agent_team_membership
membership-eq-ok tenant agent none message inbox e = tt
membership-eq-ok tenant agent (some t) message inbox e = guard-eq-ok _ _ e

pub find_conversation-eq-ok :
    (tenant id : ℕ) (inbox : Inbox) {c : Conversation}
    → find_conversation tenant id inbox ≡ ok c
    → (find id inbox.conversations ≡ some c) × (c.tenant_id ≡ tenant)
find_conversation-eq-ok tenant id inbox e =
    of_tenant-eq-some (λ (x : Conversation). x.tenant_id) tenant _ (or_fail-eq-ok _ _ e)
