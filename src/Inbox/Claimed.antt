-- ===== src/Inbox/Claimed.antt =====
-- What `claimConversation` of src/inbox/inbox.service.ts has checked when it changes a conversation.
use mathlib.Core.Path.{subst₂}
use api_whats_app.Base.{
  false, ℕ, ◌≡◌, refl, true, Option, none, some, arith, all, ap, sym, ◌∙◌, find-key, text,
}
use api_whats_app.Inbox.{
  available, conversation_row, agent_row, Inbox, Actor, ok, write_audit, load,
}
use api_whats_app.Inbox.Inversion.{ok-injective, >>=-eq-ok}
use api_whats_app.Inbox.Admission.{
  LockedAgentCapacity, RequirementRow, lock_active_agent_capacity, assert_agent_available,
  assert_agent_has_capacity, assert_agent_meets_skills, lock_requirements, meets,
}
use api_whats_app.Inbox.Assign.{
  Outcome, find_conversation, update_row, assign_to, team_of, membership_if, claim_free, claim_held,
  claim_conversation,
}
use api_whats_app.Inbox.Admitted.{
  HasRoom, IsMember, IsAdmitted, lock-eq-ok, assert_skills-eq-ok, assert_available-eq-ok,
  assert_capacity-eq-ok, membership-eq-ok, find_conversation-eq-ok,
}

-- The checks of `claimConversation` for a conversation that nobody has, one by one.
pub record IsChecked (tenant id agent : ℕ) (cap : LockedAgentCapacity) (inbox : Inbox)
    : Type 0 where
  here_ : cap.presence ≡ available
  member : IsMember tenant agent inbox (team_of id inbox)
  skills :
      (all
          (λ (q : RequirementRow). q.active)
          (lock_requirements tenant id inbox.skills inbox.requirements)
        ≡ true)
      × (all
            (meets tenant agent inbox.proficiencies)
            (lock_requirements tenant id inbox.skills inbox.requirements)
          ≡ true)
  room : HasRoom (load tenant cap.agent_id inbox.conversations) cap.max_concurrent

pub claim_free-eq-ok :
    (actor : Actor) (id agent : ℕ) (cap : LockedAgentCapacity) (inbox : Inbox) (out : Outcome)
    → claim_free actor id agent cap inbox ≡ ok out
    → IsChecked actor.tenant_id id agent cap inbox
      × (out.inbox
          ≡ write_audit actor
              (text "inbox.conversation.claimed")
              id
              (update_row id (assign_to (some agent)) inbox))
unfolding claim_free
claim_free-eq-ok actor id agent cap inbox out e =
    let (_, p, e1) = >>=-eq-ok (assert_agent_available cap _) _ e in
    let (_, q, e2) = >>=-eq-ok (membership_if _ (team_of id inbox) _ _ _) _ e1 in
    let (_, r, e3) = >>=-eq-ok (assert_agent_meets_skills _ _ _ _ _) _ e2 in
    let (_, s, e4) = >>=-eq-ok (assert_agent_has_capacity _ _ _ _) _ e3 in
    (
      record {
        here_ = assert_available-eq-ok cap _ p;
        member = membership-eq-ok _ agent (team_of id inbox) _ inbox q;
        skills = assert_skills-eq-ok _ id agent _ inbox r;
        room = assert_capacity-eq-ok _ cap _ inbox s;
      },
      ground (arith, e4),
    )

claim_held-eq-ok :
    (actor : Actor) (id agent : ℕ) (cap : LockedAgentCapacity) (inbox : Inbox) (out : Outcome)
    (holder : Option ℕ)
    → claim_held actor id agent cap inbox holder ≡ ok out
    → out.changed ≡ true
    → (holder ≡ none)
      × IsChecked actor.tenant_id id agent cap inbox
      × (out.inbox
          ≡ write_audit actor
              (text "inbox.conversation.claimed")
              id
              (update_row id (assign_to (some agent)) inbox))
unfolding claim_held
claim_held-eq-ok actor id agent cap inbox out none e changed =
    let (checks, done) = claim_free-eq-ok actor id agent cap inbox out e in (refl, checks, done)
claim_held-eq-ok actor id agent cap inbox out (some holder) e changed =
    absurd (ground (arith, e, changed))

claim_held-unchanged :
    (actor : Actor) (id agent : ℕ) (cap : LockedAgentCapacity) (inbox : Inbox) (out : Outcome)
    (holder : Option ℕ)
    → claim_held actor id agent cap inbox holder ≡ ok out
    → out.changed ≡ false
    → inbox ≡ out.inbox
unfolding claim_held claim_free
claim_held-unchanged actor id agent cap inbox out none e kept =
    let (_, _, e1) = >>=-eq-ok (assert_agent_available cap _) _ e in
    let (_, _, e2) = >>=-eq-ok (membership_if _ (team_of id inbox) _ _ _) _ e1 in
    let (_, _, e3) = >>=-eq-ok (assert_agent_meets_skills _ _ _ _ _) _ e2 in
    let (_, _, e4) = >>=-eq-ok (assert_agent_has_capacity _ _ _ _) _ e3 in
    absurd (ground (arith, ap (λ (o : Outcome). o.changed) (ok-injective e4), kept))
claim_held-unchanged actor id agent cap inbox out (some holder) e kept = ground (arith, e)

-- A claim that reports no change changes nothing.
pub claim-unchanged :
    (actor : Actor) (id agent : ℕ) (inbox : Inbox) (out : Outcome)
    → claim_conversation actor id agent inbox ≡ ok out
    → out.changed ≡ false
    → inbox ≡ out.inbox
unfolding claim_conversation
claim-unchanged actor id agent inbox out e kept =
    let (c, _, e1) = >>=-eq-ok (find_conversation actor.tenant_id id inbox) _ e in
    let (cap, _, e2) = >>=-eq-ok (lock_active_agent_capacity actor.tenant_id agent _ inbox) _ e1 in
    claim_held-unchanged actor id agent cap inbox out c.assigned_agent_id e2 kept

-- A claim that changes a conversation found it the tenant's and nobody's, and its agent the
-- tenant's, active, available, a member of the conversation's team, if any, with every required
-- skill and with room. It assigns the conversation to the agent, writes the audit row of an actor
-- with a key, and nothing else.
pub claim-IsAdmitted :
    (actor : Actor) (id agent : ℕ) (inbox : Inbox) (out : Outcome)
    → claim_conversation actor id agent inbox ≡ ok out
    → out.changed ≡ true
    → IsAdmitted actor.tenant_id id agent inbox
      × (out.inbox
          ≡ write_audit actor
              (text "inbox.conversation.claimed")
              id
              (update_row id (assign_to (some agent)) inbox))
unfolding claim_conversation
claim-IsAdmitted actor id agent inbox out e changed =
    let (c, p, e1) = >>=-eq-ok (find_conversation actor.tenant_id id inbox) _ e in
    let (cap, q, e2) = >>=-eq-ok (lock_active_agent_capacity actor.tenant_id agent _ inbox) _ e1 in
    let (free, checks, done) =
      claim_held-eq-ok actor id agent cap inbox out c.assigned_agent_id e2 changed in
    let (found, of_the_tenant) = find_conversation-eq-ok actor.tenant_id id inbox p in
    let (a, listed, same_tenant, active, same_id, same_presence, same_limit) =
      lock-eq-ok actor.tenant_id agent _ inbox q in
    let same : cap.agent_id ≡ agent = same_id ∙ find-key agent inbox.agents listed in
    (
      record {
        conversation = c;
        found = found;
        of_the_tenant = of_the_tenant;
        free = free;
        worker = a;
        listed = listed;
        same_tenant = same_tenant;
        active = active;
        is_here = sym same_presence ∙ checks.here_;
        room =
            subst₂ (λ n most. HasRoom (load actor.tenant_id n inbox.conversations) most) same
              same_limit checks.room;
        member = checks.member;
        skills_active = checks.skills.0;
        skills_met = checks.skills.1;
      },
      done,
    )
