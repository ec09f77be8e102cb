-- ===== src/Inbox/Released.antt =====
-- A claim and a release of src/inbox/inbox.service.ts, one after the other.

use api_whats_app.Base.{
  ℕ, ◌≡◌, refl, sym, ap, ◌∙◌, true, none, some, text, arith, find, modify, find-modify, Distinct,
  modify-modify,
}
use api_whats_app.Inbox.{
  Conversation, conversation_row, Inbox, Actor, Agent, agent_row, ok, write_audit,
}
use api_whats_app.Inbox.Rows.{conversations-write_audit, agents-write_audit}
use api_whats_app.Inbox.Claimed.{claim-IsAdmitted}
use api_whats_app.Inbox.Assign.{
  Outcome, update_row, assign_to, claim_conversation, release_conversation,
}

-- A release by the agent that has the conversation.
release-held :
    (actor : Actor) (id agent : ℕ) (inbox : Inbox) {c : Conversation} {a : Agent}
    → find id inbox.conversations ≡ some c
    → c.tenant_id ≡ actor.tenant_id
    → c.assigned_agent_id ≡ some agent
    → find agent inbox.agents ≡ some a
    → a.tenant_id ≡ actor.tenant_id
    → release_conversation actor id agent inbox
      ≡ ok (record {
        inbox =
            write_audit actor
              (text "inbox.conversation.released")
              id
              (update_row id (assign_to none) inbox);
        changed = true;
      })
unfolding release_conversation
release-held actor id agent inbox found own held listed tenant =
    ground (arith, found, own, held, listed, tenant)

unassign-assign :
    (id agent : ℕ) (inbox : Inbox) {c : Conversation}
    → Distinct inbox.conversations
    → find id inbox.conversations ≡ some c
    → c.assigned_agent_id ≡ none
    → modify id (assign_to none) (modify id (assign_to (some agent)) inbox.conversations)
      ≡ inbox.conversations
unassign-assign id agent inbox {c} d found free =
    modify-modify id (assign_to (some agent)) (assign_to none) inbox.conversations {a = c}
      (λ x. refl) d found (ap (λ n. record c { assigned_agent_id = n }) (sym free))

-- Where no conversation is listed twice: after a claim that changed a conversation, a release by
-- the same agent succeeds, and then all the conversations are as they were before the claim.
pub claim-release :
    (actor : Actor) (id agent : ℕ) (inbox : Inbox) (out : Outcome)
    → Distinct inbox.conversations
    → claim_conversation actor id agent inbox ≡ ok out
    → out.changed ≡ true
    → (back : Outcome) × (release_conversation actor id agent out.inbox ≡ ok back)
      × (back.changed ≡ true)
      × (back.inbox.conversations ≡ inbox.conversations)
claim-release actor id agent inbox out d e changed =
    let (i, done) = claim-IsAdmitted actor id agent inbox out e changed in
    let claimed = update_row id (assign_to (some agent)) inbox in
    let rows : out.inbox.conversations ≡ claimed.conversations =
      ap (λ (x : Inbox). x.conversations) done ∙ conversations-write_audit actor _ id claimed in
    let agents : out.inbox.agents ≡ inbox.agents =
      ap (λ (x : Inbox). x.agents) done ∙ agents-write_audit actor _ id claimed in
    let there : find id out.inbox.conversations ≡ some (assign_to (some agent) i.conversation) =
      ap (find id) rows
      ∙ ground (
        arith,
        find-modify id id (assign_to (some agent)) inbox.conversations (λ x. refl),
        i.found,
      ) in
    (
      _,
      release-held actor id agent out.inbox there i.of_the_tenant refl
          (ap (find agent) agents ∙ i.listed) i.same_tenant,
      refl,
      conversations-write_audit actor _ id (update_row id (assign_to none) out.inbox)
          ∙ ap (modify id (assign_to none)) rows
          ∙ unassign-assign id agent inbox d i.found i.free,
    )
