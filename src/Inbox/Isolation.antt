-- ===== src/Inbox/Isolation.antt =====
-- The tenants of src/inbox/inbox.service.ts: what an operation writes is of the actor's tenant.

use mathlib.Core.Path.{subst}
use mathlib.Core.Option.{some-injective}
use api_whats_app.Base.{
  ℕ, ◌≡◌, ◌≢◌, refl, sym, ap, ◌∙◌, Option, none, some, List, Text, text, arith, find, modify,
  find-modify, ◌==◌, inl, inr, ==_iff, Bool-cases,
}
use api_whats_app.Inbox.{
  Conversation, conversation_row, Inbox, Actor, Agent, agent_row, Result, ok, or_fail, of_tenant,
  write_audit, unprocessable,
}
use api_whats_app.Inbox.Inversion.{>>=-eq-ok}
use api_whats_app.Inbox.Rows.{conversations-write_audit}
use api_whats_app.Inbox.Admission.{LockedAgentCapacity, lock_active_agent_capacity}
use api_whats_app.Inbox.Admitted.{find_conversation-eq-ok}
use api_whats_app.Inbox.Claimed.{claim_free-eq-ok}
use api_whats_app.Inbox.Routing.{route_free-eq-ok}
use api_whats_app.Inbox.Assign.{
  Outcome, team_of, find_conversation, update_row, assign_to, claim_held, claim_conversation,
  release_held, release_conversation, mark_read,
}
use api_whats_app.Inbox.Route.{route_held, route_conversation}
use api_whats_app.Inbox.Update.{
  UpdateConversation, updated_row, write_team, update_conversation, Change, absent, cleared, set_to,
}
use api_whats_app.Inbox.Updated.{update-IsUpdated}
use api_whats_app.Inbox.Operations.{
  Operation, claim, release, route, read, update, inbox_of, perform,
}

-- At most one conversation of the tenant is changed, which stays the same conversation of the tenant.
data IsWrite (tenant id : ℕ) (cs ds : List Conversation) : Type 0 where
  unchanged : ds ≡ cs → IsWrite tenant id cs ds
  changed :
      (f : Conversation → Conversation)
      → ((c : Conversation) → (f c).id ≡ c.id)
      → ((c : Conversation) → (f c).tenant_id ≡ c.tenant_id)
      → ds ≡ modify id f cs
      → IsWrite tenant id cs ds

updated-id :
    (now : ℕ) (dto : UpdateConversation) (c : Conversation) → (updated_row now dto c).id ≡ c.id
unfolding updated_row
updated-id now dto c = ground arith

updated-tenant :
    (now : ℕ) (dto : UpdateConversation) (c : Conversation)
    → (updated_row now dto c).tenant_id ≡ c.tenant_id
unfolding updated_row
updated-tenant now dto c = ground arith

written :
    (tenant id : ℕ) (cs ds : List Conversation) {c : Conversation}
    → IsWrite tenant id cs ds
    → find id cs ≡ some c
    → c.tenant_id ≡ tenant
    → (j : ℕ) (d : Conversation) → find j cs ≡ some d
    → d.tenant_id ≢ tenant
    → find j ds ≡ some d
written tenant id cs ds (unchanged same) found own j d there other = ap (find j) same ∙ there
written tenant id cs ds {c} (changed f keeps_id keeps_tenant same) found own j d there other =
    elim (Bool-cases (id == j)) [
      | inl hit ↦
          let one : some c ≡ some d =
            sym found ∙ ap (λ n. find n cs) ((==_iff _ _).0 hit) ∙ there in
          absurd
            (other (ap (λ (x : Conversation). x.tenant_id) (sym (some-injective _ _ one)) ∙ own))
      | inr miss ↦ ap (find j) same ∙ ground (arith, find-modify id j f cs keeps_id, miss, there)
    ]

module _ (actor : Actor) (id : ℕ) (inbox : Inbox) where
  assigned :
      (action : Text) (agent : Option ℕ) (out : Inbox)
      → write_audit actor action id (update_row id (assign_to agent) inbox) ≡ out
      → IsWrite actor.tenant_id id inbox.conversations out.conversations
  assigned action agent out e =
      changed (assign_to agent) (λ c. refl) (λ c. refl)
        (ap (λ (i : Inbox). i.conversations) (sym e)
          ∙ conversations-write_audit actor action id (update_row id (assign_to agent) inbox))

  same_inbox :
      (out : Inbox) → inbox ≡ out → IsWrite actor.tenant_id id inbox.conversations out.conversations
  same_inbox out e = unchanged (ap (λ (i : Inbox). i.conversations) (sym e))

  release_held-IsWrite :
      (agent : ℕ) (holder : Option ℕ) (out : Outcome)
      → release_held actor id agent inbox holder ≡ ok out
      → IsWrite actor.tenant_id id inbox.conversations out.inbox.conversations
  unfolding release_held
  release_held-IsWrite agent none out e = same_inbox out.inbox (ground (arith, e))
  release_held-IsWrite agent (some holder) out e = elim (Bool-cases (holder == agent)) [
    | inl hit ↦
        assigned (text "inbox.conversation.released") none out.inbox (ground (arith, rw hit at e))
    | inr miss ↦ absurd (ground (arith, rw miss at e))
  ]

  claim_held-IsWrite :
      (agent : ℕ) (cap : LockedAgentCapacity) (holder : Option ℕ) (out : Outcome)
      → claim_held actor id agent cap inbox holder ≡ ok out
      → IsWrite actor.tenant_id id inbox.conversations out.inbox.conversations
  unfolding claim_held
  claim_held-IsWrite agent cap none out e =
      let (checks, done) = claim_free-eq-ok actor id agent cap inbox out e in
      assigned (text "inbox.conversation.claimed") (some agent) out.inbox (sym done)
  claim_held-IsWrite agent cap (some holder) out e = elim (Bool-cases (holder == agent)) [
    | inl hit ↦ same_inbox out.inbox (ground (arith, rw hit at e))
    | inr miss ↦ absurd (ground (arith, rw miss at e))
  ]

  route_held-IsWrite :
      (holder : Option ℕ) (out : Outcome)
      → route_held actor id inbox holder ≡ ok out
      → IsWrite actor.tenant_id id inbox.conversations out.inbox.conversations
  unfolding route_held
  route_held-IsWrite none out e =
      let s = route_free-eq-ok actor id inbox (team_of id inbox) out e in
      assigned (text "inbox.conversation.routed") (some s.agent) out.inbox (sym s.done)
  route_held-IsWrite (some holder) out e = same_inbox out.inbox (ground (arith, e))

  -- The conversation that the operation is about, and the write.
  abbrev IsOwnWrite : Inbox → Type 0
  IsOwnWrite out =
      (c : Conversation) × (find id inbox.conversations ≡ some c)
      × (c.tenant_id ≡ actor.tenant_id)
      × IsWrite actor.tenant_id id inbox.conversations out.conversations

  own :
      (out : Inbox) {c : Conversation}
      → find_conversation actor.tenant_id id inbox ≡ ok c
      → IsWrite actor.tenant_id id inbox.conversations out.conversations
      → IsOwnWrite out
  own out {c} p w =
      let (found, same) = find_conversation-eq-ok actor.tenant_id id inbox p in (c, found, same, w)

  inbox_of-eq-ok :
      (r : Result Outcome) {out : Inbox}
      → inbox_of r ≡ ok out
      → (o : Outcome) × (r ≡ ok o) × (o.inbox ≡ out)
  inbox_of-eq-ok r e = let (o, p, e1) = >>=-eq-ok r _ e in (o, p, ground (arith, e1))

  claim-IsOwnWrite :
      (agent : ℕ) (out : Outcome)
      → claim_conversation actor id agent inbox ≡ ok out
      → IsOwnWrite out.inbox
  unfolding claim_conversation
  claim-IsOwnWrite agent out e =
      let (c, p, e1) = >>=-eq-ok (find_conversation actor.tenant_id id inbox) _ e in
      let (cap, _, e2) =
        >>=-eq-ok (lock_active_agent_capacity actor.tenant_id agent _ inbox) _ e1 in
      own out.inbox p (claim_held-IsWrite agent cap c.assigned_agent_id out e2)

  release-IsOwnWrite :
      (agent : ℕ) (out : Outcome)
      → release_conversation actor id agent inbox ≡ ok out
      → IsOwnWrite out.inbox
  unfolding release_conversation
  release-IsOwnWrite agent out e =
      let (c, p, e1) = >>=-eq-ok (find_conversation actor.tenant_id id inbox) _ e in
      let (_, _, e2) =
        >>=-eq-ok
          (or_fail (unprocessable (text "Inbox agent is not in this tenant"))
            (of_tenant (λ (a : Agent). a.tenant_id) actor.tenant_id (find agent inbox.agents)))
          _ e1 in
      own out.inbox p (release_held-IsWrite agent c.assigned_agent_id out e2)

  route-IsOwnWrite :
      (out : Outcome) → route_conversation actor id inbox ≡ ok out → IsOwnWrite out.inbox
  unfolding route_conversation
  route-IsOwnWrite out e =
      let (c, p, e1) = >>=-eq-ok (find_conversation actor.tenant_id id inbox) _ e in
      own out.inbox p (route_held-IsWrite c.assigned_agent_id out e1)

  read-IsOwnWrite : (out : Inbox) → mark_read actor id inbox ≡ ok out → IsOwnWrite out
  unfolding mark_read
  read-IsOwnWrite out e =
      let (c, p, e1) = >>=-eq-ok (find_conversation actor.tenant_id id inbox) _ e in
      own out p (
        changed (λ (x : Conversation). record x { unread_count = 0 }) (λ x. refl) (λ x. refl)
          (ground (arith, e1)))

  conversations-write_team :
      (change : Change)
      → (write_team actor.tenant_id id change inbox).conversations ≡ inbox.conversations
  unfolding write_team
  conversations-write_team absent = refl
  conversations-write_team cleared = refl
  conversations-write_team (set_to team) = ground arith

  perform_outcome :
      (r : Result Outcome) (out : Inbox)
      → ((o : Outcome) → r ≡ ok o → IsOwnWrite o.inbox)
      → inbox_of r ≡ ok out
      → IsOwnWrite out
  perform_outcome r out own e =
      let (o, p, same) = inbox_of-eq-ok r e in subst IsOwnWrite same (own o p)

  update-IsOwnWrite :
      (now : ℕ) (dto : UpdateConversation) (out : Inbox)
      → update_conversation actor now id dto inbox ≡ ok out
      → IsOwnWrite out
  unfolding updated_row
  update-IsOwnWrite now dto out e =
      let u = update-IsUpdated actor now id dto inbox out e in
      let team = write_team actor.tenant_id id dto.team inbox in
      (
        u.conversation,
        u.found,
        u.of_the_tenant,
        changed (updated_row now dto) (λ c. updated-id now dto c) (λ c. updated-tenant now dto c)
            (ap (λ (i : Inbox). i.conversations) u.done
              ∙ conversations-write_audit actor _ id (update_row id (updated_row now dto) team)
              ∙ ap (modify id (updated_row now dto)) (conversations-write_team dto.team)),
      )

perform-IsOwnWrite :
    (actor : Actor) (id : ℕ) (op : Operation) (inbox out : Inbox)
    → perform actor id op inbox ≡ ok out
    → IsOwnWrite actor id inbox out
unfolding perform
perform-IsOwnWrite actor id (claim agent) inbox out e =
    perform_outcome actor id inbox _ out (claim-IsOwnWrite actor id inbox agent) e
perform-IsOwnWrite actor id (release agent) inbox out e =
    perform_outcome actor id inbox _ out (release-IsOwnWrite actor id inbox agent) e
perform-IsOwnWrite actor id route inbox out e =
    perform_outcome actor id inbox _ out (route-IsOwnWrite actor id inbox) e
perform-IsOwnWrite actor id read inbox out e = read-IsOwnWrite actor id inbox out e
perform-IsOwnWrite actor id (update now dto) inbox out e =
    update-IsOwnWrite actor id inbox now dto out e

-- A successful operation of an actor on a conversation (claim, release, routing, update or the
-- read mark) leaves every conversation of another tenant as it was.
pub perform-other_tenant :
    (actor : Actor) (id : ℕ) (op : Operation) (inbox out : Inbox) (j : ℕ) (d : Conversation)
    → perform actor id op inbox ≡ ok out
    → find j inbox.conversations ≡ some d
    → d.tenant_id ≢ actor.tenant_id
    → find j out.conversations ≡ some d
perform-other_tenant actor id op inbox out j d e there other =
    let (c, found, same, w) = perform-IsOwnWrite actor id op inbox out e in
    written actor.tenant_id id inbox.conversations out.conversations w found same j d there other
