-- ===== src/Inbox/Unloaded.antt =====
-- The load limits of agents under `releaseConversation` of src/inbox/inbox.service.ts.
use mathlib.Core.Path.{subst}
use api_whats_app.Base.{
  ℕ, ◌≤◌, ◌==◌, ◌≡◌, refl, ap, inl, inr, Bool-cases, true, Option, none, some, List, [], ◌∷◌, text,
  arith, find, modify, Distinct-modify,
}
use api_whats_app.Inbox.{
  Conversation, conversation_row, Agent, agent_row, Inbox, Actor, ok, or_fail, of_tenant,
  unprocessable, loads, load,
}
use api_whats_app.Inbox.Inversion.{ok-injective, >>=-eq-ok}
use api_whats_app.Inbox.Capacity.{WithinCapacity, Fits, audited-WithinCapacity}
use api_whats_app.Inbox.Assign.{
  Outcome, find_conversation, update_row, assign_to, release_held, release_conversation,
}

-- A change of one row that gives no agent a conversation: no load grows.
load-modify :
    (tenant g id : ℕ) (f : Conversation → Conversation) (cs : List Conversation)
    → ((c : Conversation) → loads tenant g (f c) ≡ true → loads tenant g c ≡ true)
    → load tenant g (modify id f cs) ≤ load tenant g cs
load-modify tenant g id f [] h = omega arith
load-modify tenant g id f (c ∷ cs) h = ground (arith, h c, load-modify tenant g id f cs h)

Fits-le : (n m : ℕ) (most : Option ℕ) → n ≤ m → Fits m most → Fits n most
Fits-le n m none le fits = tt
Fits-le n m (some most) le fits = omega (arith, le, fits)

updated-WithinCapacity :
    (id : ℕ) (f : Conversation → Conversation) (inbox : Inbox)
    → ((c : Conversation) → (f c).id ≡ c.id)
    → ((tenant g : ℕ) (c : Conversation) → loads tenant g (f c) ≡ true → loads tenant g c ≡ true)
    → WithinCapacity inbox
    → WithinCapacity (update_row id f inbox)
updated-WithinCapacity id f inbox keeps fewer w = record {
  distinct = Distinct-modify id f inbox.conversations keeps w.distinct;
  fits = λ g a listed.
      Fits-le _ _ a.max_concurrent
        (load-modify a.tenant_id g id f inbox.conversations (fewer a.tenant_id g))
        (w.fits g a listed);
}

release_held-WithinCapacity :
    (actor : Actor) (id agent : ℕ) (inbox : Inbox) (holder : Option ℕ) (out : Outcome)
    → release_held actor id agent inbox holder ≡ ok out
    → WithinCapacity inbox
    → WithinCapacity out.inbox
unfolding release_held
release_held-WithinCapacity actor id agent inbox none out e w =
    subst WithinCapacity (ap (λ (o : Outcome). o.inbox) (ok-injective e)) w
release_held-WithinCapacity actor id agent inbox (some holder) out e w =
    elim (Bool-cases (holder == agent)) [
      | inl hit ↦
          subst WithinCapacity (ap (λ (o : Outcome). o.inbox) (ok-injective (rw hit at e))) (
            audited-WithinCapacity actor _ id _ (
              updated-WithinCapacity id (assign_to none) inbox (λ c. refl)
                (λ tenant g c h. absurd (ground (arith, h))) w))
      | inr miss ↦ absurd (ground (arith, rw miss at e))
    ]

-- Where no conversation is listed twice and no agent has more open conversations than its limit,
-- both are so after a successful release.
pub release-WithinCapacity :
    (actor : Actor) (id agent : ℕ) (inbox : Inbox) (out : Outcome)
    → release_conversation actor id agent inbox ≡ ok out
    → WithinCapacity inbox
    → WithinCapacity out.inbox
unfolding release_conversation
release-WithinCapacity actor id agent inbox out e w =
    let (c, _, e1) = >>=-eq-ok (find_conversation actor.tenant_id id inbox) _ e in
    let (_, _, e2) =
      >>=-eq-ok
        (or_fail (unprocessable (text "Inbox agent is not in this tenant"))
          (of_tenant (λ (a : Agent). a.tenant_id) actor.tenant_id (find agent inbox.agents)))
        _ e1 in
    release_held-WithinCapacity actor id agent inbox c.assigned_agent_id out e2 w
