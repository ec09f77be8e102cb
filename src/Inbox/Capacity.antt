-- ===== src/Inbox/Capacity.antt =====
-- The load limits of agents under `claimConversation` and `routeConversation` of
-- src/inbox/inbox.service.ts.
use mathlib.Core.Option.{some-injective}
use api_whats_app.Base.{
  ℕ, ◌+◌, ◌≤◌, ◌≡◌, ◌≢◌, refl, sym, ap, ◌∙◌, Option, none, some, List, Text, arith, find, modify,
  Distinct, Distinct-modify, count_if-modify, ==_iff, Bool-cases, inl, inr, ◌==◌,
}
use mathlib.Core.Path.{subst, subst₂, ap₂}
use api_whats_app.Inbox.{
  Conversation, conversation_row, Agent, agent_row, Inbox, Actor, ok, write_audit, loads, load,
}
use api_whats_app.Inbox.Rows.{conversations-write_audit, agents-write_audit}
use api_whats_app.Inbox.Admitted.{IsAdmitted, HasRoom}
use api_whats_app.Inbox.Claimed.{claim-IsAdmitted, claim-unchanged}
use api_whats_app.Inbox.Assign.{Outcome, update_row, assign_to, claim_conversation}
use api_whats_app.Inbox.Route.{route_conversation}
use api_whats_app.Inbox.Routing.{route-IsAdmitted, route-unchanged}

abbrev pub Fits : ℕ → Option ℕ → Type 0
Fits n none = Unit
Fits n (some most) = n ≤ most

-- No conversation is listed twice, and no agent has more open conversations than its limit.
pub record AreWithin (agents : List Agent) (cs : List Conversation) : Type 0 where
  pub distinct : Distinct cs
  pub fits :
      (g : ℕ) (a : Agent) → find g agents ≡ some a → Fits (load a.tenant_id g cs) a.max_concurrent

abbrev pub WithinCapacity : Inbox → Type 0
WithinCapacity inbox = AreWithin inbox.agents inbox.conversations

Fits-suc : (n m : ℕ) (most : Option ℕ) → HasRoom n most → m ≤ 1 + n → Fits m most
Fits-suc n m none room le = tt
Fits-suc n m (some most) room le = ground (arith, room, le)

module _ (id g : ℕ) (cs : List Conversation) {c : Conversation} (d : Distinct cs)
    (found : find id cs ≡ some c) (free : c.assigned_agent_id ≡ none) where
  load-others :
      (tenant h : ℕ) → g ≢ h → load tenant h (modify id (assign_to (some g)) cs) ≡ load tenant h cs
  load-others tenant h other =
      let count = count_if-modify (loads tenant h) id (assign_to (some g)) cs {a = c} d found in
      ground (arith, count, free, other)

  load-one_more :
      (tenant : ℕ) → load tenant g (modify id (assign_to (some g)) cs) ≤ 1 + load tenant g cs
  load-one_more tenant =
      let count = count_if-modify (loads tenant g) id (assign_to (some g)) cs {a = c} d found in
      ground (arith, count, free)

assigned-WithinCapacity :
    (tenant id g : ℕ) (inbox : Inbox)
    → WithinCapacity inbox
    → IsAdmitted tenant id g inbox
    → WithinCapacity (update_row id (assign_to (some g)) inbox)
assigned-WithinCapacity tenant id g inbox w i = record {
  distinct = Distinct-modify id (assign_to (some g)) inbox.conversations (λ a. refl) w.distinct;
  fits = fits;
}
  where
    fits :
        (h : ℕ) (a : Agent)
        → find h inbox.agents ≡ some a
        → Fits
            (load a.tenant_id h (modify id (assign_to (some g)) inbox.conversations))
            a.max_concurrent
    fits h a listed = elim (Bool-cases (g == h)) [
      | inl hit ↦
          let same : g ≡ h = (==_iff _ _).0 hit in
          let one : i.worker ≡ a =
            some-injective _ _ (sym i.listed ∙ ap (λ n. find n inbox.agents) same ∙ listed) in
          let room : HasRoom (load a.tenant_id h inbox.conversations) a.max_concurrent =
            subst₂ HasRoom
              (ap₂ (λ t n. load t n inbox.conversations)
                (sym i.same_tenant ∙ ap (λ (x : Agent). x.tenant_id) one) same)
              (ap (λ (x : Agent). x.max_concurrent) one) i.room in
          Fits-suc (load a.tenant_id h inbox.conversations) _ a.max_concurrent room (
            subst
              (λ n.
                load a.tenant_id n (modify id (assign_to (some g)) inbox.conversations)
                ≤ 1 + load a.tenant_id n inbox.conversations)
              same (load-one_more id g inbox.conversations w.distinct i.found i.free a.tenant_id))
      | inr miss ↦
          subst (λ n. Fits n a.max_concurrent)
            (sym (
              load-others id g inbox.conversations w.distinct i.found i.free a.tenant_id h
                (ground (arith, miss))))
            (w.fits h a listed)
    ]

pub audited-WithinCapacity :
    (actor : Actor) (action : Text) (id : ℕ) (inbox : Inbox)
    → WithinCapacity inbox
    → WithinCapacity (write_audit actor action id inbox)
audited-WithinCapacity actor action id inbox w =
    subst₂ AreWithin (sym (agents-write_audit actor action id inbox))
      (sym (conversations-write_audit actor action id inbox)) w

-- Where no conversation is listed twice and no agent has more open conversations than its limit,
-- both are so after a successful claim.
pub claim-WithinCapacity :
    (actor : Actor) (id agent : ℕ) (inbox : Inbox) (out : Outcome)
    → claim_conversation actor id agent inbox ≡ ok out
    → WithinCapacity inbox
    → WithinCapacity out.inbox
claim-WithinCapacity actor id agent inbox out e w = elim (Bool-cases out.changed) [
  | inl changed ↦
      let (i, done) = claim-IsAdmitted actor id agent inbox out e changed in
      subst WithinCapacity (sym done) (
        audited-WithinCapacity actor _ id _
          (assigned-WithinCapacity actor.tenant_id id agent inbox w i))
  | inr kept ↦ subst WithinCapacity (claim-unchanged actor id agent inbox out e kept) w
]

-- Where no conversation is listed twice and no agent has more open conversations than its limit,
-- both are so after a successful routing.
pub route-WithinCapacity :
    (actor : Actor) (id : ℕ) (inbox : Inbox) (out : Outcome)
    → route_conversation actor id inbox ≡ ok out
    → WithinCapacity inbox
    → WithinCapacity out.inbox
route-WithinCapacity actor id inbox out e w = elim (Bool-cases out.changed) [
  | inl changed ↦
      let (g, i, done) = route-IsAdmitted actor id inbox out e changed in
      subst WithinCapacity (sym done) (
        audited-WithinCapacity actor _ id _
          (assigned-WithinCapacity actor.tenant_id id g inbox w i))
  | inr kept ↦ subst WithinCapacity (route-unchanged actor id inbox out e kept) w
]
