-- ===== src/Inbox/Routing.antt =====
-- `routeConversation` of src/inbox/inbox.service.ts: whom it admits, and that the load is least.

use api_whats_app.Base.{
  ℕ, ◌≤◌, ◌≡◌, refl, sym, ap, ◌∙◌, true, false, Option, none, some, text, arith, find,
}
use mathlib.Core.Path.{subst}
use mathlib.Core.Option.{some-injective}
use api_whats_app.Inbox.{
  Conversation, conversation_row, Inbox, Actor, unprocessable, ok, or_fail, write_audit, load,
}
use api_whats_app.Inbox.Inversion.{ok-injective, >>=-eq-ok, or_fail-eq-ok}
use api_whats_app.Inbox.Rows.{assigned-assign_to}
use api_whats_app.Inbox.Admitted.{IsAdmitted, IsMember, find_conversation-eq-ok}
use api_whats_app.Inbox.Assign.{Outcome, find_conversation, update_row, assign_to, team_of}
use api_whats_app.Inbox.Route.{select_agent, route_free, route_held, route_conversation}
use api_whats_app.Inbox.Routed.{select-eq-ok, selected-IsEligible, eligible-In}

-- The tables after the conversation was routed to the agent.
abbrev pub routed_to : Actor → ℕ → ℕ → Inbox → Inbox
routed_to actor id g inbox =
    write_audit actor (text "inbox.conversation.routed") id
      (update_row id (assign_to (some g)) inbox)

-- The agent that was selected for a conversation of a team.
pub record IsSelected (actor : Actor) (id : ℕ) (inbox : Inbox) (team : Option ℕ) (out : Outcome)
    : Type 0 where
  pub team_id : ℕ
  pub has_team : team ≡ some team_id
  pub agent : ℕ
  pub selected : select_agent actor.tenant_id id team_id inbox ≡ ok agent
  pub done : out.inbox ≡ routed_to actor id agent inbox

pub route_free-eq-ok :
    (actor : Actor) (id : ℕ) (inbox : Inbox) (team : Option ℕ) (out : Outcome)
    → route_free actor id inbox team ≡ ok out
    → IsSelected actor id inbox team out
unfolding route_free
route_free-eq-ok actor id inbox team out e =
    let (t, p, e1) =
      >>=-eq-ok
        (or_fail
          (unprocessable
            (text "Conversation must be assigned to an inbox team before automatic routing"))
          team)
        _ e in
    let (g, q, e2) = >>=-eq-ok (select_agent actor.tenant_id id t inbox) _ e1 in
    record {
      team_id = t;
      has_team = or_fail-eq-ok _ team p;
      agent = g;
      selected = q;
      done = ground (arith, e2);
    }

route_held-eq-ok :
    (actor : Actor) (id : ℕ) (inbox : Inbox) (holder : Option ℕ) (out : Outcome)
    → route_held actor id inbox holder ≡ ok out
    → out.changed ≡ true
    → (holder ≡ none) × IsSelected actor id inbox (team_of id inbox) out
unfolding route_held
route_held-eq-ok actor id inbox none out e changed =
    (refl, route_free-eq-ok actor id inbox (team_of id inbox) out e)
route_held-eq-ok actor id inbox (some h) out e changed = absurd (ground (arith, e, changed))

record IsRouted (actor : Actor) (id : ℕ) (inbox : Inbox) (out : Outcome) : Type 0 where
  conversation : Conversation
  found : find id inbox.conversations ≡ some conversation
  of_the_tenant : conversation.tenant_id ≡ actor.tenant_id
  free : conversation.assigned_agent_id ≡ none
  choice : IsSelected actor id inbox (team_of id inbox) out

route-IsRouted :
    (actor : Actor) (id : ℕ) (inbox : Inbox) (out : Outcome)
    → route_conversation actor id inbox ≡ ok out
    → out.changed ≡ true
    → IsRouted actor id inbox out
unfolding route_conversation
route-IsRouted actor id inbox out e changed =
    let (c, p, e1) = >>=-eq-ok (find_conversation actor.tenant_id id inbox) _ e in
    let (free, s) = route_held-eq-ok actor id inbox c.assigned_agent_id out e1 changed in
    let (found, same) = find_conversation-eq-ok actor.tenant_id id inbox p in
    record { conversation = c; found = found; of_the_tenant = same; free = free; choice = s }

route_held-unchanged :
    (actor : Actor) (id : ℕ) (inbox : Inbox) (holder : Option ℕ) (out : Outcome)
    → route_held actor id inbox holder ≡ ok out
    → out.changed ≡ false
    → inbox ≡ out.inbox
unfolding route_held route_free
route_held-unchanged actor id inbox none out e kept =
    let (t, _, e1) = >>=-eq-ok (or_fail _ (team_of id inbox)) _ e in
    let (g, _, e2) = >>=-eq-ok (select_agent actor.tenant_id id t inbox) _ e1 in
    absurd (ground (arith, ap (λ (o : Outcome). o.changed) (ok-injective e2), kept))
route_held-unchanged actor id inbox (some holder) out e kept = ground (arith, e)

-- A routing that reports no change changes nothing.
pub route-unchanged :
    (actor : Actor) (id : ℕ) (inbox : Inbox) (out : Outcome)
    → route_conversation actor id inbox ≡ ok out
    → out.changed ≡ false
    → inbox ≡ out.inbox
unfolding route_conversation
route-unchanged actor id inbox out e kept =
    let (c, _, e1) = >>=-eq-ok (find_conversation actor.tenant_id id inbox) _ e in
    route_held-unchanged actor id inbox c.assigned_agent_id out e1 kept

-- A routing that changes a conversation assigns it to an agent that may take it: one that is the
-- tenant's, active, available, a member of the conversation's team, with every required skill and
-- with room. It also writes the audit row of an actor with a key, and nothing else.
pub route-IsAdmitted :
    (actor : Actor) (id : ℕ) (inbox : Inbox) (out : Outcome)
    → route_conversation actor id inbox ≡ ok out
    → out.changed ≡ true
    → (g : ℕ) × IsAdmitted actor.tenant_id id g inbox × (out.inbox ≡ routed_to actor id g inbox)
route-IsAdmitted actor id inbox out e changed =
    let r = route-IsRouted actor id inbox out e changed in
    let s = r.choice in
    let (active, best) = select-eq-ok actor.tenant_id id inbox s.team_id s.agent s.selected in
    let g = selected-IsEligible actor.tenant_id id inbox s.team_id s.agent best.among in
    (
      s.agent,
      record {
        conversation = r.conversation;
        found = r.found;
        of_the_tenant = r.of_the_tenant;
        free = r.free;
        worker = g.worker;
        listed = g.listed;
        same_tenant = g.same_tenant;
        active = g.active;
        is_here = g.is_here;
        room = g.room;
        member = subst (IsMember actor.tenant_id s.agent inbox) (sym s.has_team) g.member;
        skills_active = active;
        skills_met = g.met;
      },
      s.done,
    )

-- The agent that has the conversation after a routing that changed it had no more open
-- conversations than any agent that might have taken it.
pub route-least :
    (actor : Actor) (id : ℕ) (inbox : Inbox) (out : Outcome) (after : Conversation) (g h : ℕ)
    → route_conversation actor id inbox ≡ ok out
    → out.changed ≡ true
    → find id out.inbox.conversations ≡ some after
    → after.assigned_agent_id ≡ some g
    → IsAdmitted actor.tenant_id id h inbox
    → load actor.tenant_id g inbox.conversations ≤ load actor.tenant_id h inbox.conversations
route-least actor id inbox out after g h e changed there holds other =
    let r = route-IsRouted actor id inbox out e changed in
    let s = r.choice in
    let (active, best) = select-eq-ok actor.tenant_id id inbox s.team_id s.agent s.selected in
    let i = eligible-In actor.tenant_id id inbox s.team_id h (record {
      worker = other.worker;
      listed = other.listed;
      same_tenant = other.same_tenant;
      active = other.active;
      is_here = other.is_here;
      member = subst (IsMember actor.tenant_id h inbox) s.has_team other.member;
      met = other.skills_met;
      room = other.room;
    }) in
    let same : s.agent ≡ g = some-injective _ _ (
      sym (
        assigned-assign_to actor (text "inbox.conversation.routed") id (some s.agent) inbox r.found
          (ap (λ (i : Inbox). find id i.conversations) (sym s.done) ∙ there))
      ∙ holds) in
    subst
      (λ n. load actor.tenant_id n inbox.conversations ≤ load actor.tenant_id h inbox.conversations)
      same (best.least h i)
