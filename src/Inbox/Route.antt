-- ===== src/Inbox/Route.antt =====
-- `routeConversation` of src/inbox/inbox.service.ts: an unassigned conversation of a team goes to the
-- active, available, skilled member with room whose load is least, the first of these by id.
use api_whats_app.Base.{
  ℕ, ◌==◌, leb, ltb, if◌then◌else◌, Bool, true, false, not, ◌&&◌, Option, none, some, List, [], ◌∷◌,
  map, keep, text, find,
}
use api_whats_app.Inbox.{
  Presence, Conversation, Agent, agent_row, Team, team_row, Member, Inbox, Actor, unprocessable,
  Result, ok, err, ◌>>=◌, ◌>>◌, guard, or_fail, of_tenant, write_audit, load,
}
use api_whats_app.Inbox.Admission.{is_available, filter_agents_by_skills}
use api_whats_app.Inbox.Assign.{Outcome, find_conversation, update_row, assign_to, team_of}

-- A member with its agent's columns.
pub record Candidate : Type 0 where
  pub agent_id : ℕ
  pub presence : Presence
  pub max_concurrent : Option ℕ

-- `ORDER BY membership."agentId" ASC`
unfoldable pub insert_candidate : Candidate → List Candidate → List Candidate
insert_candidate c [] = c ∷ []
insert_candidate c (d ∷ ds) =
    let later = d ∷ insert_candidate c ds in if leb c.agent_id d.agent_id then c ∷ d ∷ ds else later

-- The columns of an active agent.
abbrev pub active_candidate : Option Agent → Option Candidate
active_candidate none = none
active_candidate (some a) =
    if a.active
    then some (record { agent_id = a.id; presence = a.presence; max_concurrent = a.max_concurrent })
    else none

-- The agent of a membership, if it is active and of the tenant.
abbrev pub member_agent : ℕ → ℕ → List Agent → Member → Option Candidate
member_agent tenant team agents m =
    if m.tenant_id == tenant && m.team_id == team
    then active_candidate (of_tenant (λ (a : Agent). a.tenant_id) tenant (find m.agent_id agents))
    else none

-- The members of the team with their active agents, by agent id.
unfoldable pub candidates : ℕ → ℕ → List Agent → List Member → List Candidate
unfolding insert_candidate
candidates tenant team agents [] = []
candidates tenant team agents (m ∷ ms) =
    let rest = candidates tenant team agents ms in
    elim (member_agent tenant team agents m) [ none ↦ rest | some c ↦ insert_candidate c rest ]

-- `capacityByAgent.get(id) ?? null`
unfoldable pub limit_of : ℕ → List Candidate → Option ℕ
limit_of id [] = none
limit_of id (c ∷ cs) =
    let rest = limit_of id cs in if c.agent_id == id then c.max_concurrent else rest

abbrev pub has_room : ℕ → Option ℕ → Bool
has_room n none = true
has_room n (some most) = ltb n most

-- The candidates with room for one more conversation.
unfoldable pub with_capacity : ℕ → List Candidate → List Conversation → List ℕ → List ℕ
unfolding limit_of
with_capacity tenant cs conversations ids =
    keep (λ id. has_room (load tenant id conversations) (limit_of id cs)) ids

-- The loop that selects: a strictly smaller load replaces the selection.
unfoldable pub select_from : (ℕ → ℕ) → ℕ → List ℕ → ℕ
select_from loads best [] = best
select_from loads best (id ∷ ids) =
    select_from loads (if ltb (loads id) (loads best) then id else best) ids

abbrev pub least_loaded : (ℕ → ℕ) → List ℕ → Result ℕ
least_loaded loads [] = err (
    unprocessable
      (text "Assigned inbox team has no routing members with remaining conversation capacity"))
least_loaded loads (id ∷ ids) = ok (select_from loads id ids)

abbrev pub is_empty {ℓ} : {A : Type ℓ} → List A → Bool
is_empty [] = true
is_empty (x ∷ xs) = false

abbrev pub active_team : Option Team → Option Team
active_team none = none
active_team (some t) = if t.active then some t else none

abbrev pub ids_of : List Candidate → List ℕ
ids_of cs = map (λ c. c.agent_id) cs

-- The agent that `routeConversation` selects for a conversation of the team.
unfoldable pub select_agent : ℕ → ℕ → ℕ → Inbox → Result ℕ
unfolding candidates with_capacity select_from
select_agent tenant id team_id inbox =
    let members = candidates tenant team_id inbox.agents inbox.members in
    let free = keep (λ (c : Candidate). is_available c.presence) members in
    do
      _ ←
          or_fail (unprocessable (text "Assigned inbox team is not active in this tenant"))
            (active_team (of_tenant (λ (t : Team). t.tenant_id) tenant (find team_id inbox.teams)))
      guard (not (is_empty members))
          (unprocessable (text "Assigned inbox team has no active routing members"))
      guard (not (is_empty free))
          (unprocessable (text "Assigned inbox team has no available routing members"))
      skilled ← filter_agents_by_skills tenant id (ids_of free) inbox
      guard (not (is_empty skilled)) (
          unprocessable
            (text "Assigned inbox team has no available members satisfying required skills"))
      least_loaded (λ agent. load tenant agent inbox.conversations)
          (with_capacity tenant free inbox.conversations skilled)

-- `routeConversation` for a conversation that nobody has, of the team.
unfoldable pub route_free : Actor → ℕ → Inbox → Option ℕ → Result Outcome
unfolding select_agent
route_free actor id inbox team = do
  team_id ←
      or_fail
        (unprocessable
          (text "Conversation must be assigned to an inbox team before automatic routing"))
        team
  agent_id ← select_agent actor.tenant_id id team_id inbox
  ok (record {
    inbox =
        write_audit actor (text "inbox.conversation.routed") id
          (update_row id (assign_to (some agent_id)) inbox);
    changed = true;
  })

unfoldable pub route_held : Actor → ℕ → Inbox → Option ℕ → Result Outcome
unfolding route_free
route_held actor id inbox (some holder) = ok (record { inbox = inbox; changed = false })
route_held actor id inbox none = route_free actor id inbox (team_of id inbox)

unfoldable pub route_conversation : Actor → ℕ → Inbox → Result Outcome
unfolding route_held
route_conversation actor id inbox = do
  existing ← find_conversation actor.tenant_id id inbox
  route_held actor id inbox existing.assigned_agent_id
