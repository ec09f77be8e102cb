-- ===== src/Inbox/Routed.antt =====
-- Whom `routeConversation` of src/inbox/inbox.service.ts selects.
use mathlib.Core.Path.{subst}
use mathlib.Core.Option.{some-injective}
use api_whats_app.Base.{
  ℕ, ◌≤◌, ◌≡◌, refl, sym, ap, ◌∙◌, true, not, Option, none, some, List, [], ◌∷◌, text, arith, keep,
  all, any, find, find-key, In, In-keep, keep-In, In-map, map-In, any-eq-true, any-In,
}
use api_whats_app.Inbox.{
  available, conversation_row, Agent, agent_row, Team, team_row, Inbox, unprocessable, ok, guard,
  or_fail, of_tenant, load,
}
use api_whats_app.Inbox.Inversion.{>>=-eq-ok, guard-eq-ok, guard->>-eq-ok}
use api_whats_app.Inbox.Admission.{
  RequirementRow, lock_requirements, meets, is_available, filter_agents_by_skills,
}
use api_whats_app.Inbox.Admitted.{HasRoom, is_available-eq-true}
use api_whats_app.Inbox.Assign.{is_member}
use api_whats_app.Inbox.Candidates.{
  of_agent, candidates-Joins, candidates-In, member_agent-active, limit_of-eq, select_from-In,
  select_from-le,
}
use api_whats_app.Inbox.Route.{
  Candidate, candidates, limit_of, has_room, with_capacity, select_from, least_loaded, ids_of,
  is_empty, active_team, select_agent,
}

has_room-HasRoom : (n : ℕ) (most : Option ℕ) → has_room n most ≡ true → HasRoom n most
has_room-HasRoom n none h = tt
has_room-HasRoom n (some most) h = h

HasRoom-has_room : (n : ℕ) (most : Option ℕ) → HasRoom n most → has_room n most ≡ true
HasRoom-has_room n none h = refl
HasRoom-has_room n (some most) h = h

-- The least load among some agents.
pub record IsLeast (loads : ℕ → ℕ) (ids : List ℕ) (g : ℕ) : Type 0 where
  pub among : In g ids
  pub least : (id : ℕ) → In id ids → loads g ≤ loads id

least_loaded-eq-ok :
    (loads : ℕ → ℕ) (ids : List ℕ) (g : ℕ) → least_loaded loads ids ≡ ok g → IsLeast loads ids g
least_loaded-eq-ok loads [] g e = absurd (cc)
least_loaded-eq-ok loads (x ∷ xs) g e =
    let same : select_from loads x xs ≡ g = ground (arith, e) in
    record {
      among = subst (λ n. In n (x ∷ xs)) same (select_from-In loads x xs);
      least = λ id i. subst (λ n. loads n ≤ loads id) same (select_from-le loads x xs id i);
    }

module _ (tenant id : ℕ) (inbox : Inbox) where
  abbrev pub rows : List RequirementRow
  rows = lock_requirements tenant id inbox.skills inbox.requirements

  filter-eq-ok :
      (agents skilled : List ℕ)
      → filter_agents_by_skills tenant id agents inbox ≡ ok skilled
      → (all (λ (q : RequirementRow). q.active) rows ≡ true)
        × (keep (λ agent. all (meets tenant agent inbox.proficiencies) rows) agents ≡ skilled)
  unfolding filter_agents_by_skills
  filter-eq-ok agents skilled e =
      let (_, p, e1) = >>=-eq-ok (guard _ _) _ e in (guard-eq-ok _ _ p, ground (arith, e1))

  module _ (team : ℕ) where
    abbrev pub free : List Candidate
    free =
        keep (λ (c : Candidate). is_available c.presence)
          (candidates tenant team inbox.agents inbox.members)

    abbrev pub skilled_free : List ℕ
    skilled_free = keep (λ agent. all (meets tenant agent inbox.proficiencies) rows) (ids_of free)

    abbrev pub loads_ : ℕ → ℕ
    loads_ agent = load tenant agent inbox.conversations

    pub select-eq-ok :
        (g : ℕ)
        → select_agent tenant id team inbox ≡ ok g
        → (all (λ (q : RequirementRow). q.active) rows ≡ true)
          × IsLeast loads_ (with_capacity tenant free inbox.conversations skilled_free) g
    unfolding select_agent
    select-eq-ok g e =
        let (_, p, e1) =
          >>=-eq-ok
            (or_fail (unprocessable (text "Assigned inbox team is not active in this tenant"))
              (active_team (of_tenant (λ (t : Team). t.tenant_id) tenant (find team inbox.teams))))
            _ e in
        let (_, e2) =
          guard->>-eq-ok (not (is_empty (candidates tenant team inbox.agents inbox.members)))
            (unprocessable (text "Assigned inbox team has no active routing members")) _ e1 in
        let (_, e3) =
          guard->>-eq-ok (not (is_empty free))
            (unprocessable (text "Assigned inbox team has no available routing members")) _ e2 in
        let (skilled, q, e4) =
          >>=-eq-ok (filter_agents_by_skills tenant id (ids_of free) inbox) _ e3 in
        let (_, e5) =
          guard->>-eq-ok (not (is_empty skilled))
            (unprocessable
              (text "Assigned inbox team has no available members satisfying required skills"))
            (least_loaded loads_ (with_capacity tenant free inbox.conversations skilled)) e4 in
        let (active, same) = filter-eq-ok (ids_of free) skilled q in
        (
          active,
          subst (λ ids. IsLeast loads_ (with_capacity tenant free inbox.conversations ids) g)
              (sym same) (least_loaded-eq-ok loads_ _ g e5),
        )

    module _ (g : ℕ) where
      -- A selected agent: the agent and all that is asked of it.
      pub record IsEligible : Type 0 where
        pub worker : Agent
        pub listed : find g inbox.agents ≡ some worker
        pub same_tenant : worker.tenant_id ≡ tenant
        pub active : worker.active ≡ true
        pub is_here : worker.presence ≡ available
        pub member : any (is_member tenant team g) inbox.members ≡ true
        pub met : all (meets tenant g inbox.proficiencies) rows ≡ true
        pub room : HasRoom (loads_ g) worker.max_concurrent

      limit_of-free :
          (c : Candidate) (a : Agent)
          → In c free
          → c.agent_id ≡ g
          → find g inbox.agents ≡ some a
          → limit_of g free ≡ a.max_concurrent
      limit_of-free c a i same found = limit_of-eq g a.max_concurrent free c one i same
        where
          one : (d : Candidate) → In d free → d.agent_id ≡ g → d.max_concurrent ≡ a.max_concurrent
          one d j e =
              let (k, _) = In-keep (λ (x : Candidate). is_available x.presence) d _ j in
              let (m, _, joins) = candidates-Joins tenant team inbox.agents inbox.members d k in
              let here : find g inbox.agents ≡ some joins.worker =
                ap (λ n. find n inbox.agents) (sym e) ∙ joins.listed in
              let agent : joins.worker ≡ a = some-injective _ _ (sym here ∙ found) in
              ap (λ (x : Candidate). x.max_concurrent) joins.same
              ∙ ap (λ (x : Agent). x.max_concurrent) agent

      pub selected-IsEligible :
          In g (with_capacity tenant free inbox.conversations skilled_free) → IsEligible
      unfolding with_capacity
      selected-IsEligible i =
          let (i1, roomy) = In-keep (λ x. has_room (loads_ x) (limit_of x free)) g skilled_free i in
          let (i2, met) =
            In-keep (λ agent. all (meets tenant agent inbox.proficiencies) rows) g (ids_of free)
              i1 in
          let (c, i3, same) = In-map (λ (x : Candidate). x.agent_id) g free i2 in
          let (i4, free_) = In-keep (λ (x : Candidate). is_available x.presence) c _ i3 in
          let (m, i5, joins) = candidates-Joins tenant team inbox.agents inbox.members c i4 in
          let here : find g inbox.agents ≡ some joins.worker =
            ap (λ n. find n inbox.agents) same ∙ joins.listed in
          record {
            worker = joins.worker;
            listed = here;
            same_tenant = joins.same_tenant;
            active = joins.active;
            is_here =
                ap (λ (x : Candidate). x.presence) (sym joins.same)
                ∙ is_available-eq-true c.presence free_;
            member =
                any-In (is_member tenant team g) m inbox.members i5
                  (ap (λ n. is_member tenant team n m) same ∙ joins.member);
            met = met;
            room = has_room-HasRoom _ _ (
                ap (has_room (loads_ g)) (sym (limit_of-free c joins.worker i3 (sym same) here))
                ∙ roomy);
          }

      pub eligible-In :
          IsEligible → In g (with_capacity tenant free inbox.conversations skilled_free)
      unfolding with_capacity
      eligible-In e =
          let (m, i5, member) = any-eq-true (is_member tenant team g) inbox.members e.member in
          let c = of_agent e.worker in
          let same : e.worker.id ≡ g = find-key g inbox.agents e.listed in
          let i4 : In c (candidates tenant team inbox.agents inbox.members) =
            candidates-In tenant team inbox.agents inbox.members m c i5 (
              member_agent-active tenant team g inbox.agents m e.worker member e.listed
                e.same_tenant e.active) in
          let i3 : In c free =
            keep-In (λ (x : Candidate). is_available x.presence) c _ i4
              (ap is_available e.is_here) in
          let i2 : In g (ids_of free) =
            subst (λ n. In n (ids_of free)) same
              (map-In (λ (x : Candidate). x.agent_id) c free i3) in
          let i1 : In g skilled_free =
            keep-In (λ agent. all (meets tenant agent inbox.proficiencies) rows) g _ i2 e.met in
          keep-In (λ x. has_room (loads_ x) (limit_of x free)) g skilled_free i1
            (ap (has_room (loads_ g)) (limit_of-free c e.worker i3 same e.listed)
              ∙ HasRoom-has_room _ _ e.room)
