-- ===== src/Inbox/Candidates.antt =====
-- The routing candidates of `routeConversation` of src/inbox/inbox.service.ts: who they are, and which
-- of them the loop at its end selects.
use mathlib.Core.Path.{subst}
use api_whats_app.Base.{
  ℕ, ◌≤◌, ◌≡◌, refl, sym, ap, ◌∙◌, ◌==◌, ◌&&◌, leb, ltb, true, false, Option, none, some, List, [],
  ◌∷◌, arith, Option-cases, Bool-cases, ◌⊎◌, inl, inr, find, find-key, In, all,
}
use api_whats_app.Inbox.{Agent, agent_row, Member, of_tenant}
use api_whats_app.Inbox.Inversion.{if_some-eq-some, of_tenant-eq-some}
use api_whats_app.Inbox.Assign.{is_member}
use api_whats_app.Inbox.Route.{
  Candidate, insert_candidate, active_candidate, member_agent, candidates, limit_of, select_from,
}

-- The candidate that an agent makes.
abbrev pub of_agent : Agent → Candidate
of_agent a = record { agent_id = a.id; presence = a.presence; max_concurrent = a.max_concurrent }

-- The membership is of the team, and its agent is the tenant's and active.
pub record Joins (tenant team : ℕ) (agents : List Agent) (m : Member) (c : Candidate) : Type 0 where
  pub member : is_member tenant team c.agent_id m ≡ true
  pub worker : Agent
  pub listed : find c.agent_id agents ≡ some worker
  pub same_tenant : worker.tenant_id ≡ tenant
  pub active : worker.active ≡ true
  pub same : c ≡ of_agent worker

module _ (c d : Candidate) where
  insert-first :
      (x : Candidate) (xs : List Candidate)
      → leb d.agent_id x.agent_id ≡ true
      → insert_candidate d (x ∷ xs) ≡ d ∷ x ∷ xs
  unfolding insert_candidate
  insert-first x xs h = rw h refl

  insert-later :
      (x : Candidate) (xs : List Candidate)
      → leb d.agent_id x.agent_id ≡ false
      → insert_candidate d (x ∷ xs) ≡ x ∷ insert_candidate d xs
  unfolding insert_candidate
  insert-later x xs h = rw h refl

  swapped :
      (x : Candidate) (xs : List Candidate) {P : Type 0}
      → (P → (c ≡ d) ⊎ In c xs)
      → (c ≡ x) ⊎ P
      → (c ≡ d) ⊎ ((c ≡ x) ⊎ In c xs)
  swapped x xs f (inl e) = inr (inl e)
  swapped x xs f (inr p) = elim (f p) [ inl e ↦ inl e | inr i ↦ inr (inr i) ]

  insert-In : (cs : List Candidate) → In c (insert_candidate d cs) → (c ≡ d) ⊎ In c cs
  unfolding insert_candidate
  insert-In [] i = i
  insert-In (x ∷ xs) i = elim (Bool-cases (leb d.agent_id x.agent_id)) [
    | inl h ↦ subst (In c) (insert-first x xs h) i
    | inr h ↦ swapped x xs (insert-In xs) (subst (In c) (insert-later x xs h) i)
  ]

  unswapped :
      (x : Candidate) (xs : List Candidate) {P : Type 0}
      → ((c ≡ d) ⊎ In c xs → P)
      → (c ≡ d) ⊎ ((c ≡ x) ⊎ In c xs)
      → (c ≡ x) ⊎ P
  unswapped x xs f (inl e) = inr (f (inl e))
  unswapped x xs f (inr (inl e)) = inl e
  unswapped x xs f (inr (inr i)) = inr (f (inr i))

  In-insert : (cs : List Candidate) → (c ≡ d) ⊎ In c cs → In c (insert_candidate d cs)
  unfolding insert_candidate
  In-insert [] i = i
  In-insert (x ∷ xs) i = elim (Bool-cases (leb d.agent_id x.agent_id)) [
    | inl h ↦ subst (In c) (sym (insert-first x xs h)) i
    | inr h ↦ subst (In c) (sym (insert-later x xs h)) (unswapped x xs (In-insert xs) i)
  ]

active_candidate-eq-some :
    (o : Option Agent) {c : Candidate}
    → active_candidate o ≡ some c
    → (a : Agent) × (o ≡ some a) × (a.active ≡ true) × (of_agent a ≡ c)
active_candidate-eq-some none h = absurd (cc)
active_candidate-eq-some (some a) h =
    let (active, same) = if_some-eq-some a.active h in (a, refl, active, same)

member_agent-Joins :
    (tenant team : ℕ) (agents : List Agent) (m : Member) (c : Candidate)
    → member_agent tenant team agents m ≡ some c
    → Joins tenant team agents m c
member_agent-Joins tenant team agents m c e =
    elim (Bool-cases (m.tenant_id == tenant && m.team_id == team)) [
      | inl here ↦
          let (a, p, active, same) =
            active_candidate-eq-some
              (of_tenant (λ (a : Agent). a.tenant_id) tenant (find m.agent_id agents))
              (rw here at e) in
          let (found, same_tenant) = of_tenant-eq-some (λ (a : Agent). a.tenant_id) tenant _ p in
          let id : m.agent_id ≡ c.agent_id =
            sym (find-key m.agent_id agents found) ∙ ap (λ (x : Candidate). x.agent_id) same in
          record {
            member = ground (arith, here, id);
            worker = a;
            listed = subst (λ n. find n agents ≡ some a) id found;
            same_tenant = same_tenant;
            active = active;
            same = sym same;
          }
      | inr there ↦ absurd (ground (arith, there, e))
    ]

module _ (tenant team : ℕ) (agents : List Agent) (m : Member) (ms : List Member) where
  candidates-none :
      member_agent tenant team agents m ≡ none
      → candidates tenant team agents (m ∷ ms) ≡ candidates tenant team agents ms
  unfolding candidates
  candidates-none e = rw (e, candidates) refl

  candidates-some :
      {c : Candidate}
      → member_agent tenant team agents m ≡ some c
      → candidates tenant team agents (m ∷ ms)
        ≡ insert_candidate c (candidates tenant team agents ms)
  unfolding candidates
  candidates-some e = rw (e, candidates) refl

-- Whoever is a candidate joins by one of the memberships.
pub candidates-Joins :
    (tenant team : ℕ) (agents : List Agent) (ms : List Member) (c : Candidate)
    → In c (candidates tenant team agents ms)
    → (m : Member) × In m ms × Joins tenant team agents m c
unfolding candidates
candidates-Joins tenant team agents [] c i = absurd i
candidates-Joins tenant team agents (m ∷ ms) c i =
    elim (Option-cases (member_agent tenant team agents m)) [
      | inl e ↦
          let (n, k, joins) =
            candidates-Joins tenant team agents ms c
              (subst (In c) (candidates-none tenant team agents m ms e) i) in
          (n, inr k, joins)
      | inr (d, e) ↦
          first d e (candidates-Joins tenant team agents ms c)
            (insert-In c d _ (subst (In c) (candidates-some tenant team agents m ms e) i))
    ]
  where
    first :
        (d : Candidate)
        → member_agent tenant team agents m ≡ some d
        → (In c (candidates tenant team agents ms)
            → (n : Member) × In n ms × Joins tenant team agents n c)
        → (c ≡ d) ⊎ In c (candidates tenant team agents ms)
        → (n : Member) × In n (m ∷ ms) × Joins tenant team agents n c
    first d e later (inl same) =
        (m, inl refl, member_agent-Joins tenant team agents m c (e ∙ ap some (sym same)))
    first d e later (inr k) = let (n, l, joins) = later k in (n, inr l, joins)

-- An active agent of the tenant with a membership of the team is a candidate.
pub candidates-In :
    (tenant team : ℕ) (agents : List Agent) (ms : List Member) (m : Member) (c : Candidate)
    → In m ms
    → member_agent tenant team agents m ≡ some c
    → In c (candidates tenant team agents ms)
unfolding candidates
candidates-In tenant team agents [] m c i e = absurd i
candidates-In tenant team agents (n ∷ ns) m c (inl same) e =
    subst (In c)
      (sym (
        candidates-some tenant team agents n ns
          (ap (member_agent tenant team agents) (sym same) ∙ e)))
      (In-insert c c _ (inl refl))
candidates-In tenant team agents (n ∷ ns) m c (inr i) e =
    let there = candidates-In tenant team agents ns m c i e in
    elim (Option-cases (member_agent tenant team agents n)) [
      | inl f ↦ subst (In c) (sym (candidates-none tenant team agents n ns f)) there
      | inr (d, f) ↦
          subst (In c) (sym (candidates-some tenant team agents n ns f))
            (In-insert c d _ (inr there))
    ]

pub member_agent-active :
    (tenant team agent : ℕ) (agents : List Agent) (m : Member) (a : Agent)
    → is_member tenant team agent m ≡ true
    → find agent agents ≡ some a
    → a.tenant_id ≡ tenant
    → a.active ≡ true
    → member_agent tenant team agents m ≡ some (of_agent a)
member_agent-active tenant team agent agents m a member listed same_tenant active =
    let id : m.agent_id ≡ agent = ground (arith, member) in
    let there : find m.agent_id agents ≡ some a = ap (λ n. find n agents) id ∙ listed in
    ground (arith, member, there, same_tenant, active)

-- The limit of a candidate, where the candidates of one id have one limit.
pub limit_of-eq :
    (id : ℕ) (most : Option ℕ) (cs : List Candidate) (c : Candidate)
    → ((d : Candidate) → In d cs → d.agent_id ≡ id → d.max_concurrent ≡ most)
    → In c cs
    → c.agent_id ≡ id
    → limit_of id cs ≡ most
unfolding limit_of
limit_of-eq id most [] c all i e = absurd i
limit_of-eq id most (x ∷ xs) c all (inl same) e =
    ground (arith, all x (inl refl), ap (λ (y : Candidate). y.agent_id) same)
limit_of-eq id most (x ∷ xs) c all (inr i) e =
    ground (arith, all x (inl refl), limit_of-eq id most xs c (λ d j. all d (inr j)) i e)

select_from-less :
    (loads : ℕ → ℕ) (best x : ℕ) (xs : List ℕ)
    → ltb (loads x) (loads best) ≡ true
    → select_from loads best (x ∷ xs) ≡ select_from loads x xs
unfolding select_from
select_from-less loads best x xs h = rw h refl

select_from-more :
    (loads : ℕ → ℕ) (best x : ℕ) (xs : List ℕ)
    → ltb (loads x) (loads best) ≡ false
    → select_from loads best (x ∷ xs) ≡ select_from loads best xs
unfolding select_from
select_from-more loads best x xs h = rw h refl

pub select_from-In :
    (loads : ℕ → ℕ) (best : ℕ) (ids : List ℕ) → In (select_from loads best ids) (best ∷ ids)
unfolding select_from
select_from-In loads best [] = inl refl
select_from-In loads best (x ∷ xs) = elim (Bool-cases (ltb (loads x) (loads best))) [
  | inl less ↦
      subst (λ n. In n (best ∷ x ∷ xs)) (sym (select_from-less loads best x xs less))
        (inr (select_from-In loads x xs))
  | inr more ↦
      subst (λ n. In n (best ∷ x ∷ xs)) (sym (select_from-more loads best x xs more))
        (widened (select_from-In loads best xs))
]
  where
    widened :
        In (select_from loads best xs) (best ∷ xs) → In (select_from loads best xs) (best ∷ x ∷ xs)
    widened (inl e) = inl e
    widened (inr i) = inr (inr i)

select_from-le-best :
    (loads : ℕ → ℕ) (best : ℕ) (ids : List ℕ) → loads (select_from loads best ids) ≤ loads best
unfolding select_from
select_from-le-best loads best [] = omega arith
select_from-le-best loads best (x ∷ xs) =
    ground (arith, select_from-le-best loads x xs, select_from-le-best loads best xs)

-- A strictly smaller load replaces the selection, so the selected load is least.
pub select_from-le :
    (loads : ℕ → ℕ) (best : ℕ) (ids : List ℕ) (id : ℕ)
    → In id (best ∷ ids)
    → loads (select_from loads best ids) ≤ loads id
unfolding select_from
select_from-le loads best ids id (inl e) = rw e (select_from-le-best loads best ids)
select_from-le loads best [] id (inr i) = elim i [ ]
select_from-le loads best (x ∷ xs) id (inr i) = elim (Bool-cases (ltb (loads x) (loads best))) [
  | inl less ↦ rw (select_from-less loads best x xs less) (select_from-le loads x xs id i)
  | inr more ↦ rw (select_from-more loads best x xs more) (
      later (select_from-le-best loads best xs) (λ j. select_from-le loads best xs id (inr j)) more
        i)
]
  where
    later :
        loads (select_from loads best xs) ≤ loads best
        → (In id xs → loads (select_from loads best xs) ≤ loads id)
        → ltb (loads x) (loads best) ≡ false
        → In id (x ∷ xs)
        → loads (select_from loads best xs) ≤ loads id
    later low rest more (inl e) = ground (arith, low, more, ap loads e)
    later low rest more (inr j) = rest j
