-- ===== src/Inbox/Admission.antt =====
-- src/inbox/inbox-capacity-admission.ts and src/inbox/inbox-skill-admission.ts: whether an agent may
-- take a conversation.
use api_whats_app.Base.{
  ℕ, ◌==◌, leb, ltb, if◌then◌else◌, Bool, true, false, ◌&&◌, Option, none, some, List, [], ◌∷◌, all,
  keep, Text, text, find,
}
use api_whats_app.Inbox.{
  Presence, available, Agent, agent_row, Skill, Requirement, Proficiency, Inbox, unprocessable,
  Result, ok, ◌>>=◌, ◌>>◌, guard, or_fail, of_tenant, load,
}

pub record LockedAgentCapacity : Type 0 where
  pub agent_id : ℕ
  pub presence : Presence
  pub max_concurrent : Option ℕ

abbrev pub active_agent : Option Agent → Option Agent
active_agent none = none
active_agent (some a) = if a.active then some a else none

-- `lockActiveAgentCapacity`
unfoldable pub lock_active_agent_capacity : ℕ → ℕ → Text → Inbox → Result LockedAgentCapacity
lock_active_agent_capacity tenant agent_id inactive inbox = do
  agent ←
      or_fail (unprocessable inactive)
        (active_agent (of_tenant (λ (a : Agent). a.tenant_id) tenant (find agent_id inbox.agents)))
  ok (record {
    agent_id = agent.id;
    presence = agent.presence;
    max_concurrent = agent.max_concurrent;
  })

abbrev pub is_available : Presence → Bool
is_available available = true
is_available _ = false

-- `assertAgentAvailableForConversation`
unfoldable pub assert_agent_available : LockedAgentCapacity → Text → Result (Unit {0})
assert_agent_available agent message = guard (is_available agent.presence) (unprocessable message)

-- `assertAgentHasConversationCapacity`
unfoldable pub assert_agent_has_capacity :
    ℕ → LockedAgentCapacity → Text → Inbox → Result (Unit {0})
assert_agent_has_capacity tenant agent message inbox = elim agent.max_concurrent [
  | none ↦ ok tt
  | some most ↦
      guard (ltb (load tenant agent.agent_id inbox.conversations) most) (unprocessable message)
]

-- A requirement joined with its skill.
pub record RequirementRow : Type 0 where
  pub skill_id : ℕ
  pub min_level : ℕ
  pub active : Bool

-- The rows of the join for one requirement.
abbrev join_skills : ℕ → Requirement → List Skill → List RequirementRow
join_skills tenant q [] = []
join_skills tenant q (s ∷ ss) =
    let rest = join_skills tenant q ss in
    if s.tenant_id == tenant && s.id == q.skill_id
    then record { skill_id = q.skill_id; min_level = q.min_level; active = s.active } ∷ rest
    else rest

-- `lockRequirements`; the tables list their rows in the order of the skill ids.
unfoldable pub lock_requirements : ℕ → ℕ → List Skill → List Requirement → List RequirementRow
lock_requirements tenant conversation skills [] = []
lock_requirements tenant conversation skills (q ∷ qs) =
    let rest = lock_requirements tenant conversation skills qs in
    if q.tenant_id == tenant && q.conversation_id == conversation
    then append (join_skills tenant q skills) rest
    else rest
  where
    append : List RequirementRow → List RequirementRow → List RequirementRow
    append [] ys = ys
    append (x ∷ xs) ys = x ∷ append xs ys

-- `bySkill.get(skillId) ?? 0` over the agent's rows: a later row of a `Map` replaces an earlier one.
unfoldable pub level_of : ℕ → ℕ → ℕ → ℕ → List Proficiency → ℕ
level_of acc tenant agent skill [] = acc
level_of acc tenant agent skill (p ∷ ps) =
    level_of
      (if p.tenant_id == tenant && p.agent_id == agent && p.skill_id == skill then p.level else acc)
      tenant agent skill ps

-- An agent meets a requirement.
abbrev pub meets : ℕ → ℕ → List Proficiency → RequirementRow → Bool
meets tenant agent ps q = leb q.min_level (level_of 0 tenant agent q.skill_id ps)

abbrev inactive_skills : Text
inactive_skills = text "Conversation has inactive required inbox skills"

-- `assertAgentMeetsConversationSkills`
unfoldable pub assert_agent_meets_skills : ℕ → ℕ → ℕ → Text → Inbox → Result (Unit {0})
assert_agent_meets_skills tenant conversation agent mismatch inbox =
    let rows = lock_requirements tenant conversation inbox.skills inbox.requirements in
    do
      guard (all (λ (q : RequirementRow). q.active) rows) (unprocessable inactive_skills)
      guard (all (meets tenant agent inbox.proficiencies) rows) (unprocessable mismatch)

-- `filterAgentsByConversationSkills`
unfoldable pub filter_agents_by_skills : ℕ → ℕ → List ℕ → Inbox → Result (List ℕ)
filter_agents_by_skills tenant conversation agents inbox =
    let rows = lock_requirements tenant conversation inbox.skills inbox.requirements in
    do
      guard (all (λ (q : RequirementRow). q.active) rows) (unprocessable inactive_skills)
      ok (keep (λ agent. all (meets tenant agent inbox.proficiencies) rows) agents)
