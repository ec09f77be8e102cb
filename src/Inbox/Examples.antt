-- ===== src/Inbox/Examples.antt =====
-- An inbox of two tenants, on which the operations of src/inbox/inbox.service.ts run.
use api_whats_app.Base.{
  ℕ, ◌≤◌, ◌≡◌, refl, true, Option, none, some, [], ◌∷◌, arith, find, text, Distinct,
}
use api_whats_app.Inbox.{
  open_, pending, normal, available, Conversation, Agent, Inbox, Actor, write_audit, Result, ok,
  load, conversation_row,
}
use api_whats_app.Inbox.Admission.{
  lock_active_agent_capacity, assert_agent_available, assert_agent_meets_skills, lock_requirements,
  level_of, assert_agent_has_capacity, filter_agents_by_skills,
}
use api_whats_app.Inbox.Admitted.{IsAdmitted}
use api_whats_app.Inbox.Claimed.{claim-IsAdmitted}
use api_whats_app.Inbox.Assign.{
  Outcome, claim_conversation, release_conversation, update_row, assign_to,
  assert_agent_team_membership,
}
use api_whats_app.Inbox.Route.{route_conversation}
use api_whats_app.Inbox.Routing.{route-IsAdmitted, route-least, routed_to}
use api_whats_app.Inbox.Capacity.{WithinCapacity, claim-WithinCapacity, route-WithinCapacity}
use api_whats_app.Inbox.Released.{claim-release}
use api_whats_app.Inbox.Update.{UpdateConversation, absent, set_to, update_conversation}
use api_whats_app.Inbox.Updated.{IsUpdated, update-IsUpdated}
use api_whats_app.Inbox.Operations.{claim, perform}
use api_whats_app.Inbox.Isolation.{perform-other_tenant}

abbrev conversation : ℕ → ℕ → Option ℕ → Conversation
conversation id tenant agent = record {
  id = id;
  tenant_id = tenant;
  status = open_;
  priority = normal;
  assigned_agent_id = agent;
  unread_count = 2;
  resolved_at = none;
}

abbrev agent : ℕ → ℕ → Option ℕ → Agent
agent id tenant most = record {
  id = id;
  tenant_id = tenant;
  active = true;
  presence = available;
  max_concurrent = most;
}

-- Conversation 1 of tenant 1 is free, conversation 2 is of agent 5, and conversation 3 is of tenant 2.
abbrev inbox : Inbox
inbox = record {
  conversations = conversation 1 1 none ∷ conversation 2 1 (some 5) ∷ conversation 3 2 none ∷ [];
  agents = agent 5 1 (some 3) ∷ agent 6 1 none ∷ agent 7 2 none ∷ [];
  teams = record { id = 9; tenant_id = 1; active = true } ∷ [];
  members =
      record { tenant_id = 1; team_id = 9; agent_id = 6 }
      ∷ record { tenant_id = 1; team_id = 9; agent_id = 5 }
      ∷ [];
  assignments = record { tenant_id = 1; conversation_id = 1; team_id = 9 } ∷ [];
  skills = record { id = 4; tenant_id = 1; active = true } ∷ [];
  requirements = record { tenant_id = 1; conversation_id = 1; skill_id = 4; min_level = 2 } ∷ [];
  proficiencies =
      record { tenant_id = 1; agent_id = 5; skill_id = 4; level = 3 }
      ∷ record { tenant_id = 1; agent_id = 6; skill_id = 4; level = 2 }
      ∷ [];
  audits = [];
}

abbrev actor : Actor
actor = record { tenant_id = 1; api_key_id = some 8 }

abbrev outcome : Result Outcome → Outcome
outcome (ok o) = o
outcome _ = record { inbox = inbox; changed = true }

abbrev tables : Result Inbox → Inbox
tables (ok i) = i
tables _ = inbox

-- The claim by agent 5.
abbrev claimed : Outcome
unfolding claim_conversation lock_active_agent_capacity assert_agent_available
    assert_agent_meets_skills lock_requirements level_of assert_agent_has_capacity
claimed = outcome (claim_conversation actor 1 5 inbox)

claimed-ok : claim_conversation actor 1 5 inbox ≡ ok claimed
unfolding claim_conversation lock_active_agent_capacity assert_agent_available
    assert_agent_meets_skills lock_requirements level_of assert_agent_has_capacity
claimed-ok = refl

claimed-changed : claimed.changed ≡ true
unfolding claim_conversation lock_active_agent_capacity assert_agent_available
    assert_agent_meets_skills lock_requirements level_of assert_agent_has_capacity
claimed-changed = refl

abbrev routed : Outcome
unfolding route_conversation filter_agents_by_skills lock_requirements level_of
routed = outcome (route_conversation actor 1 inbox)

routed-ok : route_conversation actor 1 inbox ≡ ok routed
unfolding route_conversation filter_agents_by_skills lock_requirements level_of
routed-ok = refl

routed-changed : routed.changed ≡ true
unfolding route_conversation filter_agents_by_skills lock_requirements level_of
routed-changed = refl

claim-IsAdmitted_example :
    IsAdmitted 1 1 5 inbox
    × (claimed.inbox
        ≡ write_audit actor
            (text "inbox.conversation.claimed")
            1
            (update_row 1 (assign_to (some 5)) inbox))
claim-IsAdmitted_example = claim-IsAdmitted actor 1 5 inbox claimed claimed-ok claimed-changed

route-IsAdmitted_example :
    (g : ℕ) × IsAdmitted 1 1 g inbox × (routed.inbox ≡ routed_to actor 1 g inbox)
route-IsAdmitted_example = route-IsAdmitted actor 1 inbox routed routed-ok routed-changed

-- Conversation 1 in the hands of agent 6, which has no other.
abbrev routed_row : Conversation
routed_row = conversation 1 1 (some 6)

routed-row : find 1 routed.inbox.conversations ≡ some routed_row
unfolding route_conversation filter_agents_by_skills lock_requirements level_of write_audit
routed-row = refl

five-IsAdmitted : IsAdmitted 1 1 5 inbox
five-IsAdmitted = (claim-IsAdmitted actor 1 5 inbox claimed claimed-ok claimed-changed).0

route-least_example : load 1 6 inbox.conversations ≤ load 1 5 inbox.conversations
route-least_example =
    route-least actor 1 inbox routed routed_row 6 5 routed-ok routed-changed routed-row refl
      five-IsAdmitted

inbox-Distinct : Distinct inbox.conversations
inbox-Distinct = ((omega arith, (omega arith, tt)), ((omega arith, tt), (tt, tt)))

inbox-WithinCapacity : WithinCapacity inbox
inbox-WithinCapacity = record { distinct = inbox-Distinct; fits = λ g a e. ground arith }

claim-WithinCapacity_example : WithinCapacity claimed.inbox
claim-WithinCapacity_example =
    claim-WithinCapacity actor 1 5 inbox claimed claimed-ok inbox-WithinCapacity

route-WithinCapacity_example : WithinCapacity routed.inbox
route-WithinCapacity_example =
    route-WithinCapacity actor 1 inbox routed routed-ok inbox-WithinCapacity

claim-release_example :
    (back : Outcome) × (release_conversation actor 1 5 claimed.inbox ≡ ok back)
    × (back.changed ≡ true)
    × (back.inbox.conversations ≡ inbox.conversations)
claim-release_example =
    claim-release actor 1 5 inbox claimed inbox-Distinct claimed-ok claimed-changed

-- The release of conversation 2 by its agent.
abbrev released : Outcome
unfolding release_conversation
released = outcome (release_conversation actor 2 5 inbox)

released-ok : release_conversation actor 2 5 inbox ≡ ok released
unfolding release_conversation
released-ok = refl

-- The free conversation is given to agent 5 and stays open.
abbrev dto : UpdateConversation
dto = record { status = some pending; priority = none; agent = set_to 5; team = absent }

abbrev updated : Inbox
updated = tables (update_conversation actor 1000 1 dto inbox)

updated-ok : update_conversation actor 1000 1 dto inbox ≡ ok updated
unfolding update_conversation lock_active_agent_capacity assert_agent_available
    assert_agent_meets_skills lock_requirements level_of assert_agent_has_capacity
    assert_agent_team_membership
updated-ok = refl

update-IsUpdated_example : IsUpdated actor 1000 1 dto inbox updated
update-IsUpdated_example = update-IsUpdated actor 1000 1 dto inbox updated updated-ok

performed-ok : perform actor 1 (claim 5) inbox ≡ ok claimed.inbox
unfolding perform lock_active_agent_capacity assert_agent_available assert_agent_meets_skills
    lock_requirements level_of assert_agent_has_capacity
performed-ok = refl

perform-other_tenant_example : find 3 claimed.inbox.conversations ≡ some (conversation 3 2 none)
perform-other_tenant_example =
    perform-other_tenant actor 1 (claim 5) inbox claimed.inbox 3 (conversation 3 2 none)
      performed-ok refl (λ e. absurd (ground (arith, e)))
