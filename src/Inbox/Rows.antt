-- ===== src/Inbox/Rows.antt =====
-- What the writes of inbox.service.ts leave of the conversations.

use mathlib.Core.Option.{some-injective}
use api_whats_app.Base.{
  ℕ, ◌≡◌, refl, sym, ap, ◌∙◌, Option, some, Text, arith, find, modify, find-modify,
}
use api_whats_app.Inbox.{Conversation, conversation_row, Inbox, Actor, write_audit}
use api_whats_app.Inbox.Assign.{update_row, assign_to}

-- An audit row is all that an audit writes.
pub conversations-write_audit :
    (actor : Actor) (action : Text) (id : ℕ) (inbox : Inbox)
    → (write_audit actor action id inbox).conversations ≡ inbox.conversations
unfolding write_audit
conversations-write_audit actor action id inbox = ground arith

pub agents-write_audit :
    (actor : Actor) (action : Text) (id : ℕ) (inbox : Inbox)
    → (write_audit actor action id inbox).agents ≡ inbox.agents
unfolding write_audit
agents-write_audit actor action id inbox = ground arith

-- The agent of a conversation after it was assigned.
pub assigned-assign_to :
    (actor : Actor) (action : Text) (id : ℕ) (agent : Option ℕ) (inbox : Inbox) {c d : Conversation}
    → find id inbox.conversations ≡ some c
    → find id (write_audit actor action id (update_row id (assign_to agent) inbox)).conversations
      ≡ some d
    → d.assigned_agent_id ≡ agent
assigned-assign_to actor action id agent inbox {c} {d} found there =
    let rows = conversations-write_audit actor action id (update_row id (assign_to agent) inbox) in
    let there' : find id (modify id (assign_to agent) inbox.conversations) ≡ some d =
      ap (find id) (sym rows) ∙ there in
    let same : some (assign_to agent c) ≡ some d =
      ground (
        arith,
        find-modify id id (assign_to agent) inbox.conversations (λ a. refl),
        found,
        there',
      ) in
    ap (λ (x : Conversation). x.assigned_agent_id) (sym (some-injective _ _ same))
