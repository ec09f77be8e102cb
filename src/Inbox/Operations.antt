-- ===== src/Inbox/Operations.antt =====
-- The requests of src/inbox/inbox.service.ts that change a conversation, as one step of the inbox.
use api_whats_app.Base.{ℕ}
use api_whats_app.Inbox.{Inbox, Actor, Result, ok, ◌>>=◌}
use api_whats_app.Inbox.Assign.{Outcome, claim_conversation, release_conversation, mark_read}
use api_whats_app.Inbox.Route.{route_conversation}
use api_whats_app.Inbox.Update.{UpdateConversation, update_conversation}

pub data Operation : Type 0 where
  claim : ℕ → Operation
  release : ℕ → Operation
  route : Operation
  read : Operation
  update : ℕ → UpdateConversation → Operation

abbrev pub inbox_of : Result Outcome → Result Inbox
inbox_of r = r >>= λ (o : Outcome). ok o.inbox

-- The operation on a conversation, by an actor of a tenant.
unfoldable pub perform : Actor → ℕ → Operation → Inbox → Result Inbox
unfolding claim_conversation release_conversation route_conversation mark_read update_conversation
perform actor id (claim agent) inbox = inbox_of (claim_conversation actor id agent inbox)
perform actor id (release agent) inbox = inbox_of (release_conversation actor id agent inbox)
perform actor id route inbox = inbox_of (route_conversation actor id inbox)
perform actor id read inbox = mark_read actor id inbox
perform actor id (update now dto) inbox = update_conversation actor now id dto inbox
