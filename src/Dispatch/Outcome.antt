-- ===== src/Dispatch/Outcome.antt =====
-- How `dispatch` of message-dispatcher.service.ts leaves the row of a message that it claimed.
use mathlib.Core.Path.{subst, sym}
use api_whats_app.Base.{ℕ, ◌+◌, ◌≡◌, refl, true, Option, none, some, List, Text, arith, find-key}
use api_whats_app.Base.Json.{Json}
use api_whats_app.Message.{Message, message_row, StatusEvent, submitted, queued, failed, Db}
use api_whats_app.Message.Store.{find_message, update_message, find_message-update}
use api_whats_app.Dispatch.{
  Job, Action, ack, retry, defer, dead, Processing, World, claimable, claimed_row, mark_failed,
  mark_retryable_failure, mark_submitted, failed_row, retryable_row, submitted_row,
  dispatch_claimed, dispatch,
}
use api_whats_app.Dispatch.Branches.{dispatch_claimed-elim}
use api_whats_app.Dispatch.Lease.{claim_message_accepted}

-- The status that goes with each answer to the queue.
abbrev pub Ends : Action → Message → Type 0
Ends ack m = m.status ≡ submitted
Ends retry m = m.status ≡ queued
Ends dead m = m.status ≡ failed
Ends defer m = ⊥

-- The row is there, holds no lease, has the status that the answer promises, and counts the attempts.
pub record IsFinished (id attempts : ℕ) (action : Action) (db : Db) : Type 0 where
  pub row : Message
  pub there : find_message id db ≡ some row
  pub ends : Ends action row
  pub released : row.processing_lease_until ≡ none
  pub counted : row.attempt_count ≡ attempts

-- The same of what `dispatch` returns.
abbrev pub Finishes : ℕ → ℕ → Db × Processing → Type 0
Finishes id attempts r = IsFinished id attempts r.1.action r.0

module _ {m : Message} (db : Db) (there : find_message m.id db ≡ some m) where
  update-IsFinished :
      (action : Action) (f : Message → Message) (events : List StatusEvent)
      → ((x : Message) → (f x).id ≡ x.id)
      → Ends action (f m)
      → (f m).processing_lease_until ≡ none
      → (f m).attempt_count ≡ m.attempt_count
      → IsFinished m.id m.attempt_count action
          (record { messages = (update_message m.id f db).messages; events = events })
  update-IsFinished action f events keeps ends released counted = record {
    row = f m;
    there = ground (arith, there, find_message-update m.id m.id f db keeps);
    ends = ends;
    released = released;
    counted = counted;
  }

  mark_failed-IsFinished :
      (now : ℕ) (code message : Text) (response : Option Json)
      → IsFinished m.id m.attempt_count dead (mark_failed now m.id code message response db)
  unfolding mark_failed
  mark_failed-IsFinished now code message response =
      update-IsFinished dead (failed_row now code message response) _ (λ _. refl) refl refl refl

  mark_retryable_failure-IsFinished :
      (code message : Text) (attempt : ℕ) (response : Option Json)
      → IsFinished m.id m.attempt_count retry
          (mark_retryable_failure m.id code message attempt response db)
  unfolding mark_retryable_failure
  mark_retryable_failure-IsFinished code message attempt response =
      update-IsFinished retry (retryable_row code message) _ (λ _. refl) refl refl refl

  mark_submitted-IsFinished :
      (now : ℕ) (provider : Text) (response : Option Json)
      → IsFinished m.id m.attempt_count ack (mark_submitted now m.id provider response db)
  unfolding mark_submitted
  mark_submitted-IsFinished now provider response =
      update-IsFinished ack (submitted_row now provider response) _ (λ _. refl) refl refl refl

dispatch_claimed-Finishes :
    (w : World) (job : Job) (m : Message) (db : Db)
    → find_message m.id db ≡ some m
    → Finishes m.id m.attempt_count (dispatch_claimed w job m db)
dispatch_claimed-Finishes w job m db there =
    dispatch_claimed-elim (Finishes m.id m.attempt_count) w job m db
      (λ _ code message response reason.
        mark_failed-IsFinished _ there w.later code message response)
      (λ _ code message attempt response reason.
        mark_retryable_failure-IsFinished _ there code message attempt response)
      (λ _ provider response. mark_submitted-IsFinished _ there w.later provider response)

-- A dispatch that claims its message ends with the row released (no lease), one more attempt
-- counted, and the status that its answer to the queue stands for: `ack` SUBMITTED, `retry`
-- QUEUED, `dead` FAILED, and never `defer`; whatever the services answer.
pub dispatch_outcome :
    (w : World) (job : Job) (db : Db) (m : Message)
    → find_message job.message_id db ≡ some m
    → claimable w.now m ≡ true
    → Finishes job.message_id (m.attempt_count + 1) (dispatch w job db)
unfolding dispatch
dispatch_outcome w job db m there free =
    let row = claimed_row w.now w.lease_config in
    let same : m.id ≡ job.message_id = find-key job.message_id db.messages there in
    let there' : find_message job.message_id (update_message job.message_id row db) ≡ some (row m) =
      ground (arith, there, find_message-update job.message_id job.message_id row db (λ _. refl)) in
    let after = update_message job.message_id row db in
    let done =
      dispatch_claimed-Finishes w job (row m) after
        (subst (λ id. find_message id after ≡ some (row m)) (sym same) there') in
    rw (claim_message_accepted w.now w.lease_config job.message_id db m there free) (
      subst (λ id. Finishes id (m.attempt_count + 1) (dispatch_claimed w job (row m) after)) same
        done)
