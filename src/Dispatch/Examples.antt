-- ===== src/Dispatch/Examples.antt =====
-- Runs of src/worker/message-dispatcher.service.ts on one row, and the theorems about it at those
-- inputs.
use api_whats_app.Base.{ℕ, ◌≡◌, inr, refl, false, Option, none, some, [], ◌∷◌, text, Thrown, arith}
use api_whats_app.Message.{MessageStatus, queued, otp, Message, Db}
use api_whats_app.Message.Store.{find_message}
use api_whats_app.Dispatch.{
  Job, ack, World, accepted, claimable, claim_message, dispatch, after_claim, dispatch_claimed,
  resolve_and_send, send_and_record,
}
use api_whats_app.Dispatch.Lease.{claims, run, claim_exclusive}
use api_whats_app.Dispatch.Outcome.{Finishes, dispatch_outcome}
use api_whats_app.Dispatch.Redelivery.{redelivery_after_ack}

abbrev row : MessageStatus → Option ℕ → Message
row status lease = record {
  id = 7;
  sender_id = 2;
  traffic_class = otp;
  status = status;
  provider_message_id = none;
  provider_response = none;
  attempt_count = 0;
  last_attempt_at = none;
  processing_lease_until = lease;
  error_code = none;
  error_message = none;
  submitted_at = none;
  sent_at = none;
  delivered_at = none;
  read_at = none;
  failed_at = none;
}

abbrev db : MessageStatus → Option ℕ → Db
db status lease = record { messages = row status lease ∷ []; events = [] }

abbrev world : Option Thrown → World
world submit_error = record {
  now = 1000;
  later = 1200;
  lease_config = 30000;
  resolve =
      λ _. inr (record { phone_number_id = text "15550001"; rate_limit_per_second = some 20 });
  wait_for_slot = λ _ _. none;
  send = λ _ _. accepted (text "wamid.1") none;
  submit_error = submit_error;
}

abbrev job : Job
job = record { message_id = 7; attempt = 0; traffic_class = otp }

-- A queued message is sent and submitted.
dispatch_submits : (dispatch (world none) job (db queued none)).1.action ≡ ack
unfolding dispatch claim_message claimable after_claim dispatch_claimed resolve_and_send
    send_and_record
dispatch_submits = refl

claim_exclusive_example :
    let after = run (claims 2000 30000 7 ∷ []) (claim_message 1000 30000 7 (db queued none)).0 in
    (find_message 7 after ≡ (claim_message 1000 30000 7 (db queued none)).2)
    × (claim_message 3000 30000 7 after ≡ (after, false, find_message 7 after))
unfolding claim_message claimable
claim_exclusive_example =
    claim_exclusive 1000 30000 7 (db queued none) (claims 2000 30000 7 ∷ []) 3000 30000 refl
      (omega arith) (omega arith)

dispatch_outcome_example : Finishes 7 1 (dispatch (world none) job (db queued none))
unfolding claimable
dispatch_outcome_example =
    dispatch_outcome (world none) job (db queued none) (row queued none) refl refl

redelivery_after_ack_example :
    dispatch (world none) job (dispatch (world none) job (db queued none)).0
    ≡ ((dispatch (world none) job (db queued none)).0, record { action = ack; reason = none })
unfolding claimable
redelivery_after_ack_example =
    redelivery_after_ack (world none) job (db queued none) (row queued none) (world none) job refl
      refl dispatch_submits refl
