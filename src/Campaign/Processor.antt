-- ===== src/Campaign/Processor.antt =====
-- src/campaigns/campaign-processor.service.ts: the claim of a batch of recipients under a lease, and
-- what becomes of a claimed recipient. Rendering of the message and its creation are a parameter.
use api_whats_app.Base.{
  ℕ, ◌+◌, ◌-◌, ◌*◌, ◌^◌, leb, ◌==◌, min, max, if◌then◌else◌, Bool, true, false, not, ◌&&◌, ◌||◌,
  Option, none, some, List, take, Text, text, find, claim_first, claimed_first,
}
use api_whats_app.Campaign.{
  CampaignStatus, running, completed, cancelled, failed, RecipientStatus, pending, processing,
  queued, skipped, failed_, cancelled_, Campaign, campaign_row, Recipient, recipient_row,
  CampaignDb, same_status, is_pending, is_processing, update_recipients, fail_campaign,
}

abbrev pub lease_over : ℕ → Option ℕ → Bool
lease_over now none = false
lease_over now (some until) = leb until now

abbrev lease_free : ℕ → Option ℕ → Bool
lease_free now none = true
lease_free now (some until) = leb until now

abbrev runs : Option Campaign → Bool
runs none = false
runs (some c) = same_status c.status running

-- A row whose campaign is gone is dropped by the inner join.
abbrev exists : Option Campaign → Bool
exists none = false
exists (some c) = true

-- The `WHERE` of `claimRecipients`.
unfoldable pub claimable : ℕ → CampaignDb → Recipient → Bool
claimable now db r =
    let c = find r.campaign_id db.campaigns in
    exists c
    && ((is_pending r.status
          && (leb r.next_attempt_at now && (lease_free now r.processing_lease_until && runs c)))
        || (is_processing r.status && lease_over now r.processing_lease_until))

abbrev pub lease_ms : ℕ → ℕ
lease_ms config = max 5000 config

abbrev pub claimed_row : ℕ → ℕ → Recipient → Recipient
claimed_row now config r = record r {
  status = processing;
  attempt_count = r.attempt_count + 1;
  processing_lease_until = some (now + lease_ms config);
}

-- `SKIP LOCKED`: rows that another transaction holds are passed over.
abbrev pub claim_test : (ℕ → Bool) → ℕ → CampaignDb → Recipient → Bool
claim_test locked now db r = claimable now db r && not (locked r.id)

-- `claimRecipients`: the tables, and the claimed rows.
unfoldable pub claim_recipients : (ℕ → Bool) → ℕ → ℕ → ℕ → CampaignDb → CampaignDb × List Recipient
unfolding claimable
claim_recipients locked now config batch db = (
  record db {
    recipients =
        claim_first batch (claim_test locked now db) (claimed_row now config) db.recipients;
  },
  claimed_first batch (claim_test locked now db) (claimed_row now config) db.recipients,
)

-- The columns that `completeClaim` may write.
pub record Completion : Type 0 where
  pub status : RecipientStatus
  pub next_attempt_at : Option ℕ
  pub last_error : Option Text
  pub message : Option (ℕ × ℕ)

abbrev pub same_lease : Option ℕ → Option ℕ → Bool
same_lease none none = true
same_lease (some a) (some b) = a == b
same_lease _ _ = false

-- `or` keeps a column that is not written.
abbrev kept : Option ℕ → ℕ → ℕ
kept none n = n
kept (some m) n = m

abbrev pub completed_row : Completion → Recipient → Recipient
completed_row data_ r = elim data_.message [
  | none ↦ record r {
    status = data_.status;
    next_attempt_at = kept data_.next_attempt_at r.next_attempt_at;
    last_error = data_.last_error;
    processing_lease_until = none;
  }
  | some m ↦ record r {
    status = data_.status;
    next_attempt_at = kept data_.next_attempt_at r.next_attempt_at;
    last_error = data_.last_error;
    processing_lease_until = none;
    message_id = some m.0;
    queued_at = some m.1;
  }
]

-- The row still is as the claim left it.
abbrev pub claim_holds : Recipient → Recipient → Bool
claim_holds claim r =
    r.id == claim.id
    && (is_processing r.status && same_lease r.processing_lease_until claim.processing_lease_until)

-- `completeClaim`
unfoldable pub complete_claim : Recipient → Completion → CampaignDb → CampaignDb
complete_claim claim data_ = update_recipients (claim_holds claim) (completed_row data_)

abbrev pub settle : RecipientStatus → Option Text → Completion
settle status error_ = record {
  status = status;
  next_attempt_at = none;
  last_error = error_;
  message = none;
}

-- A recipient that goes back to the queue.
abbrev pub again : ℕ → Option Text → Completion
again at error_ = record {
  status = pending;
  next_attempt_at = some at;
  last_error = error_;
  message = none;
}

abbrev pub or_text : Option Text → Text → Text
or_text none fallback = fallback
or_text (some t) fallback = t

-- `completeForCampaignState`
unfoldable pub campaign_completion : ℕ → CampaignStatus → Option Text → Completion
campaign_completion now cancelled reason =
    settle cancelled_ (some (text "Campaign cancelled while recipient was in flight"))
campaign_completion now failed reason =
    settle failed_ (some (or_text reason (text "Campaign failed while recipient was in flight")))
campaign_completion now completed reason =
    settle cancelled_ (some (text "Campaign completed before this recipient claim could finish"))
campaign_completion now _ reason = again now none

-- The delay after an attempt.
unfoldable pub retry_delay : ℕ → ℕ
retry_delay attempts = min 60000 (1000 * 2 ^ min (attempts - 1) 6)

-- `retryOrFail`
unfoldable pub retry_completion : ℕ → ℕ → ℕ → Text → Completion
unfolding retry_delay
retry_completion now most attempts message =
    if leb most attempts
    then settle failed_ (some (take 2000 message))
    else again (now + retry_delay attempts) (some (take 2000 message))

-- What rendering and `messages.create` end with.
pub data Creation : Type 0 where
  created_ : ℕ → Creation
  value_error template_error forbidden unprocessable_ thrown : Text → Creation

-- What a recipient needs of its surroundings, at the instant `now`.
pub record Work : Type 0 where
  pub now : ℕ
  pub max_attempts : ℕ
  pub existing_message : Option ℕ
  pub configuration_error : Option Text
  pub creation : Creation

-- `failCampaign`, then the recipient, by whether the campaign was failed by it.
unfoldable pub fail_and_complete : ℕ → Recipient → ℕ → Text → CampaignDb → CampaignDb
unfolding fail_campaign campaign_completion complete_claim
fail_and_complete now claim id reason db =
    let after = (fail_campaign id reason db).0 in
    if (fail_campaign id reason db).1
    then complete_claim claim (settle failed_ (some reason)) after
    else elim (find id after.campaigns) [
      | none ↦ after
      | some c ↦
          complete_claim claim
            (campaign_completion now c.status (some (or_text c.failure_reason reason))) after
    ]

abbrev pub as_queued : ℕ → ℕ → Completion
as_queued now message = record {
  status = queued;
  next_attempt_at = none;
  last_error = none;
  message = some (message, now);
}

-- The `try` of `processRecipient`.
unfoldable pub create_message : Work → Recipient → ℕ → CampaignDb → CampaignDb
unfolding fail_and_complete retry_completion complete_claim
create_message w claim id db = elim w.creation [
  | created_ message ↦ complete_claim claim (as_queued w.now message) db
  | value_error message ↦ complete_claim claim (settle skipped (some (take 2000 message))) db
  | template_error message ↦ fail_and_complete w.now claim id (take 2000 message) db
  | forbidden message ↦ complete_claim claim (settle skipped (some (take 2000 message))) db
  | unprocessable_ message ↦ fail_and_complete w.now claim id (take 2000 message) db
  | thrown message ↦
      complete_claim claim (retry_completion w.now w.max_attempts claim.attempt_count message) db
]

-- `processRecipient` once the row and its campaign were read.
unfoldable pub process_read : Work → Recipient → Campaign → CampaignDb → CampaignDb
unfolding create_message
process_read w claim c db = elim w.existing_message [
  | some message ↦ complete_claim claim (as_queued w.now message) db
  | none ↦
      if same_status c.status running
      then elim w.configuration_error [
        | some reason ↦ fail_and_complete w.now claim c.id reason db
        | none ↦ create_message w claim c.id db
      ]
      else complete_claim claim (campaign_completion w.now c.status c.failure_reason) db
]

-- `processRecipient`
unfoldable pub process_recipient : Work → Recipient → CampaignDb → CampaignDb
unfolding process_read
process_recipient w claim db = elim (find claim.id db.recipients) [
  | none ↦ db
  | some r ↦ elim (find r.campaign_id db.campaigns) [
    | none ↦ db
    | some c ↦ process_read w claim c db
  ]
]
