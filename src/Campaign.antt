-- ===== src/Campaign.antt =====
-- src/campaigns/campaigns.service.ts: the rows of a campaign and its recipients, and the operations
-- that start, pause, resume, cancel, fail and complete it. Each function is one transaction or one
-- statement of the source, unless its comment says otherwise.
pub mod Launch
pub mod Processor
pub mod Steps
mod Settled
mod Moves
mod Completion
mod Claims
mod Stuck
mod Examples
use api_whats_app.Base.{
  ℕ, ◌+◌, ltb, leb, ◌==◌, if◌then◌else◌, Bool, true, false, not, ◌&&◌, ◌||◌, Option, none, some,
  List, [], ◌∷◌, ◌++◌, take, length, any, min, count_if, Text, text, text_eq, to_upper, is_blank,
  Row, find, update_where,
}
use api_whats_app.Base.Result.{
  not_found, conflict, bad_request, unprocessable, Result, ok, ◌>>=◌, ◌>>◌, guard, or_fail,
}

pub data CampaignStatus : Type 0 where
  draft scheduled running paused completed cancelled failed : CampaignStatus

-- The underscores keep the names apart from those of a campaign.
pub data RecipientStatus : Type 0 where
  pending processing queued skipped failed_ cancelled_ : RecipientStatus

pub record Campaign : Type 0 where
  pub id : ℕ
  pub tenant_id : ℕ
  pub status : CampaignStatus
  pub scheduled_at : Option ℕ
  pub snapshot_at : Option ℕ
  pub started_at : Option ℕ
  pub completed_at : Option ℕ
  pub cancelled_at : Option ℕ
  pub failure_reason : Option Text
  pub total_recipients : ℕ
  pub queued_recipients : ℕ
  pub skipped_recipients : ℕ
  pub failed_recipients : ℕ
  pub cancelled_recipients : ℕ

pub record Recipient : Type 0 where
  pub id : ℕ
  pub campaign_id : ℕ
  pub contact_id : ℕ
  pub message_id : Option ℕ
  pub status : RecipientStatus
  pub attempt_count : ℕ
  pub next_attempt_at : ℕ
  pub processing_lease_until : Option ℕ
  pub last_error : Option Text
  pub queued_at : Option ℕ

instance abbrev pub campaign_row : Row Campaign
campaign_row = record { key = λ c. c.id }

instance abbrev pub recipient_row : Row Recipient
recipient_row = record { key = λ r. r.id }

-- The tables; recipients in the order of their creation, with the id of the next one.
pub record CampaignDb : Type 0 where
  pub campaigns : List Campaign
  pub recipients : List Recipient
  pub next_id : ℕ

abbrev pub same_status : CampaignStatus → CampaignStatus → Bool
same_status draft draft = true
same_status scheduled scheduled = true
same_status running running = true
same_status paused paused = true
same_status completed completed = true
same_status cancelled cancelled = true
same_status failed failed = true
same_status _ _ = false

abbrev pub status_name : CampaignStatus → Text
status_name draft = text "DRAFT"
status_name scheduled = text "SCHEDULED"
status_name running = text "RUNNING"
status_name paused = text "PAUSED"
status_name completed = text "COMPLETED"
status_name cancelled = text "CANCELLED"
status_name failed = text "FAILED"

-- `Campaign in ${status} state cannot be ...`
abbrev pub state_text : CampaignStatus → Text → Text
state_text status what =
    text "Campaign in " ++ status_name status ++ text " state cannot be " ++ what

abbrev pub is_pending : RecipientStatus → Bool
is_pending pending = true
is_pending _ = false

abbrev pub is_processing : RecipientStatus → Bool
is_processing processing = true
is_processing _ = false

abbrev pub of_campaign : ℕ → (RecipientStatus → Bool) → Recipient → Bool
of_campaign id test r = r.campaign_id == id && test r.status

abbrev pub update_campaigns : (Campaign → Bool) → (Campaign → Campaign) → CampaignDb → CampaignDb
update_campaigns test f db = record db { campaigns = update_where test f db.campaigns }

abbrev pub update_recipients :
    (Recipient → Bool) → (Recipient → Recipient) → CampaignDb → CampaignDb
update_recipients test f db = record db { recipients = update_where test f db.recipients }

-- `result.count > 0`, for a campaign of the id.
abbrev pub hits : ℕ → (Campaign → Bool) → CampaignDb → Bool
hits id test db = elim (find id db.campaigns) [ none ↦ false | some c ↦ test c ]

abbrev pub of_tenant : ℕ → Option Campaign → Option Campaign
of_tenant tenant none = none
of_tenant tenant (some c) = if c.tenant_id == tenant then some c else none

-- `findById`
abbrev pub find_by_id : ℕ → ℕ → CampaignDb → Result Campaign
find_by_id tenant id db =
    or_fail (not_found (text "Campaign not found")) (of_tenant tenant (find id db.campaigns))

-- `date && date.getTime() > now`
abbrev pub is_future : ℕ → Option ℕ → Bool
is_future now none = false
is_future now (some at) = ltb now at

-- The `updateMany` of `pause`.
abbrev pub can_pause : CampaignStatus → Bool
can_pause running = true
can_pause scheduled = true
can_pause _ = false

unfoldable pub pause_row : ℕ → ℕ → CampaignDb → CampaignDb
pause_row tenant id =
    update_campaigns (λ c. c.id == id && (c.tenant_id == tenant && can_pause c.status))
      (λ c. record c { status = paused })

-- The `updateMany` of `resume`, with the status and the start that it chose from the row it read.
abbrev started_at_or : ℕ → Option ℕ → Campaign → Option ℕ
started_at_or now none c = some now
started_at_or now (some at) c = c.started_at

abbrev pub resumed_row : ℕ → Option ℕ → Option ℕ → Campaign → Campaign
resumed_row now scheduled_at started_at c =
    if is_future now scheduled_at
    then record c { status = scheduled }
    else record c { status = running; started_at = started_at_or now started_at c }

unfoldable pub resume_row : ℕ → ℕ → ℕ → Option ℕ → Option ℕ → CampaignDb → CampaignDb
resume_row tenant id now scheduled_at started_at =
    update_campaigns (λ c. c.id == id && (c.tenant_id == tenant && same_status c.status paused))
      (resumed_row now scheduled_at started_at)

-- The transaction of `cancel`, and whether it changed the campaign.
abbrev pub can_cancel : CampaignStatus → Bool
can_cancel draft = true
can_cancel scheduled = true
can_cancel running = true
can_cancel paused = true
can_cancel _ = false

abbrev pub cancel_test : ℕ → ℕ → Campaign → Bool
cancel_test tenant id c = c.id == id && (c.tenant_id == tenant && can_cancel c.status)

unfoldable pub cancel_rows : ℕ → ℕ → ℕ → CampaignDb → CampaignDb
cancel_rows tenant id now db =
    if hits id (cancel_test tenant id) db
    then update_recipients (of_campaign id is_pending)
        (λ r. record r {
          status = cancelled_;
          processing_lease_until = none;
          last_error = some (text "Campaign cancelled before recipient processing");
        })
        (update_campaigns (cancel_test tenant id)
          (λ c. record c { status = cancelled; cancelled_at = some now }) db)
    else db

-- `failCampaign`, and whether it changed the campaign.
abbrev pub fail_test : ℕ → Campaign → Bool
fail_test id c = c.id == id && can_pause c.status

unfoldable pub fail_campaign : ℕ → Text → CampaignDb → CampaignDb × Bool
fail_campaign id reason db =
    if hits id (fail_test id) db
    then (
      update_recipients (of_campaign id is_pending)
          (λ r. record r {
            status = failed_;
            processing_lease_until = none;
            last_error = some (take 2000 reason);
          })
          (update_campaigns (fail_test id)
            (λ c. record c { status = failed; failure_reason = some (take 2000 reason) }) db),
      true,
    )
    else (db, false)

-- `groupBy`: how many recipients of the campaign have such a status.
abbrev pub count_of : ℕ → (RecipientStatus → Bool) → CampaignDb → ℕ
count_of id test db = count_if (of_campaign id test) db.recipients

abbrev pub is_queued : RecipientStatus → Bool
is_queued queued = true
is_queued _ = false

abbrev pub is_skipped : RecipientStatus → Bool
is_skipped skipped = true
is_skipped _ = false

abbrev pub is_failed : RecipientStatus → Bool
is_failed failed_ = true
is_failed _ = false

abbrev pub is_cancelled : RecipientStatus → Bool
is_cancelled cancelled_ = true
is_cancelled _ = false

-- The first `updateMany` of `refreshStats`, with the counts of the tables that `groupBy` saw.
unfoldable pub write_counts : ℕ → CampaignDb → CampaignDb → CampaignDb
write_counts id seen =
    update_campaigns (λ c. c.id == id)
      (λ c. record c {
        queued_recipients = count_of id is_queued seen;
        skipped_recipients = count_of id is_skipped seen;
        failed_recipients = count_of id is_failed seen;
        cancelled_recipients = count_of id is_cancelled seen;
      })

-- Its last `updateMany`.
unfoldable pub complete_row : ℕ → ℕ → CampaignDb → CampaignDb
complete_row id now =
    update_campaigns (λ c. c.id == id && same_status c.status running)
      (λ c. record c { status = completed; completed_at = some now })

-- The guard of that update.
abbrev pub no_open : ℕ → CampaignDb → Bool
no_open id seen = count_of id is_pending seen == 0 && count_of id is_processing seen == 0

-- `refreshStats` without a step of another worker between its statements; an update of no row writes
-- no row, so its early return needs no case.
unfoldable pub refresh_stats : ℕ → ℕ → CampaignDb → CampaignDb
unfolding write_counts complete_row
refresh_stats id now db =
    let counted = write_counts id db db in
    if no_open id db then complete_row id now counted else counted

-- `promoteScheduledCampaigns` of src/campaigns/campaign-processor.service.ts
unfoldable pub promote_scheduled : ℕ → CampaignDb → CampaignDb
promote_scheduled now =
    update_campaigns (λ c. same_status c.status scheduled && is_due c.scheduled_at)
      (λ c. record c { status = running; started_at = some now })
  where
    is_due : Option ℕ → Bool
    is_due none = false
    is_due (some at) = leb at now
