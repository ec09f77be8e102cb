-- ===== src/Campaign/Launch.antt =====
-- The requests of src/campaigns/campaigns.service.ts: `launch`, `pause`, `resume` and `cancel`.
use api_whats_app.Base.{
  ℕ, ◌+◌, leb, ◌==◌, if◌then◌else◌, Bool, true, false, not, ◌&&◌, ◌||◌, Option, none, some, List,
  [], ◌∷◌, ◌++◌, take, length, any, Text, text, text_eq, decimal, to_upper, is_blank,
}
use api_whats_app.Base.Result.{
  conflict, bad_request, unprocessable, Result, ok, err, ◌>>=◌, ◌>>◌, guard,
}
use api_whats_app.Campaign.{
  CampaignStatus, draft, scheduled, running, paused, completed, cancelled, failed, pending,
  Campaign, campaign_row, Recipient, CampaignDb, same_status, state_text, update_campaigns,
  find_by_id, is_future, can_pause, pause_row, resume_row, cancel_rows, refresh_stats,
}

-- The columns of the sender and the template that a launch reads.
pub record Setup : Type 0 where
  pub sender_active : Bool
  pub sender_waba_id : Option Text
  pub template_waba_id : Text
  pub template_status : Text
  pub template_category : Option Text

abbrev pub is_text : Text → Option Text → Bool
is_text word none = false
is_text word (some t) = text_eq (to_upper t) word

abbrev no_waba : Option Text → Bool
no_waba none = true
no_waba (some t) = is_blank t

abbrev waba_is : Text → Option Text → Bool
waba_is t none = false
waba_is t (some w) = text_eq t w

-- The guards on the sender and `assertMarketingTemplate`.
unfoldable pub assert_setup : Setup → Result (Unit {0})
assert_setup s = do
  guard (s.sender_active && not (no_waba s.sender_waba_id))
      (unprocessable (text "Campaign sender is inactive or missing its WABA ID"))
  guard (waba_is s.template_waba_id s.sender_waba_id)
      (unprocessable (text "Campaign template does not belong to the selected sender WABA"))
  guard (text_eq (to_upper s.template_status) (text "APPROVED"))
      (unprocessable (text "Campaign template must be APPROVED"))
  guard (is_text (text "MARKETING") s.template_category)
      (unprocessable (text "Campaigns require a MARKETING template"))

-- `createMany` with `skipDuplicates`: a campaign has a contact once.
abbrev pub has_contact : ℕ → ℕ → Recipient → Bool
has_contact id contact r = r.campaign_id == id && r.contact_id == contact

abbrev pub new_recipient : ℕ → ℕ → ℕ → ℕ → Recipient
new_recipient row id contact now = record {
  id = row;
  campaign_id = id;
  contact_id = contact;
  message_id = none;
  status = pending;
  attempt_count = 0;
  next_attempt_at = now;
  processing_lease_until = none;
  last_error = none;
  queued_at = none;
}

abbrev pub add_recipient : ℕ → ℕ → ℕ → CampaignDb → CampaignDb
add_recipient id now contact db =
    if any (has_contact id contact) db.recipients then db else record db {
      recipients = db.recipients ++ new_recipient db.next_id id contact now ∷ [];
      next_id = db.next_id + 1;
    }

-- The batches of the source are one loop here.
unfoldable pub add_recipients : ℕ → ℕ → List ℕ → CampaignDb → CampaignDb
add_recipients id now [] db = db
add_recipients id now (contact ∷ contacts) db =
    add_recipients id now contacts (add_recipient id now contact db)

abbrev pub snapshot_taken : Campaign → Bool
snapshot_taken c = elim c.snapshot_at [
  | none ↦ false
  | some at ↦
      same_status c.status scheduled
      || (same_status c.status running || same_status c.status completed)
]

-- The status that a launch gives.
abbrev pub launched_status : ℕ → Option ℕ → List ℕ → CampaignStatus
launched_status now scheduled_at [] = completed
launched_status now scheduled_at (contact ∷ contacts) =
    if is_future now scheduled_at then scheduled else running

abbrev pub launched_row : ℕ → List ℕ → Campaign → Campaign
launched_row now contacts c =
    let status = launched_status now c.scheduled_at contacts in
    record c {
      status = status;
      snapshot_at = some now;
      total_recipients = length contacts;
      started_at = if same_status status running then some now else c.started_at;
      completed_at = if same_status status completed then some now else c.completed_at;
    }

-- The guards of a launch and its writes.
abbrev pub launch_draft : ℕ → ℕ → ℕ → Setup → List ℕ → Campaign → CampaignDb → Result CampaignDb
launch_draft now most id setup contacts c db = do
  guard (same_status c.status draft) (conflict (state_text c.status (text "launched")))
  assert_setup setup
  guard (leb (length (take (most + 1) contacts)) most) (
      bad_request
        (text "Campaign audience exceeds CAMPAIGN_MAX_RECIPIENTS (" ++ decimal most ++ text ")"))
  ok (
      update_campaigns (λ x. x.id == id) (launched_row now contacts)
        (add_recipients id now contacts db))

-- `launch`: one transaction. `contacts` is what the query of the audience returns without its `take`.
unfoldable pub launch : ℕ → ℕ → ℕ → ℕ → Setup → List ℕ → CampaignDb → Result CampaignDb
unfolding add_recipients assert_setup
launch now most tenant id setup contacts db = do
  c ← find_by_id tenant id db
  if snapshot_taken c then ok db else launch_draft now most id setup contacts c db

-- `pause`, when no other worker's step comes between its statements.
unfoldable pub pause : ℕ → ℕ → CampaignDb → Result CampaignDb
unfolding pause_row
pause tenant id db = do
  c ← find_by_id tenant id db
  if can_pause c.status
      then ok (pause_row tenant id db)
      else if same_status c.status paused
      then ok db
      else err (conflict (state_text c.status (text "paused")))

-- `resume`, likewise.
unfoldable pub resume : ℕ → ℕ → ℕ → CampaignDb → Result CampaignDb
unfolding resume_row
resume tenant id now db = do
  c ← find_by_id tenant id db
  guard (same_status c.status paused) (conflict (state_text c.status (text "resumed")))
  ok (resume_row tenant id now c.scheduled_at c.started_at db)

-- `cancel`, likewise.
unfoldable pub cancel : ℕ → ℕ → ℕ → CampaignDb → Result CampaignDb
unfolding cancel_rows refresh_stats
cancel tenant id now db = do
  c ← find_by_id tenant id db
  if same_status c.status cancelled
      then ok db
      else if same_status c.status completed || same_status c.status failed
      then err (conflict (state_text c.status (text "cancelled")))
      else ok (refresh_stats id now (cancel_rows tenant id now db))
