-- ===== src/Campaign/Examples.antt =====
-- A campaign with two recipients, on which the steps of src/campaigns run.

use api_whats_app.Base.{
  ℕ, ◌≡◌, refl, Bool, true, false, Option, none, some, List, [], ◌∷◌, arith, find,
}
use api_whats_app.Campaign.{
  CampaignStatus, paused, running, cancelled, RecipientStatus, pending, processing, queued,
  Campaign, campaign_row, Recipient, recipient_row, CampaignDb, no_open, complete_row,
}
use api_whats_app.Campaign.Processor.{
  Work, created_, claim_recipients, complete_claim, process_recipient, claimed_row, settle,
}
use api_whats_app.Campaign.Steps.{or_same, Step, cancels, claims, finishes, run}
use api_whats_app.Campaign.Settled.{run-settled}
use api_whats_app.Campaign.Moves.{run-over}
use api_whats_app.Campaign.Completion.{complete_row-no_open}
use api_whats_app.Base.Result.{ok}
use api_whats_app.Campaign.Launch.{resume}
use api_whats_app.Campaign.Stuck.{IsStuck, resume-IsStuck}
use api_whats_app.Campaign.Claims.{
  IsReleased, process_recipient-IsReleased, complete_claim-reclaimed,
}

abbrev campaign : CampaignStatus → Campaign
campaign status = record {
  id = 3;
  tenant_id = 1;
  status = status;
  scheduled_at = none;
  snapshot_at = some 500;
  started_at = some 500;
  completed_at = none;
  cancelled_at = none;
  failure_reason = none;
  total_recipients = 2;
  queued_recipients = 0;
  skipped_recipients = 0;
  failed_recipients = 0;
  cancelled_recipients = 0;
}

abbrev recipient : ℕ → RecipientStatus → Option ℕ → Recipient
recipient id status lease = record {
  id = id;
  campaign_id = 3;
  contact_id = 40;
  message_id = none;
  status = status;
  attempt_count = 1;
  next_attempt_at = 600;
  processing_lease_until = lease;
  last_error = none;
  queued_at = none;
}

abbrev db : CampaignStatus → RecipientStatus → Option ℕ → CampaignDb
db status second lease = record {
  campaigns = campaign status ∷ [];
  recipients = recipient 11 queued none ∷ recipient 12 second lease ∷ [];
  next_id = 13;
}

abbrev unlocked : ℕ → Bool
unlocked id = false

abbrev steps : List Step
steps = claims unlocked 1000 30000 10 ∷ cancels 1 3 1100 ∷ finishes 3 1200 ∷ []

run-settled_example :
    find 11 (run steps (db running pending none)).recipients ≡ some (recipient 11 queued none)
run-settled_example =
    run-settled steps (db running pending none) 11 (recipient 11 queued none) refl refl

run-over_example :
    (d : Campaign) × (find 3 (run steps (db cancelled queued none)).campaigns ≡ some d)
    × (d.status ≡ cancelled)
run-over_example = run-over steps (db cancelled queued none) 3 (campaign cancelled) refl refl

complete_row-no_open_example :
    no_open 3 (complete_row 3 1300 (run steps (db running queued none))) ≡ true
complete_row-no_open_example =
    complete_row-no_open steps (db running queued none) 3 1300 (campaign running) refl refl refl

abbrev work : Work
work = record {
  now = 1500;
  max_attempts = 5;
  existing_message = none;
  configuration_error = none;
  creation = created_ 77;
}

process_recipient-IsReleased_example : IsReleased 12 (
    process_recipient work
      (recipient 12 processing (some 31000))
      (db running processing (some 31000)))
process_recipient-IsReleased_example =
    process_recipient-IsReleased work (recipient 12 processing (some 31000)) (campaign running)
      (db running processing (some 31000)) refl refl refl

-- The row after the second claim.
abbrev reclaimed : CampaignDb
reclaimed = (claim_recipients unlocked 40000 30000 10 (db running processing (some 31000))).0

reclaimed-row :
    find 12 reclaimed.recipients
    ≡ some (claimed_row 40000 30000 (recipient 12 processing (some 31000)))
unfolding claim_recipients
reclaimed-row = refl

complete_claim-reclaimed_example :
    find 12
      (complete_claim
        (recipient 12 processing (some 31000))
        (settle queued none)
        reclaimed).recipients
    ≡ some (claimed_row 40000 30000 (recipient 12 processing (some 31000)))
complete_claim-reclaimed_example =
    complete_claim-reclaimed unlocked 40000 30000 10 (recipient 12 processing (some 31000))
      (recipient 12 processing (some 31000)) 31000 (settle queued none)
      (db running processing (some 31000)) 12 _ refl (omega arith) reclaimed-row reclaimed-row

-- A paused campaign whose recipients are settled, and the tables after its resumption.
abbrev settled_db : CampaignDb
settled_db = db paused queued none

abbrev resumed_db : CampaignDb
unfolding resume
resumed_db = or_same settled_db (resume 1 3 2000 settled_db)

resumed-ok : resume 1 3 2000 settled_db ≡ ok resumed_db
unfolding resume
resumed-ok = refl

resume-IsStuck_example : IsStuck 3 unlocked 3000 30000 100 resumed_db
resume-IsStuck_example =
    resume-IsStuck 1 3 2000 settled_db resumed_db (campaign paused) unlocked 3000 30000 100 refl
      refl refl resumed-ok
