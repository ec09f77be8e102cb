-- ===== src/Campaign/Steps.antt =====
-- The statements and transactions of src/campaigns that several workers and requests interleave: each
-- is one step, and any sequence of steps may come between two of one worker.
use api_whats_app.Base.{ℕ, Bool, Option, List, [], ◌∷◌, Text}
use api_whats_app.Base.Result.{Result, ok, err}
use api_whats_app.Campaign.{
  Recipient, CampaignDb, pause_row, resume_row, cancel_rows, fail_campaign, write_counts,
  complete_row, promote_scheduled,
}
use api_whats_app.Campaign.Launch.{Setup, launch}
use api_whats_app.Campaign.Processor.{Completion, claim_recipients, complete_claim}

pub data Step : Type 0 where
  launches : ℕ → ℕ → ℕ → ℕ → Setup → List ℕ → Step
  promotes : ℕ → Step
  pauses : ℕ → ℕ → Step
  resumes : ℕ → ℕ → ℕ → Option ℕ → Option ℕ → Step
  cancels : ℕ → ℕ → ℕ → Step
  fails : ℕ → Text → Step
  claims : (ℕ → Bool) → ℕ → ℕ → ℕ → Step
  completes : Recipient → Completion → Step
  counts : ℕ → CampaignDb → Step
  finishes : ℕ → ℕ → Step

-- An exception leaves the tables as they were.
abbrev pub or_same : CampaignDb → Result CampaignDb → CampaignDb
or_same db (ok after) = after
or_same db (err e) = db

unfoldable pub apply : Step → CampaignDb → CampaignDb
unfolding launch promote_scheduled pause_row resume_row cancel_rows fail_campaign claim_recipients
    complete_claim write_counts complete_row
apply (launches now most tenant id setup contacts) db =
    or_same db (launch now most tenant id setup contacts db)
apply (promotes now) db = promote_scheduled now db
apply (pauses tenant id) db = pause_row tenant id db
apply (resumes tenant id now scheduled_at started_at) db =
    resume_row tenant id now scheduled_at started_at db
apply (cancels tenant id now) db = cancel_rows tenant id now db
apply (fails id reason) db = (fail_campaign id reason db).0
apply (claims locked now config batch) db = (claim_recipients locked now config batch db).0
apply (completes claim data_) db = complete_claim claim data_ db
apply (counts id seen) db = write_counts id seen db
apply (finishes id now) db = complete_row id now db

unfoldable pub run : List Step → CampaignDb → CampaignDb
unfolding apply
run [] db = db
run (step ∷ steps) db = run steps (apply step db)
