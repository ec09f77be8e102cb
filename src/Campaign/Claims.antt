-- ===== src/Campaign/Claims.antt =====
-- The claims of src/campaigns/campaign-processor.service.ts: what a claimed recipient is left with,
-- completions that come late, and the delays.

use mathlib.Core.Option.{some-injective}
use native.Mathlib.Nat.{pow-le-pow_right, one-le-pow}
use api_whats_app.Base.{
  ℕ, ◌-◌, ◌^◌, ◌≤◌, ◌==◌, min, Bool, true, false, Option, none, some, ◌≡◌, refl, sym, ap, ◌∙◌, inl,
  inr, arith, Bool-cases, Option-cases, ==_iff, find-key, find, find-update_where, Text, take,
}
use api_whats_app.Campaign.{
  skipped, failed_, CampaignStatus, Campaign, campaign_row, Recipient, recipient_row, processing,
  CampaignDb, is_pending, is_processing, of_campaign, same_status, running, fail_campaign,
  fail_test, hits,
}
use api_whats_app.Campaign.Settled.{updated-Keeps, completed-id}
use api_whats_app.Campaign.Steps.{fails, apply}
use api_whats_app.Campaign.Moves.{apply-HasMoved}
use api_whats_app.Campaign.Processor.{
  claim_recipients, claimed_row, Creation, settle, or_text, as_queued, complete_claim,
  completed_row, claim_holds, same_lease, Completion, retry_delay, retry_completion,
  campaign_completion, fail_and_complete, Work, created_, value_error, template_error, forbidden,
  unprocessable_, thrown, create_message, process_read, process_recipient,
}

-- A recipient that no worker holds.
pub record IsReleased (id : ℕ) (db : CampaignDb) : Type 0 where
  pub row : Recipient
  pub there : find id db.recipients ≡ some row
  pub idle : is_processing row.status ≡ false
  pub free : row.processing_lease_until ≡ none

same_lease_refl : (l : Option ℕ) → same_lease l l ≡ true
same_lease_refl none = refl
same_lease_refl (some n) = ground arith

module _ (claim : Recipient) (busy : claim.status ≡ processing) where
  claim_holds-claim : claim_holds claim claim ≡ true
  claim_holds-claim = ground (arith, busy, same_lease_refl claim.processing_lease_until)

  complete-IsReleased :
      (data_ : Completion) (db : CampaignDb)
      → find claim.id db.recipients ≡ some claim
      → is_processing data_.status ≡ false
      → IsReleased claim.id (complete_claim claim data_ db)
  unfolding complete_claim
  complete-IsReleased data_ db there idle = record {
    row = completed_row data_ claim;
    there = ground (
      arith,
      find-update_where claim.id (claim_holds claim) (completed_row data_) db.recipients
          (completed-id data_),
      there,
      claim_holds-claim,
    );
    idle = ground (arith, idle);
    free = ground arith;
  }

  campaign_completion-idle :
      (now : ℕ) (s : CampaignStatus) (reason : Option Text)
      → is_processing (campaign_completion now s reason).status ≡ false
  unfolding campaign_completion
  campaign_completion-idle now s reason = ground arith

  -- `failCampaign` leaves a recipient in flight alone, and the campaign is still there.
  fail-there :
      (id : ℕ) (reason : Text) (db : CampaignDb)
      → find claim.id db.recipients ≡ some claim
      → find claim.id (fail_campaign id reason db).0.recipients ≡ some claim
  unfolding fail_campaign
  fail-there id reason db there = elim (Bool-cases (hits id (fail_test id) db)) [
    | inl hit ↦ rw hit (
        updated-Keeps claim.id claim (of_campaign id is_pending) _ db (λ x. refl)
          (ground (arith, busy)) there)
    | inr miss ↦ rw miss there
  ]

  fail_and_complete-IsReleased :
      (now id : ℕ) (reason : Text) (db : CampaignDb) {c : Campaign}
      → find claim.id db.recipients ≡ some claim
      → find id db.campaigns ≡ some c
      → IsReleased claim.id (fail_and_complete now claim id reason db)
  unfolding fail_and_complete apply
  fail_and_complete-IsReleased now id reason db {c} there own =
      let kept = fail-there id reason db there in
      let after = (fail_campaign id reason db).0 in
      let m = apply-HasMoved (fails id reason) db id c own in
      let still : find id after.campaigns ≡ some m.row = m.there in
      elim (Bool-cases (fail_campaign id reason db).1) [
        | inl hit ↦ rw hit (complete-IsReleased (settle failed_ (some reason)) after kept refl)
        | inr miss ↦ rw miss (
            rw still (
              complete-IsReleased
                (campaign_completion now m.row.status (some (or_text m.row.failure_reason reason)))
                after kept (campaign_completion-idle now m.row.status _)))
      ]

  create_message-IsReleased :
      (w : Work) (id : ℕ) (db : CampaignDb) {c : Campaign}
      → find claim.id db.recipients ≡ some claim
      → find id db.campaigns ≡ some c
      → IsReleased claim.id (create_message w claim id db)
  unfolding create_message retry_completion
  create_message-IsReleased w id db {c} there own = by_creation w.creation refl
    where
      by_creation :
          (x : Creation) → w.creation ≡ x → IsReleased claim.id (create_message w claim id db)
      by_creation (created_ message) e =
          rw (e, create_message) (complete-IsReleased (as_queued w.now message) db there refl)
      by_creation (value_error message) e =
          rw (e, create_message)
            (complete-IsReleased (settle skipped (some (take 2000 message))) db there refl)
      by_creation (template_error message) e =
          rw (e, create_message) (fail_and_complete-IsReleased w.now id _ db {c = c} there own)
      by_creation (forbidden message) e =
          rw (e, create_message)
            (complete-IsReleased (settle skipped (some (take 2000 message))) db there refl)
      by_creation (unprocessable_ message) e =
          rw (e, create_message) (fail_and_complete-IsReleased w.now id _ db {c = c} there own)
      by_creation (thrown message) e =
          rw (e, create_message)
            (complete-IsReleased (retry_completion w.now w.max_attempts claim.attempt_count message)
              db there (ground arith))

  process_read-IsReleased :
      (w : Work) (c : Campaign) (db : CampaignDb)
      → find claim.id db.recipients ≡ some claim
      → find c.id db.campaigns ≡ some c
      → IsReleased claim.id (process_read w claim c db)
  unfolding process_read
  process_read-IsReleased w c db there own = elim (Option-cases w.existing_message) [
    | inr (message, e) ↦
        rw (e, process_read) (complete-IsReleased (as_queued w.now message) db there refl)
    | inl e ↦
        rw (e, process_read)
          (elim (Bool-cases (same_status c.status running)) [
            | inl runs ↦ rw runs (elim (Option-cases w.configuration_error) [
              | inl ok_ ↦ rw ok_ (create_message-IsReleased w c.id db {c = c} there own)
              | inr (reason, bad) ↦
                  rw bad (fail_and_complete-IsReleased w.now c.id reason db {c = c} there own)
            ])
            | inr stopped ↦ rw stopped (
                complete-IsReleased (campaign_completion w.now c.status c.failure_reason) db there
                  (campaign_completion-idle w.now c.status _))
          ])
  ]

-- A recipient whose row still is as the worker claimed it, and whose campaign exists, is released
-- by its processing: whatever the campaign's state, the configuration and the creation of its
-- message are, its row then is not PROCESSING and has no lease.
pub process_recipient-IsReleased :
    (w : Work) (claim : Recipient) (c : Campaign) (db : CampaignDb)
    → claim.status ≡ processing
    → find claim.id db.recipients ≡ some claim
    → find claim.campaign_id db.campaigns ≡ some c
    → IsReleased claim.id (process_recipient w claim db)
unfolding process_recipient
process_recipient-IsReleased w claim c db busy there own =
    let id : c.id ≡ claim.campaign_id = find-key claim.campaign_id db.campaigns own in
    rw (there, process_recipient)
      (rw (own, process_recipient)
        (process_read-IsReleased claim busy w c db there (ap (λ n. find n db.campaigns) id ∙ own)))

-- A completion whose lease is not that of the row changes no recipient.
complete_claim-late :
    (claim r : Recipient) (data_ : Completion) (db : CampaignDb) (j : ℕ) (x : Recipient)
    → find claim.id db.recipients ≡ some r
    → same_lease r.processing_lease_until claim.processing_lease_until ≡ false
    → find j db.recipients ≡ some x
    → find j (complete_claim claim data_ db).recipients ≡ some x
unfolding complete_claim
complete_claim-late claim r data_ db j x there other found =
    updated-Keeps j x (claim_holds claim) (completed_row data_) db (completed-id data_) miss found
  where
    miss : claim_holds claim x ≡ false
    miss = elim (Bool-cases (x.id == claim.id)) [
      | inl hit ↦
          let same : x ≡ r = some-injective _ _ (
            sym found
            ∙ ap (λ n. find n db.recipients)
                (sym (find-key j db.recipients found) ∙ (==_iff _ _).0 hit)
            ∙ there) in
          ground (
            arith,
            other,
            ap (λ (y : Recipient). same_lease y.processing_lease_until claim.processing_lease_until)
                same,
          )
      | inr differs ↦ ground (arith, differs)
    ]

-- Let another worker claim a recipient when the lease of its first claim is over. A completion by the
-- first worker then changes no recipient.
pub complete_claim-reclaimed :
    (locked : ℕ → Bool) (now config batch : ℕ) (claim r : Recipient) (until : ℕ)
    (data_ : Completion) (db : CampaignDb) (j : ℕ) (x : Recipient)
    → claim.processing_lease_until ≡ some until
    → until ≤ now
    → find claim.id (claim_recipients locked now config batch db).0.recipients
      ≡ some (claimed_row now config r)
    → find j (claim_recipients locked now config batch db).0.recipients ≡ some x
    → find j (complete_claim claim data_ (claim_recipients locked now config batch db).0).recipients
      ≡ some x
complete_claim-reclaimed locked now config batch claim r until data_ db j x lease over there found =
    complete_claim-late claim (claimed_row now config r) data_ _ j x there
      (ground (arith, lease, over)) found

-- The delay before another attempt is between one second and one minute, and no shorter after more
-- attempts.
pub retry_delay-bounds :
    (n m : ℕ)
    → n ≤ m
    → (1000 ≤ retry_delay n) × (retry_delay n ≤ retry_delay m) × (retry_delay m ≤ 60000)
unfolding retry_delay
retry_delay-bounds n m h =
    let k = min (n - 1) 6 in
    let l = min (m - 1) 6 in
    let up : 2 ^ k ≤ 2 ^ l = pow-le-pow_right (omega arith) (omega (arith, h)) in
    let low : 1 ≤ 2 ^ k = one-le-pow k 2 (omega arith) in
    (omega (arith, low), omega (arith, up), omega arith)
