-- ===== src/Campaign/Completion.antt =====
-- `refreshStats` of src/campaigns/campaigns.service.ts among the steps of other workers: when a
-- campaign is completed, and that an ended campaign stays so.

use mathlib.Core.Option.{some-injective}
use mathlib.Core.Path.{subst}
use api_whats_app.Base.{
  ℕ, ◌+◌, ◌≤◌, ◌==◌, Bool, true, false, some, List, [], ◌∷◌, ◌≡◌, sym, ap, ◌∙◌, inl, inr, arith,
  Bool-cases, ==_iff, find, count_if, count_if-append, count_if-update_where, count_if-claim_first,
  any, Text,
}
use api_whats_app.Campaign.{
  CampaignStatus, draft, Campaign, campaign_row, Recipient, CampaignDb, is_pending, is_processing,
  of_campaign, update_recipients, same_status, cancel_rows, cancel_test, fail_campaign, fail_test,
  hits, complete_row, no_open,
}
use api_whats_app.Campaign.Launch.{
  Setup, launch, new_recipient, add_recipient, add_recipients, has_contact,
}
use api_whats_app.Campaign.Processor.{
  claim_recipients, claim_test, claimed_row, complete_claim, completed_row, claim_holds, Completion,
}
use api_whats_app.Campaign.Steps.{
  Step, launches, promotes, pauses, resumes, cancels, fails, claims, completes, counts, finishes,
  apply, run, or_same,
}
use api_whats_app.Campaign.Settled.{is_open, launch-cases}
use api_whats_app.Campaign.Moves.{moves, apply-HasMoved}

abbrev pub open_of : ℕ → Recipient → Bool
open_of id = of_campaign id is_open

-- A campaign of the id that is no draft.
abbrev pub Launched : ℕ → CampaignDb → Type 0
Launched id db =
    (c : Campaign) × (find id db.campaigns ≡ some c) × (same_status c.status draft ≡ false)

module _ (id : ℕ) where
  -- The recipients of the campaign that are open: no more than before.
  abbrev Fewer : CampaignDb → CampaignDb → Type 0
  Fewer before after =
      count_if (open_of id) after.recipients ≤ count_if (open_of id) before.recipients

  updated-Fewer :
      (test : Recipient → Bool) (f : Recipient → Recipient) (db : CampaignDb)
      → ((x : Recipient) → test x ≡ true → open_of id (f x) ≡ true → open_of id x ≡ true)
      → Fewer db (update_recipients test f db)
  updated-Fewer test f db h = count_if-update_where (open_of id) test f db.recipients h

  add_recipient-Fewer :
      (other now contact : ℕ) (db : CampaignDb)
      → (other == id) ≡ false
      → Fewer db (add_recipient other now contact db)
  add_recipient-Fewer other now contact db h =
      elim (Bool-cases (any (has_contact other contact) db.recipients)) [
        | inl hit ↦ rw hit (omega arith)
        | inr miss ↦ rw miss (
            ground (
              arith,
              h,
              count_if-append (open_of id) db.recipients
                  (new_recipient db.next_id other contact now ∷ []),
            ))
      ]

  add_recipients-Fewer :
      (other now : ℕ) (contacts : List ℕ) (db : CampaignDb)
      → (other == id) ≡ false
      → Fewer db (add_recipients other now contacts db)
  unfolding add_recipients
  add_recipients-Fewer other now [] db h = omega arith
  add_recipients-Fewer other now (contact ∷ contacts) db h = omega (
    arith,
    add_recipient-Fewer other now contact db h,
    add_recipients-Fewer other now contacts (add_recipient other now contact db) h,
  )

  launch-Fewer :
      (now most tenant other : ℕ) (setup : Setup) (contacts : List ℕ) (db : CampaignDb)
      → Launched id db
      → Fewer db (or_same db (launch now most tenant other setup contacts db))
  launch-Fewer now most tenant other setup contacts db (c, there, no_draft) =
      elim (launch-cases now most tenant other setup contacts db) [
        | inl same ↦ subst (Fewer db) (sym same) (omega arith)
        | inr (d, found, is_draft, done) ↦
            subst (Fewer db) (sym done) (elim (Bool-cases (other == id)) [
              | inl hit ↦ absurd (different d c found there is_draft no_draft ((==_iff _ _).0 hit))
              | inr miss ↦ add_recipients-Fewer other now contacts db miss
            ])
      ]
    where
      different :
          (d e : Campaign)
          → find other db.campaigns ≡ some d
          → find id db.campaigns ≡ some e
          → same_status d.status draft ≡ true
          → same_status e.status draft ≡ false
          → other ≡ id
          → ⊥
      different d e found there is_draft no_draft same =
          let one : d ≡ e =
            some-injective _ _ (sym found ∙ ap (λ n. find n db.campaigns) same ∙ there) in
          ground (arith, is_draft, no_draft, ap (λ (x : Campaign). same_status x.status draft) one)

  cancel-Fewer :
      (tenant other now : ℕ) (db : CampaignDb) → Fewer db (cancel_rows tenant other now db)
  unfolding cancel_rows
  cancel-Fewer tenant other now db = elim (Bool-cases (hits other (cancel_test tenant other) db)) [
    | inl hit ↦
        rw hit (updated-Fewer (of_campaign other is_pending) _ db (λ x h k. ground (arith, h, k)))
    | inr miss ↦ rw miss (omega arith)
  ]

  fail-Fewer :
      (other : ℕ) (reason : Text) (db : CampaignDb) → Fewer db (fail_campaign other reason db).0
  unfolding fail_campaign
  fail-Fewer other reason db = elim (Bool-cases (hits other (fail_test other) db)) [
    | inl hit ↦
        rw hit (updated-Fewer (of_campaign other is_pending) _ db (λ x h k. ground (arith, h, k)))
    | inr miss ↦ rw miss (omega arith)
  ]

  claim-Fewer :
      (locked : ℕ → Bool) (now config batch : ℕ) (db : CampaignDb)
      → Fewer db (claim_recipients locked now config batch db).0
  unfolding claim_recipients
  claim-Fewer locked now config batch db =
      count_if-claim_first (open_of id) (claim_test locked now db) (claimed_row now config) batch
        db.recipients (λ x h k. ground (arith, h, k))

  complete-Fewer :
      (claim : Recipient) (data_ : Completion) (db : CampaignDb)
      → Fewer db (complete_claim claim data_ db)
  unfolding complete_claim
  complete-Fewer claim data_ db =
      updated-Fewer (claim_holds claim) (completed_row data_) db (λ x h k. ground (arith, h, k))

  step-Fewer : (step : Step) (db : CampaignDb) → Launched id db → Fewer db (apply step db)
  unfolding apply
  step-Fewer (launches now most tenant other setup contacts) db l =
      launch-Fewer now most tenant other setup contacts db l
  step-Fewer (promotes now) db l = omega arith
  step-Fewer (pauses tenant other) db l = omega arith
  step-Fewer (resumes tenant other now scheduled_at started_at) db l = omega arith
  step-Fewer (cancels tenant other now) db l = cancel-Fewer tenant other now db
  step-Fewer (fails other reason) db l = fail-Fewer other reason db
  step-Fewer (claims locked now config batch) db l = claim-Fewer locked now config batch db
  step-Fewer (completes claim data_) db l = complete-Fewer claim data_ db
  step-Fewer (counts other seen) db l = omega arith
  step-Fewer (finishes other now) db l = omega arith

Launched-step :
    (id : ℕ) (step : Step) (db : CampaignDb) → Launched id db → Launched id (apply step db)
Launched-step id step db (c, there, no_draft) =
    let m = apply-HasMoved step db id c there in
    (m.row, m.there, later c.status m.row.status no_draft m.along)
  where
    later :
        (s t : CampaignStatus)
        → same_status s draft ≡ false
        → moves s t ≡ true
        → same_status t draft ≡ false
    later s t h along = ground (arith, h, along)

run-Fewer :
    (id : ℕ) (steps : List Step) (db : CampaignDb) → Launched id db → Fewer id db (run steps db)
unfolding run
run-Fewer id [] db l = omega arith
run-Fewer id (step ∷ steps) db l = omega (
  arith,
  step-Fewer id step db l,
  run-Fewer id steps (apply step db) (Launched-step id step db l),
)

pub count-open :
    (id : ℕ) (rs : List Recipient)
    → count_if (open_of id) rs
      ≡ count_if (of_campaign id is_pending) rs + count_if (of_campaign id is_processing) rs
count-open id [] = omega arith
count-open id (r ∷ rs) = ground (arith, count-open id rs)

-- Let `refreshStats` find no recipient of a launched campaign PENDING or PROCESSING. Whatever steps
-- other workers and requests run before its last update, there is none either when this update marks
-- the campaign COMPLETED.
pub complete_row-no_open :
    (steps : List Step) (db : CampaignDb) (id now : ℕ) (c : Campaign)
    → find id db.campaigns ≡ some c
    → same_status c.status draft ≡ false
    → no_open id db ≡ true
    → no_open id (complete_row id now (run steps db)) ≡ true
unfolding complete_row
complete_row-no_open steps db id now c there no_draft none_open =
    let fewer = run-Fewer id steps db (c, there, no_draft) in
    ground (
      arith,
      fewer,
      none_open,
      count-open id db.recipients,
      count-open id (run steps db).recipients,
    )
