-- ===== src/Campaign/Moves.antt =====
-- The states of a campaign of src/campaigns, and the moves between them.

use mathlib.Core.Option.{some-injective}
use mathlib.Core.Path.{subst}
use api_whats_app.Base.{
  ℕ, ◌==◌, Bool, true, false, Option, some, List, [], ◌∷◌, ◌≡◌, refl, sym, ap, ◌∙◌, inl, inr, arith,
  Bool-cases, ==_iff, find, find-key, find-update_where, any, Text, take,
}
use api_whats_app.Campaign.{
  CampaignStatus, draft, scheduled, running, paused, completed, cancelled, failed, Campaign,
  campaign_row, CampaignDb, update_campaigns, same_status, cancel_rows, cancel_test, fail_campaign,
  fail_test, hits, resumed_row, pause_row, resume_row, promote_scheduled, write_counts,
  complete_row,
}
use api_whats_app.Campaign.Launch.{
  Setup, launch, launched_row, add_recipient, add_recipients, has_contact,
}
use api_whats_app.Campaign.Processor.{claim_recipients, complete_claim}
use api_whats_app.Campaign.Steps.{
  Step, launches, promotes, pauses, resumes, cancels, fails, claims, completes, counts, finishes,
  apply, run, or_same,
}
use api_whats_app.Campaign.Settled.{launch-cases}

-- A campaign stays, or moves on.
abbrev pub moves : CampaignStatus → CampaignStatus → Bool
moves draft draft = true
moves draft scheduled = true
moves draft running = true
moves draft completed = true
moves draft cancelled = true
moves scheduled scheduled = true
moves scheduled running = true
moves scheduled paused = true
moves scheduled cancelled = true
moves scheduled failed = true
moves running running = true
moves running paused = true
moves running completed = true
moves running cancelled = true
moves running failed = true
moves paused paused = true
moves paused scheduled = true
moves paused running = true
moves paused cancelled = true
moves completed completed = true
moves cancelled cancelled = true
moves failed failed = true
moves _ _ = false

moves_refl : (s : CampaignStatus) → moves s s ≡ true
moves_refl s = ground arith

pub campaigns-add_recipients :
    (id now : ℕ) (contacts : List ℕ) (db : CampaignDb)
    → (add_recipients id now contacts db).campaigns ≡ db.campaigns
unfolding add_recipients
campaigns-add_recipients id now [] db = refl
campaigns-add_recipients id now (contact ∷ contacts) db =
    campaigns-add_recipients id now contacts (add_recipient id now contact db)
    ∙ added (any (has_contact id contact) db.recipients) refl
  where
    added :
        (b : Bool)
        → any (has_contact id contact) db.recipients ≡ b
        → (add_recipient id now contact db).campaigns ≡ db.campaigns
    added true e = rw e refl
    added false e = rw e refl

launched-moves :
    (now : ℕ) (contacts : List ℕ) (c : Campaign)
    → same_status c.status draft ≡ true
    → moves c.status (launched_row now contacts c).status ≡ true
launched-moves now [] c h = ground (arith, h)
launched-moves now (contact ∷ contacts) c h = ground (arith, h)

pub resumed-id :
    (now : ℕ) (scheduled_at started_at : Option ℕ) (x : Campaign)
    → (resumed_row now scheduled_at started_at x).id ≡ x.id
resumed-id now scheduled_at started_at x = ground arith

-- The campaign after a step.
pub record HasMoved (id : ℕ) (s : CampaignStatus) (after : CampaignDb) : Type 0 where
  pub row : Campaign
  pub there : find id after.campaigns ≡ some row
  pub along : moves s row.status ≡ true

module _ (id : ℕ) (c : Campaign) where
  stays : (after : CampaignDb) → find id after.campaigns ≡ some c → HasMoved id c.status after
  stays after e = record { row = c; there = e; along = moves_refl c.status }

  updated-HasMoved :
      (test : Campaign → Bool) (f : Campaign → Campaign) (db : CampaignDb)
      → ((x : Campaign) → (f x).id ≡ x.id)
      → find id db.campaigns ≡ some c
      → (test c ≡ true → moves c.status (f c).status ≡ true)
      → HasMoved id c.status (update_campaigns test f db)
  updated-HasMoved test f db keeps e step = elim (Bool-cases (test c)) [
    | inl hit ↦ record {
      row = f c;
      there = ground (arith, find-update_where id test f db.campaigns keeps, e, hit);
      along = step hit;
    }
    | inr miss ↦
        stays (update_campaigns test f db)
          (ground (arith, find-update_where id test f db.campaigns keeps, e, miss))
  ]

  launch-HasMoved :
      (now most tenant other : ℕ) (setup : Setup) (contacts : List ℕ) (db : CampaignDb)
      → find id db.campaigns ≡ some c
      → HasMoved id c.status (or_same db (launch now most tenant other setup contacts db))
  launch-HasMoved now most tenant other setup contacts db e =
      elim (launch-cases now most tenant other setup contacts db) [
        | inl same ↦ subst (HasMoved id c.status) (sym same) (stays db e)
        | inr (d, found, is_draft, done) ↦
            let added = add_recipients other now contacts db in
            subst (HasMoved id c.status) (sym done) (
              updated-HasMoved (λ x. x.id == other) (launched_row now contacts) added (λ x. refl)
                (ap (find id) (campaigns-add_recipients other now contacts db) ∙ e)
                (λ hit. launched-moves now contacts c (drafted d found is_draft hit)))
      ]
    where
      drafted :
          (d : Campaign)
          → find other db.campaigns ≡ some d
          → same_status d.status draft ≡ true
          → (c.id == other) ≡ true
          → same_status c.status draft ≡ true
      drafted d found is_draft hit =
          let same : other ≡ id = sym ((==_iff _ _).0 hit) ∙ find-key id db.campaigns e in
          let one : d ≡ c =
            some-injective _ _ (sym found ∙ ap (λ n. find n db.campaigns) same ∙ e) in
          subst (λ (x : Campaign). same_status x.status draft ≡ true) one is_draft

  cancel-HasMoved :
      (tenant other now : ℕ) (db : CampaignDb)
      → find id db.campaigns ≡ some c
      → HasMoved id c.status (cancel_rows tenant other now db)
  unfolding cancel_rows
  cancel-HasMoved tenant other now db e =
      elim (Bool-cases (hits other (cancel_test tenant other) db)) [
        | inl hit ↦ rw hit (
            let m =
              updated-HasMoved (cancel_test tenant other)
                (λ (x : Campaign). record x { status = cancelled; cancelled_at = some now }) db
                (λ x. refl) e (λ h. ground (arith, h)) in
            record { row = m.row; there = m.there; along = m.along })
        | inr miss ↦ rw miss (stays db e)
      ]

  fail-HasMoved :
      (other : ℕ) (reason : Text) (db : CampaignDb)
      → find id db.campaigns ≡ some c
      → HasMoved id c.status (fail_campaign other reason db).0
  unfolding fail_campaign
  fail-HasMoved other reason db e = elim (Bool-cases (hits other (fail_test other) db)) [
    | inl hit ↦ rw hit (
        let m =
          updated-HasMoved (fail_test other)
            (λ (x : Campaign). record x {
              status = failed;
              failure_reason = some (take 2000 reason);
            })
            db (λ x. refl) e (λ h. ground (arith, h)) in
        record { row = m.row; there = m.there; along = m.along })
    | inr miss ↦ rw miss (stays db e)
  ]

  step-HasMoved :
      (step : Step) (db : CampaignDb)
      → find id db.campaigns ≡ some c
      → HasMoved id c.status (apply step db)
  unfolding apply pause_row resume_row promote_scheduled write_counts complete_row claim_recipients
      complete_claim
  step-HasMoved (launches now most tenant other setup contacts) db e =
      launch-HasMoved now most tenant other setup contacts db e
  step-HasMoved (promotes now) db e = updated-HasMoved _ _ db (λ x. refl) e (λ h. ground (arith, h))
  step-HasMoved (pauses tenant other) db e =
      updated-HasMoved _ _ db (λ x. refl) e (λ h. ground (arith, h))
  step-HasMoved (resumes tenant other now scheduled_at started_at) db e =
      updated-HasMoved _ (resumed_row now scheduled_at started_at) db
        (resumed-id now scheduled_at started_at) e (λ h. ground (arith, h))
  step-HasMoved (cancels tenant other now) db e = cancel-HasMoved tenant other now db e
  step-HasMoved (fails other reason) db e = fail-HasMoved other reason db e
  step-HasMoved (claims locked now config batch) db e = stays _ e
  step-HasMoved (completes claim data_) db e = stays _ e
  step-HasMoved (counts other seen) db e =
      updated-HasMoved _ _ db (λ x. refl) e (λ h. moves_refl c.status)
  step-HasMoved (finishes other now) db e =
      updated-HasMoved _ _ db (λ x. refl) e (λ h. ground (arith, h))

abbrev pub is_over : CampaignStatus → Bool
is_over completed = true
is_over cancelled = true
is_over failed = true
is_over _ = false

over-stays : (s t : CampaignStatus) → is_over s ≡ true → moves s t ≡ true → s ≡ t
over-stays s t over m = ground (arith, over, m)

-- A campaign that is COMPLETED, CANCELLED or FAILED has that status for ever, whatever steps the
-- workers and the requests run, in any order.
pub run-over :
    (steps : List Step) (db : CampaignDb) (id : ℕ) (c : Campaign)
    → find id db.campaigns ≡ some c
    → is_over c.status ≡ true
    → (d : Campaign) × (find id (run steps db).campaigns ≡ some d) × (d.status ≡ c.status)
unfolding run
run-over [] db id c e over = (c, e, refl)
run-over (step ∷ steps) db id c e over =
    let m = step-HasMoved id c step db e in
    let same : c.status ≡ m.row.status = over-stays c.status m.row.status over m.along in
    let (d, there, kept) =
      run-over steps (apply step db) id m.row m.there (ap is_over (sym same) ∙ over) in
    (d, there, kept ∙ sym same)

-- Each step moves the status of a campaign along the graph of `moves`: from DRAFT by a launch or a
-- cancellation; between SCHEDULED, RUNNING and PAUSED, with no move from RUNNING to SCHEDULED; from
-- these to CANCELLED; from SCHEDULED and RUNNING to FAILED; from RUNNING to COMPLETED; and never on
-- from an end.
pub apply-HasMoved :
    (step : Step) (db : CampaignDb) (id : ℕ) (c : Campaign)
    → find id db.campaigns ≡ some c
    → HasMoved id c.status (apply step db)
apply-HasMoved step db id c e = step-HasMoved id c step db e
