-- ===== src/Campaign/Settled.antt =====
-- Steps of src/campaigns and the recipients that are settled: QUEUED, SKIPPED, FAILED or CANCELLED.

use mathlib.Core.Option.{some-injective}
use api_whats_app.Base.{
  none, ==_iff, ℕ, ◌+◌, ◌==◌, Bool, true, false, ◌||◌, Option, some, List, [], ◌∷◌, ◌++◌, ◌≡◌, refl,
  sym, ap, ◌∙◌, ◌⊎◌, find-append, Text, text, decimal, leb, length, take, inl, inr, arith,
  Bool-cases, find, find-update_where, find-claim_first, any,
}
use api_whats_app.Base.Result.{
  HttpError, Result, ok, err, >>=-eq-ok, guard->>-eq-ok, or_fail-eq-ok, ok-injective, ◌>>◌, guard,
  bad_request, if_ok-eq-ok,
}
use api_whats_app.Campaign.{
  of_tenant, update_campaigns, find_by_id, same_status, draft, Campaign, campaign_row, Recipient,
  recipient_row, RecipientStatus, CampaignDb, is_pending, is_processing, of_campaign,
  update_recipients, cancel_rows, cancel_test, fail_campaign, fail_test, hits,
}
use api_whats_app.Campaign.Launch.{
  assert_setup, Setup, launch, snapshot_taken, launched_row, add_recipient, add_recipients,
  has_contact,
}
use api_whats_app.Campaign.Processor.{
  claim_recipients, claim_test, claimed_row, complete_claim, completed_row, claim_holds, Completion,
}
use api_whats_app.Campaign.Steps.{
  Step, launches, promotes, pauses, resumes, cancels, fails, claims, completes, counts, finishes,
  apply, run, or_same,
}

abbrev pub is_open : RecipientStatus → Bool
is_open s = is_pending s || is_processing s

pub completed-id : (data_ : Completion) (x : Recipient) → (completed_row data_ x).id ≡ x.id
completed-id data_ x = ground arith

Result-cases :
    (r : Result CampaignDb) → ((a : CampaignDb) × (r ≡ ok a)) ⊎ ((e : HttpError) × (r ≡ err e))
Result-cases (ok a) = inl (a, refl)
Result-cases (err e) = inr (e, refl)

pub of_tenant-eq-some :
    (tenant : ℕ) (o : Option Campaign) {c : Campaign}
    → of_tenant tenant o ≡ some c
    → (o ≡ some c) × (c.tenant_id ≡ tenant)
of_tenant-eq-some tenant none e = absurd (cc)
of_tenant-eq-some tenant (some x) {c} e = elim (Bool-cases (x.tenant_id == tenant)) [
  | inl hit ↦
      let same : some x ≡ some c = rw hit at e in
      (
        same,
        ap (λ (y : Campaign). y.tenant_id) (sym (some-injective _ _ same)) ∙ (==_iff _ _).0 hit,
      )
  | inr miss ↦ absurd (ground (arith, rw miss at e))
]

drafted-eq-ok :
    (now most id : ℕ) (setup : Setup) (contacts : List ℕ) (db : CampaignDb) {after : CampaignDb}
    → (assert_setup setup
        >> (guard (leb (length (take (most + 1) contacts)) most) (
              bad_request (
                text "Campaign audience exceeds CAMPAIGN_MAX_RECIPIENTS ("
                ++ decimal most
                ++ text ")"))
            >> ok (
                update_campaigns
                  (λ x. x.id == id)
                  (launched_row now contacts)
                  (add_recipients id now contacts db))))
      ≡ ok after
    → update_campaigns
        (λ x. x.id == id)
        (launched_row now contacts)
        (add_recipients id now contacts db)
      ≡ after
drafted-eq-ok now most id setup contacts db h =
    let (_, _, h1) = >>=-eq-ok (assert_setup setup) _ h in
    ok-injective (guard->>-eq-ok (leb (length (take (most + 1) contacts)) most) _ _ h1).1

-- A launch changes nothing, or starts a draft.
pub launch-cases :
    (now most tenant id : ℕ) (setup : Setup) (contacts : List ℕ) (db : CampaignDb)
    → (or_same db (launch now most tenant id setup contacts db) ≡ db)
      ⊎ ((c : Campaign) × (find id db.campaigns ≡ some c)
          × (same_status c.status draft ≡ true)
          × (or_same db (launch now most tenant id setup contacts db)
              ≡ update_campaigns
                  (λ x. x.id == id)
                  (launched_row now contacts)
                  (add_recipients id now contacts db)))
unfolding launch
launch-cases now most tenant id setup contacts db =
    elim (Result-cases (launch now most tenant id setup contacts db)) [
      | inr (e, h) ↦ inl (ap (or_same db) h)
      | inl (after, h) ↦
          let (c, p, h1) = >>=-eq-ok (find_by_id tenant id db) _ h in
          elim (if_ok-eq-ok (snapshot_taken c) _ h1) [
            | inl same ↦ inl (ap (or_same db) h ∙ sym same)
            | inr fresh ↦
                let (is_draft, h2) = guard->>-eq-ok (same_status c.status draft) _ _ fresh in
                inr (
                  c,
                  (of_tenant-eq-some tenant _ (or_fail-eq-ok _ _ p)).0,
                  is_draft,
                  ap (or_same db) h ∙ sym (drafted-eq-ok now most id setup contacts db h2),
                )
          ]
    ]

module _ (j : ℕ) (r : Recipient) where
  -- The row reads `r` before; it does after.
  abbrev pub Keeps : CampaignDb → CampaignDb → Type 0
  Keeps before after = find j before.recipients ≡ some r → find j after.recipients ≡ some r

  pub updated-Keeps :
      (test : Recipient → Bool) (f : Recipient → Recipient) (db : CampaignDb)
      → ((x : Recipient) → (f x).id ≡ x.id)
      → test r ≡ false
      → Keeps db (update_recipients test f db)
  updated-Keeps test f db keeps miss e =
      ground (arith, find-update_where j test f db.recipients keeps, e, miss)

  add_recipient-Keeps :
      (id now contact : ℕ) (db : CampaignDb) → Keeps db (add_recipient id now contact db)
  add_recipient-Keeps id now contact db e =
      elim (Bool-cases (any (has_contact id contact) db.recipients)) [
        | inl hit ↦ rw hit e
        | inr miss ↦ rw miss (find-append j db.recipients _ e)
      ]

  add_recipients-Keeps :
      (id now : ℕ) (contacts : List ℕ) (db : CampaignDb)
      → Keeps db (add_recipients id now contacts db)
  unfolding add_recipients
  add_recipients-Keeps id now [] db e = e
  add_recipients-Keeps id now (contact ∷ contacts) db e =
      add_recipients-Keeps id now contacts (add_recipient id now contact db)
        (add_recipient-Keeps id now contact db e)

  launch-Keeps :
      (now most tenant id : ℕ) (setup : Setup) (contacts : List ℕ) (db : CampaignDb)
      → Keeps db (or_same db (launch now most tenant id setup contacts db))
  launch-Keeps now most tenant id setup contacts db e =
      elim (launch-cases now most tenant id setup contacts db) [
        | inl same ↦ ap (λ (d : CampaignDb). find j d.recipients) same ∙ e
        | inr (c, _, _, done) ↦
            ap (λ (d : CampaignDb). find j d.recipients) done
            ∙ add_recipients-Keeps id now contacts db e
      ]

  module _ (done : is_open r.status ≡ false) where
    cancel-Keeps : (tenant id now : ℕ) (db : CampaignDb) → Keeps db (cancel_rows tenant id now db)
    unfolding cancel_rows
    cancel-Keeps tenant id now db e = elim (Bool-cases (hits id (cancel_test tenant id) db)) [
      | inl hit ↦
          rw hit
            (updated-Keeps (of_campaign id is_pending) _ db (λ x. refl) (ground (arith, done)) e)
      | inr miss ↦ rw miss e
    ]

    fail-Keeps :
        (id : ℕ) (reason : Text) (db : CampaignDb) → Keeps db (fail_campaign id reason db).0
    unfolding fail_campaign
    fail-Keeps id reason db e = elim (Bool-cases (hits id (fail_test id) db)) [
      | inl hit ↦
          rw hit
            (updated-Keeps (of_campaign id is_pending) _ db (λ x. refl) (ground (arith, done)) e)
      | inr miss ↦ rw miss e
    ]

    claim-Keeps :
        (locked : ℕ → Bool) (now config batch : ℕ) (db : CampaignDb)
        → Keeps db (claim_recipients locked now config batch db).0
    unfolding claim_recipients
    claim-Keeps locked now config batch db e =
        elim (find-claim_first j batch (claim_test locked now db) (claimed_row now config)
          db.recipients {a = r} (λ x. refl) e) [
            | inl same ↦ same
            | inr (hit, _) ↦ absurd (ground (arith, hit, done))
          ]

    complete-Keeps :
        (claim : Recipient) (data_ : Completion) (db : CampaignDb)
        → Keeps db (complete_claim claim data_ db)
    unfolding complete_claim
    complete-Keeps claim data_ db e =
        updated-Keeps (claim_holds claim) (completed_row data_) db (completed-id data_)
          (ground (arith, done)) e

    step-Keeps : (step : Step) (db : CampaignDb) → Keeps db (apply step db)
    unfolding apply
    step-Keeps (launches now most tenant id setup contacts) db e =
        launch-Keeps now most tenant id setup contacts db e
    step-Keeps (promotes now) db e = e
    step-Keeps (pauses tenant id) db e = e
    step-Keeps (resumes tenant id now scheduled_at started_at) db e = e
    step-Keeps (cancels tenant id now) db e = cancel-Keeps tenant id now db e
    step-Keeps (fails id reason) db e = fail-Keeps id reason db e
    step-Keeps (claims locked now config batch) db e = claim-Keeps locked now config batch db e
    step-Keeps (completes claim data_) db e = complete-Keeps claim data_ db e
    step-Keeps (counts id seen) db e = e
    step-Keeps (finishes id now) db e = e

-- A recipient that is neither PENDING nor PROCESSING stays as it is, whatever steps the workers and
-- the requests run, in any order.
pub run-settled :
    (steps : List Step) (db : CampaignDb) (j : ℕ) (r : Recipient)
    → find j db.recipients ≡ some r
    → is_open r.status ≡ false
    → find j (run steps db).recipients ≡ some r
unfolding run
run-settled [] db j r there done = there
run-settled (step ∷ steps) db j r there done =
    run-settled steps (apply step db) j r (step-Keeps j r done step db there) done
