-- ===== src/Dispatch/Redelivery.antt =====
-- What `dispatch` of message-dispatcher.service.ts does with jobs that it must not send again, and
-- what it leaves alone.
use api_whats_app.Base.{
  ℕ, ◌≡◌, ◌≢◌, refl, ◌⊎◌, inl, inr, Bool, true, false, ◌&&◌, ◌||◌, Option, none, some, Text, arith,
  Bool-cases, Option-cases, text, find-key, ◌∙◌,
}
use api_whats_app.Message.{Message, message_row, failed, Db}
use api_whats_app.Message.Store.{find_message, update_message, find_message-update}
use api_whats_app.Dispatch.{
  Job, ack, World, claimable, claim_message, claimed_row, is_settled, is_processing,
  has_provider_id, not_claimed, mark_failed, mark_retryable_failure, mark_submitted, failed_row,
  retryable_row, submitted_row, dispatch_claimed, dispatch, mark_retry_exhausted, runs_past,
  exhausted_text,
}
use api_whats_app.Dispatch.Branches.{dispatch_claimed-elim}
use api_whats_app.Dispatch.Lease.{claim_message_refused, claim_message_accepted}
use api_whats_app.Dispatch.Outcome.{dispatch_outcome}

claimable-settled : (now : ℕ) (m : Message) → is_settled m.status ≡ true → claimable now m ≡ false
unfolding claimable
claimable-settled now m h = ground arith

claimable-provider : (now : ℕ) (m : Message) → has_provider_id m ≡ true → claimable now m ≡ false
unfolding claimable
claimable-provider now m h = ground arith

-- A job for a message that has a provider id, or whose status is SUBMITTED or later, FAILED,
-- CANCELLED or EXPIRED, is acknowledged and changes nothing, whatever the services would answer.
pub dispatch_settled :
    (w : World) (job : Job) (db : Db) (m : Message)
    → find_message job.message_id db ≡ some m
    → (is_settled m.status ≡ true) ⊎ (has_provider_id m ≡ true)
    → dispatch w job db ≡ (db, record { action = ack; reason = none })
unfolding dispatch not_claimed
dispatch_settled w job db m there (inl h) =
    rw
      (claim_message_refused w.now w.lease_config job.message_id db m there
        (claimable-settled w.now m h))
      (ground (arith, h))
dispatch_settled w job db m there (inr h) =
    rw
      (claim_message_refused w.now w.lease_config job.message_id db m there
        (claimable-provider w.now m h))
      (ground (arith, h))

-- After a dispatch has answered `ack` for a message that it claimed, a redelivery of any job for
-- that message, with whatever its services would answer, is acknowledged and changes nothing.
pub redelivery_after_ack :
    (w : World) (job : Job) (db : Db) (m : Message) (w' : World) (job' : Job)
    → find_message job.message_id db ≡ some m
    → claimable w.now m ≡ true
    → (dispatch w job db).1.action ≡ ack
    → job'.message_id ≡ job.message_id
    → dispatch w' job' (dispatch w job db).0
      ≡ ((dispatch w job db).0, record { action = ack; reason = none })
redelivery_after_ack w job db m w' job' there free acked same =
    let done = dispatch_outcome w job db m there free in
    dispatch_settled w' job' (dispatch w job db).0 done.row (rw same done.there)
      (inl (ground (arith, done.ends)))

claim_message_missing :
    (now config id : ℕ) (db : Db)
    → find_message id db ≡ none
    → claim_message now config id db ≡ (db, false, none)
unfolding claim_message
claim_message_missing now config id db e = ground (arith, e)

frame-update :
    (id j : ℕ) (f : Message → Message) (db : Db)
    → ((x : Message) → (f x).id ≡ x.id)
    → j ≢ id
    → find_message j (update_message id f db) ≡ find_message j db
frame-update id j f db keeps differs = ground (arith, find_message-update id j f db keeps)

dispatch_claimed-frame :
    (w : World) (job : Job) (m : Message) (db : Db) (j : ℕ)
    → j ≢ m.id
    → find_message j (dispatch_claimed w job m db).0 ≡ find_message j db
unfolding mark_failed mark_retryable_failure mark_submitted
dispatch_claimed-frame w job m db j differs =
    dispatch_claimed-elim (λ r. find_message j r.0 ≡ find_message j db) w job m db
      (λ _ code message response _.
        frame-update m.id j (failed_row w.later code message response) db (λ _. refl) differs)
      (λ _ code message _ _ _.
        frame-update m.id j (retryable_row code message) db (λ _. refl) differs)
      (λ _ provider response.
        frame-update m.id j (submitted_row w.later provider response) db (λ _. refl) differs)

-- A dispatch changes no row but the one that its job names.
pub dispatch_frame :
    (w : World) (job : Job) (db : Db) (j : ℕ)
    → j ≢ job.message_id
    → find_message j (dispatch w job db).0 ≡ find_message j db
unfolding dispatch
dispatch_frame w job db j differs = elim (Option-cases (find_message job.message_id db)) [
  | inl e ↦ rw (claim_message_missing w.now w.lease_config job.message_id db e)
  | inr (m, e) ↦ elim (Bool-cases (claimable w.now m)) [
    | inl free ↦
        let same : m.id ≡ job.message_id = find-key job.message_id db.messages e in
        rw (claim_message_accepted w.now w.lease_config job.message_id db m e free) (
          dispatch_claimed-frame w job (claimed_row w.now w.lease_config m) _ j (ground arith)
          ∙ frame-update job.message_id j (claimed_row w.now w.lease_config) db (λ _. refl) differs)
    | inr kept ↦ rw (claim_message_refused w.now w.lease_config job.message_id db m e kept)
  ]
]

-- A settled status, or a processing lease that still runs.
abbrev pub is_kept : ℕ → Message → Bool
is_kept now m =
    is_settled m.status || is_processing m.status && runs_past now m.processing_lease_until

-- The row is failed with RETRY_EXHAUSTED and holds no lease.
abbrev pub IsExhausted : ℕ → Db → Type 0
IsExhausted id db =
    (row : Message) × (find_message id db ≡ some row)
    × (row.status ≡ failed)
    × (row.error_code ≡ some (text "RETRY_EXHAUSTED"))
    × (row.processing_lease_until ≡ none)

module _ (now : ℕ) (job : Job) (reason : Option Text) (db : Db) (m : Message)
    (there : find_message job.message_id db ≡ some m) where
  mark_retry_exhausted_kept : is_kept now m ≡ true → mark_retry_exhausted now job reason db ≡ db
  unfolding mark_retry_exhausted
  mark_retry_exhausted_kept h = rw (there, mark_retry_exhausted) (ground arith)

  mark_retry_exhausted-IsExhausted :
      is_kept now m ≡ false → IsExhausted job.message_id (mark_retry_exhausted now job reason db)
  unfolding mark_retry_exhausted mark_failed
  mark_retry_exhausted-IsExhausted free =
      let row = failed_row now (text "RETRY_EXHAUSTED") (exhausted_text job reason) none in
      let same : m.id ≡ job.message_id = find-key job.message_id db.messages there in
      (
        row m,
        ground (
          arith,
          there,
          same,
          find_message-update job.message_id job.message_id row db (λ _. refl),
        ),
        refl,
        refl,
        refl,
      )

-- `markRetryExhausted` changes nothing if the status of the message is settled or its processing
-- lease still runs; otherwise it fails the message with RETRY_EXHAUSTED and releases the row.
pub mark_retry_exhausted_outcome :
    (now : ℕ) (job : Job) (reason : Option Text) (db : Db) (m : Message)
    → find_message job.message_id db ≡ some m
    → ((is_kept now m ≡ true) × (mark_retry_exhausted now job reason db ≡ db))
      ⊎ ((is_kept now m ≡ false)
          × IsExhausted job.message_id (mark_retry_exhausted now job reason db))
mark_retry_exhausted_outcome now job reason db m there = elim (Bool-cases (is_kept now m)) [
  | inl h ↦ inl (h, mark_retry_exhausted_kept now job reason db m there h)
  | inr h ↦ inr (h, mark_retry_exhausted-IsExhausted now job reason db m there h)
]
