-- ===== src/Dispatch/Branches.antt =====
-- The branches of `dispatch` after the claim, for any statement about what it returns: each one ends
-- with `markFailed`, `markRetryableFailure` or the SUBMITTED update, over tables whose events alone
-- have changed.
use api_whats_app.Base.{
  ℕ, ◌≡◌, refl, ◌⊎◌, inl, inr, List, Option, none, some, Text, Thrown, Bool-cases, Option-cases,
  Sum-cases,
}
use api_whats_app.Base.Json.{Json}
use api_whats_app.Message.{Message, StatusEvent, Db, same_class}
use api_whats_app.Dispatch.{
  Job, ack, retry, dead, Processing, World, Sender, MetaError, SendOutcome, accepted, refused,
  broken, mark_failed, mark_retryable_failure, mark_submitted, send_and_record, resolve_and_send,
  dispatch_claimed,
}

SendOutcome-cases :
    (o : SendOutcome)
    → ((provider : Text) × (response : Option Json) × (o ≡ accepted provider response))
      ⊎ (((e : MetaError) × (o ≡ refused e)) ⊎ ((t : Thrown) × (o ≡ broken t)))
SendOutcome-cases (accepted provider response) = inl (provider, response, refl)
SendOutcome-cases (refused e) = inr (inl (e, refl))
SendOutcome-cases (broken t) = inr (inr (t, refl))

module _ {ℓ} (P : Db × Processing → Type ℓ) (w : World) (job : Job) (m : Message) (db : Db)
    (on_failed : (events : List StatusEvent) (code message : Text) (response : Option Json)
        (reason : Text)
      → P (
        mark_failed w.later m.id code message response (record db { events = events }),
        record { action = dead; reason = some reason },
      ))
    (on_retryable : (events : List StatusEvent) (code message : Text) (attempt : ℕ)
        (response : Option Json) (reason : Text)
      → P (
        mark_retryable_failure m.id code message attempt response (record db { events = events }),
        record { action = retry; reason = some reason },
      ))
    (on_submitted : (events : List StatusEvent) (provider : Text) (response : Option Json)
      → P (
        mark_submitted w.later m.id provider response (record db { events = events }),
        record { action = ack; reason = none },
      )) where
  send_and_record-elim :
      (events : List StatusEvent) (s : Sender)
      → P (send_and_record w job m s (record db { events = events }))
  unfolding send_and_record
  send_and_record-elim events s = elim (SendOutcome-cases (w.send m s)) [
    | inl (provider, response, e) ↦ elim (Option-cases w.submit_error) [
      | inl f ↦ rw (e, f, send_and_record) (on_submitted events _ _)
      | inr (thrown, f) ↦ rw (e, f, send_and_record) (on_failed events _ _ _ _)
    ]
    | inr (inl (err, e)) ↦ elim (Bool-cases err.retryable) [
      | inl f ↦ rw (e, f, send_and_record) (on_retryable events _ _ _ _ _)
      | inr f ↦ rw (e, f, send_and_record) (on_failed events _ _ _ _)
    ]
    | inr (inr (thrown, e)) ↦ rw (e, send_and_record) (on_failed events _ _ _ _)
  ]

  resolve_and_send-elim :
      (events : List StatusEvent) → P (resolve_and_send w job m (record db { events = events }))
  unfolding resolve_and_send
  resolve_and_send-elim events = elim (Sum-cases (w.resolve m.sender_id)) [
    | inl (thrown, e) ↦ rw (e, resolve_and_send) (on_failed events _ _ _ _)
    | inr (s, e) ↦ elim (Option-cases (w.wait_for_slot s m.traffic_class)) [
      | inl f ↦ rw (e, f, resolve_and_send) (send_and_record-elim events s)
      | inr (thrown, f) ↦ rw (e, f, resolve_and_send) (on_retryable events _ _ _ _ _)
    ]
  ]

  pub dispatch_claimed-elim : P (dispatch_claimed w job m db)
  unfolding dispatch_claimed
  dispatch_claimed-elim = elim (Bool-cases (same_class m.traffic_class job.traffic_class)) [
    | inl e ↦ rw e (resolve_and_send-elim _)
    | inr e ↦ rw e (on_failed db.events _ _ _ _)
  ]
