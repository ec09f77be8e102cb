-- ===== src/Webhook/Progress.antt =====
-- Delivery statuses only move forward: `shouldApplyStatus` and `applyStatus` of
-- src/webhooks/webhook-status.service.ts.
use mathlib.Core.Option.{some-injective}
use api_whats_app.Base.{
  ℕ, ◌≡◌, ◌≢◌, refl, ◌⊎◌, inl, inr, ◌==◌, true, Option, some, List, [], ◌∷◌, Text, arith,
  Bool-cases, Option-cases, find, ==_iff, sym, ◌∙◌,
}
use api_whats_app.Base.Json.{Json}
use api_whats_app.Message.{
  MessageStatus, created, received, queued, processing, submitted, sent, delivered, read, failed,
  Message, message_row, Db,
}
use api_whats_app.Message.Store.{find_message, find_message-update}
use api_whats_app.Base.{Distinct, Distinct-modify, All-find}
use api_whats_app.Webhook.{
  ProviderStatus, ProviderError, map_status, should_apply, extract_error, extract_statuses,
}
use api_whats_app.Webhook.Apply.{
  carries, find_provider, status_row, apply_target, apply_status, apply_statuses, process_payload,
}

-- A status that a webhook may set.
abbrev pub IsTarget : MessageStatus → Type 0
IsTarget t = (t ≡ sent) ⊎ ((t ≡ delivered) ⊎ ((t ≡ read) ⊎ (t ≡ failed)))

-- No status of Meta has been applied yet, and the message is not settled. A row that is RECEIVED is
-- an inbound message; `shouldApplyStatus` does not tell it apart.
abbrev pub IsUnsent : MessageStatus → Type 0
IsUnsent s = (s ≡ created) ⊎ (s ≡ queued) ⊎ (s ≡ processing) ⊎ (s ≡ submitted) ⊎ (s ≡ received)

-- `t` may follow `s`: it is `s` again; or the message fails before it was delivered; or it is sent,
-- then delivered, then read, where steps may be left out.
pub data Advances (s t : MessageStatus) : Type 0 where
  same : t ≡ s → Advances s t
  fails : t ≡ failed → s ≢ delivered → s ≢ read → Advances s t
  is_sent : t ≡ sent → IsUnsent s → Advances s t
  is_delivered : t ≡ delivered → IsUnsent s ⊎ (s ≡ sent) → Advances s t
  is_read : t ≡ read → IsUnsent s ⊎ (s ≡ sent) ⊎ (s ≡ delivered) → Advances s t

should_apply-Advances : (s t : MessageStatus) → IsTarget t → should_apply s t ≡ true → Advances s t
unfolding should_apply
should_apply-Advances s t target h = grind (arith, same, fails, is_sent, is_delivered, is_read)

unsent-delivered : (s : MessageStatus) → IsUnsent s → (s ≢ delivered) × (s ≢ read)
unsent-delivered s h = ground arith

Advances-trans : (s t u : MessageStatus) → Advances s t → Advances t u → Advances s u
Advances-trans s t u (same e) b = ground (arith, b)
Advances-trans s t u a (same e) = ground (arith, a)
Advances-trans s t u (fails e p q) (fails f x y) = fails f p q
Advances-trans s t u (fails e p q) (is_sent f x) = absurd (ground arith)
Advances-trans s t u (fails e p q) (is_delivered f x) = absurd (ground arith)
Advances-trans s t u (fails e p q) (is_read f x) = absurd (ground arith)
Advances-trans s t u (is_sent e a) (fails f x y) =
    fails f (unsent-delivered s a).0 (unsent-delivered s a).1
Advances-trans s t u (is_sent e a) (is_sent f b) = is_sent f a
Advances-trans s t u (is_sent e a) (is_delivered f b) = is_delivered f (inl a)
Advances-trans s t u (is_sent e a) (is_read f b) = is_read f (inl a)
Advances-trans s t u (is_delivered e a) (fails f x y) = absurd (x e)
Advances-trans s t u (is_delivered e a) (is_sent f b) = absurd (ground arith)
Advances-trans s t u (is_delivered e a) (is_delivered f b) = is_delivered f a
Advances-trans s t u (is_delivered e a) (is_read f b) = is_read f (ground arith)
Advances-trans s t u (is_read e a) (fails f x y) = absurd (y e)
Advances-trans s t u (is_read e a) (is_sent f b) = absurd (ground arith)
Advances-trans s t u (is_read e a) (is_delivered f b) = absurd (ground arith)
Advances-trans s t u (is_read e a) (is_read f b) = is_read f a

find-find_provider :
    (p : Text) (ms : List Message) (m : Message)
    → Distinct ms
    → find_provider p ms ≡ some m
    → find m.id ms ≡ some m
unfolding find_provider
find-find_provider p [] m d e = absurd (cc)
find-find_provider p (x ∷ ms) m (fresh, d) e = elim (Bool-cases (carries p x)) [
  | inl hit ↦ let at_x : x ≡ m = some-injective x m (rw hit at e) in rw at_x (ground arith)
  | inr miss ↦
      let later : find m.id ms ≡ some m = find-find_provider p ms m d (rw miss at e) in
      let other : m.id ≢ x.id = All-find (λ (y : Message). y.id ≢ x.id) m.id ms fresh later in
      ground (arith, later, other)
]

status_row-keeps :
    (t : MessageStatus) (at : ℕ) (error : ProviderError) (m : Message)
    → (status_row t at error m).id ≡ m.id
unfolding status_row
status_row-keeps sent at error m = refl
status_row-keeps _ at error m = refl

status_row-status :
    (t : MessageStatus) (at : ℕ) (error : ProviderError) (m : Message)
    → (status_row t at error m).status ≡ t
unfolding status_row
status_row-status sent at error m = refl
status_row-status _ at error m = refl

-- The row with the id is there still, with the same provider id and a status that may follow.
abbrev pub HasAdvanced : ℕ → Message → Db → Type 0
HasAdvanced id m db =
    (m' : Message) × (find_message id db ≡ some m')
    × Advances m.status m'.status
    × (m'.provider_message_id ≡ m.provider_message_id)

status_row-provider :
    (t : MessageStatus) (at : ℕ) (error : ProviderError) (m : Message)
    → (status_row t at error m).provider_message_id ≡ m.provider_message_id
unfolding status_row
status_row-provider sent at error m = refl
status_row-provider _ at error m = refl

map_status-IsTarget : (s : Text) (t : MessageStatus) → map_status s ≡ some t → IsTarget t
unfolding map_status
map_status-IsTarget s t e = ground arith

apply_target-HasAdvanced :
    (t : MessageStatus) (at : ℕ) (p : ProviderStatus) (x : Message) (db : Db) (id : ℕ) (m : Message)
    → IsTarget t
    → find_message x.id db ≡ some x
    → find_message id db ≡ some m
    → HasAdvanced id m (apply_target t at p x db)
unfolding apply_target
apply_target-HasAdvanced t at p x db id m target found there =
    elim (Bool-cases (should_apply x.status t)) [
      | inl apply ↦ elim (Bool-cases (x.id == id)) [
        | inl hit ↦
            let here : x.id ≡ id = (==_iff x.id id).0 hit in
            let one : x ≡ m = some-injective x m (sym found ∙ rw here there) in
            let row = status_row t at (extract_error p.errors) in
            rw apply (
              row x,
              ground (
                arith,
                here,
                found,
                find_message-update x.id id row db (status_row-keeps t at (extract_error p.errors)),
              ),
              rw (← one, status_row-status) (should_apply-Advances x.status t target apply),
              rw (← one) (status_row-provider t at (extract_error p.errors) x),
            )
        | inr miss ↦ rw apply (
          m,
          ground (
            arith,
            there,
            find_message-update x.id id (status_row t at (extract_error p.errors)) db
                (status_row-keeps t at (extract_error p.errors)),
          ),
          same refl,
          refl,
        )
      ]
      | inr keep ↦ rw keep (m, there, same refl, refl)
    ]

apply_status-HasAdvanced :
    (number : Text → Option ℕ) (now : ℕ) (p : ProviderStatus) (db : Db) (id : ℕ) (m : Message)
    → Distinct db.messages
    → find_message id db ≡ some m
    → HasAdvanced id m (apply_status number now p db)
unfolding apply_status
apply_status-HasAdvanced number now p db id m d there = elim (Option-cases (map_status p.status)) [
  | inl e ↦ rw (e, apply_status) (m, there, same refl, refl)
  | inr (t, e) ↦ elim (Option-cases (find_provider p.id db.messages)) [
    | inl f ↦ rw (e, f, apply_status) (m, there, same refl, refl)
    | inr (x, f) ↦
        rw (e, f, apply_status)
          (apply_target-HasAdvanced t _ p x db id m (map_status-IsTarget p.status t e)
            (find-find_provider p.id db.messages x d f) there)
  ]
]

apply_status-Distinct :
    (number : Text → Option ℕ) (now : ℕ) (p : ProviderStatus) (db : Db)
    → Distinct db.messages
    → Distinct (apply_status number now p db).messages
unfolding apply_status apply_target
apply_status-Distinct number now p db d = elim (Option-cases (map_status p.status)) [
  | inl e ↦ rw (e, apply_status) d
  | inr (t, e) ↦ elim (Option-cases (find_provider p.id db.messages)) [
    | inl f ↦ rw (e, f, apply_status) d
    | inr (x, f) ↦ elim (Bool-cases (should_apply x.status t)) [
      | inl g ↦
          rw (e, f, apply_status)
            (rw g (
              Distinct-modify x.id (status_row t _ (extract_error p.errors)) db.messages
                (status_row-keeps t _ (extract_error p.errors)) d))
      | inr g ↦ rw (e, f, apply_status) (rw g d)
    ]
  ]
]

apply_statuses-HasAdvanced :
    (number : Text → Option ℕ) (now : ℕ) (ps : List ProviderStatus) (db : Db) (id : ℕ) (m : Message)
    → Distinct db.messages
    → find_message id db ≡ some m
    → HasAdvanced id m (apply_statuses number now ps db)
unfolding apply_statuses
apply_statuses-HasAdvanced number now [] db id m d there = (m, there, same refl, refl)
apply_statuses-HasAdvanced number now (p ∷ ps) db id m d there =
    let (x, found, step, kept) = apply_status-HasAdvanced number now p db id m d there in
    let (y, found', steps, kept') =
      apply_statuses-HasAdvanced number now ps (apply_status number now p db) id x
        (apply_status-Distinct number now p db d) found in
    (y, found', Advances-trans m.status x.status y.status step steps, kept' ∙ kept)

-- Where the message rows have different ids, and whatever a webhook payload holds, repeated and
-- reordered statuses included, each row is kept with its provider id, and its status only
-- advances: it stays; or it becomes FAILED, but never from DELIVERED or READ; or it becomes SENT from a
-- status before any answer of Meta (CREATED, QUEUED, PROCESSING, SUBMITTED, or RECEIVED, which the code
-- does not tell apart), DELIVERED from one of these or SENT, READ from one of these or DELIVERED. So
-- nothing but FAILED follows FAILED, CANCELLED or EXPIRED, and nothing but READ follows READ.
pub process_payload-HasAdvanced :
    (number : Text → Option ℕ) (now : ℕ) (payload : Json) (db : Db) (id : ℕ) (m : Message)
    → Distinct db.messages
    → find_message id db ≡ some m
    → HasAdvanced id m (process_payload number now payload db)
unfolding process_payload
process_payload-HasAdvanced number now payload db id m d there =
    apply_statuses-HasAdvanced number now (extract_statuses payload) db id m d there
