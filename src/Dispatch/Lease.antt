-- ===== src/Dispatch/Lease.antt =====
-- What a claimed lease protects: `claimMessage` of message-dispatcher.service.ts against the
-- transactions of other workers.
use api_whats_app.Base.{
  ℕ, ◌+◌, ◌<◌, ◌≡◌, ◌≢◌, refl, ◌==◌, true, false, Option, some, List, [], All, ◌∷◌, Text, arith,
  Option-cases, Bool-cases, inl, inr,
}
use api_whats_app.Base.Json.{Json}
use api_whats_app.Message.{Message, processing, Db}
use api_whats_app.Message.Store.{find_message, update_message, find_message-update}
use api_whats_app.Dispatch.{
  claimable, claim_message, claimed_row, lease_ms, mark_failed, mark_retryable_failure,
  mark_submitted, failed_row, retryable_row, submitted_row,
}

-- A successful claim: the row was there and claimable, and only that row changes.
pub claim-eq-true :
    (now config id : ℕ) (db : Db)
    → (claim_message now config id db).1 ≡ true
    → (m : Message) × (find_message id db ≡ some m)
      × (claimable now m ≡ true)
      × ((claim_message now config id db).0 ≡ update_message id (claimed_row now config) db)
      × ((claim_message now config id db).2 ≡ some (claimed_row now config m))
unfolding claim_message
claim-eq-true now config id db h = elim (Option-cases (find_message id db)) [
  | inl e ↦ ground (arith, e)
  | inr (m, e) ↦ elim (Bool-cases (claimable now m)) [
    | inl c ↦ (m, e, c, ground (arith, e, c), ground (arith, e, c))
    | inr c ↦ ground (arith, e, c)
  ]
]

claim-eq-false :
    (now config id : ℕ) (db : Db)
    → (claim_message now config id db).1 ≡ false
    → (claim_message now config id db).0 ≡ db
unfolding claim_message
claim-eq-false now config id db h = ground arith

-- A transaction that another worker runs, with the clock it reads.
pub data Op : Type 0 where
  claims : ℕ → ℕ → ℕ → Op
  fails : ℕ → ℕ → Text → Text → Option Json → Op
  retries : ℕ → ℕ → Text → Text → ℕ → Option Json → Op
  submits : ℕ → ℕ → Text → Option Json → Op

unfoldable pub apply : Op → Db → Db
apply (claims now config id) db = (claim_message now config id db).0
apply (fails now id code message response) db = mark_failed now id code message response db
apply (retries now id code message attempt response) db =
    mark_retryable_failure id code message attempt response db
apply (submits now id provider response) db = mark_submitted now id provider response db

unfoldable pub run : List Op → Db → Db
run [] db = db
run (op ∷ ops) db = run ops (apply op db)

-- A row under a lease that runs until `deadline`.
pub record IsLeased (deadline : ℕ) (m : Message) : Type 0 where
  pub busy : m.status ≡ processing
  pub until : m.processing_lease_until ≡ some deadline

-- Before the deadline, and writing back no outcome of the leased message.
abbrev pub IsForeign : ℕ → ℕ → Op → Type 0
IsForeign id deadline (claims now config j) = now < deadline
IsForeign id deadline (fails now j code message response) = j ≢ id
IsForeign id deadline (retries now j code message attempt response) = j ≢ id
IsForeign id deadline (submits now j provider response) = j ≢ id

claimable-IsLeased :
    (now deadline : ℕ) (m : Message)
    → IsLeased deadline m
    → now < deadline
    → claimable now m ≡ false
unfolding claimable
claimable-IsLeased now deadline m l h = ground arith

pub claim_message_accepted :
    (now config id : ℕ) (db : Db) (m : Message)
    → find_message id db ≡ some m
    → claimable now m ≡ true
    → claim_message now config id db
      ≡ (update_message id (claimed_row now config) db, true, some (claimed_row now config m))
unfolding claim_message
claim_message_accepted now config id db m e c = ground (arith, e, c)

pub claim_message_refused :
    (now config id : ℕ) (db : Db) (m : Message)
    → find_message id db ≡ some m
    → claimable now m ≡ false
    → claim_message now config id db ≡ (db, false, some m)
unfolding claim_message
claim_message_refused now config id db m e c = ground (arith, e, c)

claim-foreign :
    (id deadline now config j : ℕ) (db : Db) (m : Message)
    → find_message id db ≡ some m
    → IsLeased deadline m
    → now < deadline
    → find_message id (claim_message now config j db).0 ≡ some m
claim-foreign id deadline now config j db m e l h = elim (Bool-cases (j == id)) [
  | inl same ↦
      let same' : j ≡ id = ground arith in
      rw same'
        (rw (claim_message_refused now config id db m e (claimable-IsLeased now deadline m l h)) e)
  | inr differs ↦ elim (Bool-cases (claim_message now config j db).1) [
    | inl hit ↦
        let (x, found, open_, changed, _) = claim-eq-true now config j db hit in
        rw changed
          (ground (arith, find_message-update j id (claimed_row now config) db (λ _. refl)))
    | inr missed ↦ ground (arith, claim-eq-false now config j db missed)
  ]
]

apply-foreign :
    (id deadline : ℕ) (op : Op) (db : Db) (m : Message)
    → find_message id db ≡ some m
    → IsLeased deadline m
    → IsForeign id deadline op
    → find_message id (apply op db) ≡ some m
unfolding apply mark_failed mark_retryable_failure mark_submitted
apply-foreign id deadline (claims now config j) db m e l h =
    claim-foreign id deadline now config j db m e l h
apply-foreign id deadline (fails now j code message response) db m e l h =
    ground (arith, find_message-update j id (failed_row now code message response) db (λ _. refl))
apply-foreign id deadline (retries now j code message attempt response) db m e l h =
    ground (arith, find_message-update j id (retryable_row code message) db (λ _. refl))
apply-foreign id deadline (submits now j provider response) db m e l h =
    ground (arith, find_message-update j id (submitted_row now provider response) db (λ _. refl))

run-foreign :
    (id deadline : ℕ) (ops : List Op) (db : Db) (m : Message)
    → find_message id db ≡ some m
    → IsLeased deadline m
    → All (IsForeign id deadline) ops
    → find_message id (run ops db) ≡ some m
unfolding run
run-foreign id deadline [] db m e l h = e
run-foreign id deadline (op ∷ ops) db m e l (h, hs) =
    run-foreign id deadline ops (apply op db) m (apply-foreign id deadline op db m e l h) l hs

-- Once a worker has claimed a message at `now`, then whatever claims and whatever write-backs of
-- other messages the other workers run before `now + lease_ms`, in any order, the row still reads
-- as the claimer left it, and any further claim before that instant is refused and changes nothing.
pub claim_exclusive :
    (now config id : ℕ) (db : Db) (ops : List Op) (now' config' : ℕ)
    → (claim_message now config id db).1 ≡ true
    → All (IsForeign id (now + lease_ms config)) ops
    → now' < now + lease_ms config
    → let db' = run ops (claim_message now config id db).0 in
      (find_message id db' ≡ (claim_message now config id db).2)
      × (claim_message now' config' id db' ≡ (db', false, find_message id db'))
claim_exclusive now config id db ops now' config' hit foreign early =
    let (m, found, _, changed, row) = claim-eq-true now config id db hit in
    let c = claimed_row now config m in
    let deadline = now + lease_ms config in
    let db₁ = (claim_message now config id db).0 in
    let leased : IsLeased deadline c = record { busy = refl; until = refl } in
    let there : find_message id db₁ ≡ some c =
      rw changed (
        ground (arith, found, find_message-update id id (claimed_row now config) db (λ _. refl))) in
    let still = run-foreign id deadline ops db₁ c there leased foreign in
    let refused =
      claim_message_refused now' config' id (run ops db₁) c still
        (claimable-IsLeased now' deadline c leased early) in
    (rw row still, rw still refused)
