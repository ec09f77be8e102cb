-- ===== src/Media/Upload/Cleared.antt =====
-- No binary reaches Meta before every check of the upload has passed (src/media/media.service.ts).
use api_whats_app.Base.{
  ℕ, ◌≤◌, ◌<◌, ◌≡◌, refl, Bool, true, false, Option, none, some, [], ◌∷◌, ◌++◌, ◌⊎◌, inl, inr,
  if◌then◌else◌, Text, arith,
}
use api_whats_app.Media.{Bytes}
use api_whats_app.Media.Policy.{
  Policy, PolicyError, resolve_upload_policy, resolve_upload_policy-bounds,
}
use api_whats_app.Media.Signature.{assert_content_signature}
use api_whats_app.Media.Upload.{
  Asset, Answer, given, known_fault, other_fault, Scan, clean, infected, scan_fault, scan_other,
  MetaAnswer, uploaded, meta_error, meta_unavailable, meta_other, Answers, World, Outcome, Fields,
  accepts_fields, UploadFile, mark_failed, finalize, after_meta, send, store_in, store,
  register_for, register, scan_then, capacity_then, admit, check_content, upload_body, upload,
}

-- The binary is not handed over; or it is, once and nothing else, and a fact holds then.
abbrev Sends {ℓ} : ℕ → World → Outcome → Type ℓ → Type ℓ
Sends id w o fact = (o.1.sent ≡ w.sent) ⊎ ((o.1.sent ≡ w.sent ++ id ∷ []) × fact)

-- A test with a fact on each side.
if-Sends {ℓ} :
    {fact more : Type ℓ} (id : ℕ) (w : World) (test : Bool) (o refused : Outcome)
    → (test ≡ true → fact → more)
    → Sends id w o fact
    → refused.1.sent ≡ w.sent
    → Sends id w (if test then o else refused) more
if-Sends id w true o refused learn (inl same) r = inl same
if-Sends id w true o refused learn (inr (sent, fact)) r = inr (sent, learn refl fact)
if-Sends id w false o refused learn s r = inl r

map-fact {ℓ} :
    {same sent fact more : Type ℓ} → (fact → more) → same ⊎ (sent × fact) → same ⊎ (sent × more)
map-fact learn (inl same) = inl same
map-fact learn (inr (sent, fact)) = inr (sent, learn fact)

finalize-sent :
    (a : Answers) (m : Text) (w : World) (o : Option Asset) → (finalize a m w o).1.sent ≡ w.sent
unfolding finalize
finalize-sent a m w none = refl
finalize-sent a m w (some row) = ground arith

mark_failed-sent : (a : Answers) (code : Text) (w : World) → (mark_failed a code w).sent ≡ w.sent
unfolding mark_failed
mark_failed-sent a code w = ground arith

after_meta-sent : (m : MetaAnswer) (a : Answers) (w : World) → (after_meta m a w).1.sent ≡ w.sent
unfolding after_meta
after_meta-sent (uploaded media_id) a w = finalize-sent a media_id w _
after_meta-sent (meta_error retryable code) a w = mark_failed-sent a code w
after_meta-sent meta_unavailable a w = refl
after_meta-sent meta_other a w = mark_failed-sent a _ w

send-sent : (a : Answers) (w : World) → (send a w).1.sent ≡ w.sent ++ a.asset_id ∷ []
unfolding send
send-sent a w = after_meta-sent a.meta a _

store_in-sent :
    (s : Answer (Option ℕ)) (a : Answers) (w : World)
    → Sends a.asset_id w (store_in s a w) (Unit {0})
unfolding store_in
store_in-sent (given none) a w = inr (send-sent a w, tt)
store_in-sent (given (some at)) a w =
    if-Sends a.asset_id w a.stored _ _ (λ _ fact. fact) (inr (send-sent a _, tt))
      (mark_failed-sent a _ w)
store_in-sent known_fault a w = inl (mark_failed-sent a _ w)
store_in-sent other_fault a w = inl (mark_failed-sent a _ w)

module _ (a : Answers) (tenant : ℕ) (policy : Policy) (bytes : ℕ) where
  register_for-sent :
      (sender : Option ℕ) (key : Option Text) (ttl : ℕ) (w : World)
      → Sends a.asset_id w (register_for sender a tenant policy bytes key ttl w) (a.created ≡ true)
  unfolding register_for store
  register_for-sent none key ttl w = inl refl
  register_for-sent (some sender) key ttl w =
      if-Sends a.asset_id w a.created _ _ (λ made _. made) (store_in-sent a.staged a _) refl

  register-sent :
      (ttl : Option ℕ) (key : Option Text) (w : World)
      → Sends a.asset_id w (register ttl a tenant policy bytes key w) (a.created ≡ true)
  unfolding register
  register-sent none key w = inl refl
  register-sent (some ttl) key w = register_for-sent a.sender key ttl w

  scan_then-sent :
      (scan : Scan) (key : Option Text) (w : World)
      → Sends a.asset_id w
          (scan_then scan a tenant policy bytes key w)
          ((a.created ≡ true) × (scan ≡ clean))
  unfolding scan_then
  scan_then-sent clean key w = map-fact (λ made. (made, refl)) (register-sent a.ttl_days key w)
  scan_then-sent infected key w = inl refl
  scan_then-sent scan_fault key w = inl refl
  scan_then-sent scan_other key w = inl refl

  capacity_then-sent :
      (capacity : Answer (Unit {0})) (key : Option Text) (w : World)
      → Sends a.asset_id w
          (capacity_then capacity a tenant policy bytes key w)
          ((a.created ≡ true) × (a.scan ≡ clean) × (capacity ≡ given tt))
  unfolding capacity_then
  capacity_then-sent (given _) key w =
      map-fact (λ fact. (fact.0, fact.1, refl)) (scan_then-sent a.scan key w)
  capacity_then-sent known_fault key w = inl refl
  capacity_then-sent other_fault key w = inl refl

  admit-sent :
      (target : Answer (Option Text)) (w : World)
      → Sends a.asset_id w
          (admit target a tenant policy bytes w)
          ((a.created ≡ true) × (a.scan ≡ clean) × (a.capacity ≡ given tt))
  unfolding admit
  admit-sent (given key) w = capacity_then-sent a.capacity key w
  admit-sent known_fault w = inl refl
  admit-sent other_fault w = inl refl

-- What has been checked when the binary is handed over.
pub record IsCleared (utf8 : Bytes → Text) (trim : Text → Text) (a : Answers) (file : UploadFile)
    : Type 0 where
  pub policy : Policy
  pub allowed : resolve_upload_policy trim file.mimetype file.size ≡ inr policy
  pub not_empty : 0 < file.size
  pub bounded : file.size ≤ policy.max_bytes
  pub content :
      assert_content_signature utf8 trim a.sample_bytes policy.mime_type file.content ≡ true
  pub scanned : a.scan ≡ clean
  pub room : a.capacity ≡ given tt
  pub registered : a.created ≡ true

module _ (utf8 : Bytes → Text) (trim : Text → Text) (a : Answers) (tenant : ℕ) (file : UploadFile)
    (w : World) where
  check_content-sent :
      (found : PolicyError ⊎ Policy)
      → resolve_upload_policy trim file.mimetype file.size ≡ found
      → Sends a.asset_id w
          (check_content utf8 trim found a tenant file w)
          (IsCleared utf8 trim a file)
  unfolding check_content
  check_content-sent (inl error) known = inl refl
  check_content-sent (inr policy) known =
      if-Sends a.asset_id w _ _ _
        (λ matches fact. record {
          policy = policy;
          allowed = known;
          not_empty = (resolve_upload_policy-bounds trim file.mimetype file.size known).0;
          bounded = (resolve_upload_policy-bounds trim file.mimetype file.size known).1;
          content = matches;
          scanned = fact.1;
          room = fact.2;
          registered = fact.0;
        })
        (admit-sent a tenant policy file.size a.target w) refl

  upload_body-sent :
      (fields : Bool)
      → Sends a.asset_id w
          (upload_body utf8 trim fields (some file) a tenant w)
          (IsCleared utf8 trim a file × (fields ≡ true))
  unfolding upload_body
  upload_body-sent true = map-fact (λ fact. (fact, refl)) (check_content-sent _ refl)
  upload_body-sent false = inl refl

  -- Whatever the services answer and other processes do, an upload hands no binary to Meta, or that
  -- of its own asset once; and it does so only for a file that is not empty and within the limit of an
  -- allowed type, whose content matches that type, which the scanner let pass, for which the storage
  -- had room, and for which a registry row was created, and only if the other fields are accepted.
  pub upload-IsCleared :
      (fields : Fields)
      → ((upload utf8 trim fields (some file) a tenant w).1.sent ≡ w.sent)
        ⊎ (((upload utf8 trim fields (some file) a tenant w).1.sent ≡ w.sent ++ a.asset_id ∷ [])
            × (IsCleared utf8 trim a file × (accepts_fields a.is_uuid fields ≡ true)))
  unfolding upload
  upload-IsCleared fields = upload_body-sent (accepts_fields a.is_uuid fields)
