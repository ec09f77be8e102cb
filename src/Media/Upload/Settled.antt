-- ===== src/Media/Upload/Settled.antt =====
-- What an upload leaves in the media asset registry (src/media/media.service.ts).
use api_whats_app.Base.{
  ℕ, ◌≡◌, refl, sym, ap, ◌∙◌, Bool, true, false, ◌&&◌, Option, none, some, List, [], ◌∷◌, ◌++◌, ◌⊎◌,
  inl, inr, if◌then◌else◌, Text, arith, find, modify, find-modify,
}
use mathlib.Core.Path.{subst}
use api_whats_app.Media.{Bytes}
use api_whats_app.Media.Policy.{Policy, PolicyError}
use api_whats_app.Media.Signature.{assert_content_signature}
use api_whats_app.Media.Upload.{
  Asset, asset_row, Answer, given, known_fault, other_fault, Scan, clean, infected, scan_fault,
  scan_other, MetaAnswer, uploaded, meta_error, meta_unavailable, meta_other, Answers, World,
  Outcome, Refusal, unavailable, bad_request, Fields, accepts_fields, UploadFile, failed_row,
  completed_row, is_pending, new_asset, mark_failed, finalize, after_meta, send, store_in, store,
  register_for, register, scan_then, capacity_then, admit, check_content, upload_body, upload,
}

-- Meta has the binary and the registry could not be told, or Meta could not be called.
abbrev pub IsUnknown : Answers → Type 0
IsUnknown a =
    (a.meta ≡ meta_unavailable) ⊎ ((m : Text) × (a.meta ≡ uploaded m) × (a.finalized ≡ false))

-- What is left of the asset of an upload that has returned its row, or thrown.
pub data Left (a : Answers) (o : Outcome) : Type 0 where
  completed :
      (row : Asset) (media_id : Text)
      → o.0 ≡ inr row
      → find a.asset_id o.1.assets ≡ some row
      → a.meta ≡ uploaded media_id
      → row.provider_media_id ≡ some media_id
      → row.failed_at ≡ none
      → Left a o
  absent : (refusal : Refusal) → o.0 ≡ inl refusal → find a.asset_id o.1.assets ≡ none → Left a o
  failed :
      (row : Asset) (refusal : Refusal)
      → o.0 ≡ inl refusal
      → find a.asset_id o.1.assets ≡ some row
      → row.failed_at ≡ some a.now
      → row.provider_media_id ≡ none
      → Left a o
  unknown :
      (row : Asset)
      → o.0 ≡ inl unavailable
      → find a.asset_id o.1.assets ≡ some row
      → is_pending row ≡ true
      → IsUnknown a
      → Left a o

module _ (a : Answers) where
  find-changed :
      (f : Asset → Asset) (xs : List Asset) {row : Asset}
      → ((x : Asset) → (f x).id ≡ x.id)
      → find a.asset_id xs ≡ some row
      → find a.asset_id (modify a.asset_id f xs) ≡ some (f row)
  find-changed f xs keeps there =
      find-modify a.asset_id a.asset_id f xs keeps ∙ rw there (ground arith)

  find-new :
      (xs : List Asset) (row : Asset)
      → row.id ≡ a.asset_id
      → find a.asset_id xs ≡ none
      → find a.asset_id (xs ++ row ∷ []) ≡ some row
  find-new [] row own fresh = ground arith
  find-new (x ∷ xs) row own fresh = ground (arith, find-new xs row)

  pending-provider :
      (row : Asset)
      → is_pending row ≡ true
      → (row.provider_media_id ≡ none) × (row.failed_at ≡ none)
  pending-provider row h = (ground arith, ground arith)

if-Left :
    (a : Answers) (test : Bool) (o p : Outcome)
    → Left a o
    → Left a p
    → Left a (if test then o else p)
if-Left a true o p l r = l
if-Left a false o p l r = r

module _ (a : Answers) (marked : a.marked ≡ true) where
  mark_failed-assets :
      (code : Text) (w : World)
      → (mark_failed a code w).assets ≡ modify a.asset_id (failed_row a.now code) w.assets
  unfolding mark_failed
  mark_failed-assets code w = ground (arith, marked)

  -- A failure is written on the pending row.
  mark_failed-Left :
      (code : Text) (w : World) (r : Refusal) {row : Asset}
      → find a.asset_id w.assets ≡ some row
      → is_pending row ≡ true
      → Left a (inl r, mark_failed a code w)
  mark_failed-Left code w r {row} there pending =
      failed (failed_row a.now code row) r refl
        (ap (find a.asset_id) (mark_failed-assets code w)
          ∙ find-changed a (failed_row a.now code) w.assets (λ x. refl) there)
        refl (pending-provider a row pending).0

  finalize-Left :
      (media_id : Text) (w : World) {row : Asset}
      → a.meta ≡ uploaded media_id
      → find a.asset_id w.assets ≡ some row
      → is_pending row ≡ true
      → Left a (finalize a media_id w (some row))
  unfolding finalize
  finalize-Left media_id w {row} answered there pending = decide a.finalized refl
    where
      decide :
          (f : Bool)
          → a.finalized ≡ f
          → Left a (
              if f && is_pending row
              then (
                inr (completed_row a.now media_id row),
                record w { assets = modify a.asset_id (completed_row a.now media_id) w.assets },
              )
              else (inl unavailable, w))
      decide true done =
          subst
            (λ b. Left a (
              if b
              then (
                inr (completed_row a.now media_id row),
                record w { assets = modify a.asset_id (completed_row a.now media_id) w.assets },
              )
              else (inl unavailable, w)))
            (sym pending)
            (completed (completed_row a.now media_id row) media_id refl
              (find-changed a (completed_row a.now media_id) w.assets (λ x. refl) there) answered
              refl refl)
      decide false lost = unknown row refl there pending (inr (media_id, answered, lost))

  after_meta-Left :
      (m : MetaAnswer) (w : World) {row : Asset}
      → a.meta ≡ m
      → find a.asset_id w.assets ≡ some row
      → is_pending row ≡ true
      → Left a (after_meta m a w)
  unfolding after_meta
  after_meta-Left (uploaded media_id) w {row} e there pending =
      subst (λ o. Left a (finalize a media_id w o)) (sym there)
        (finalize-Left media_id w e there pending)
  after_meta-Left (meta_error retryable code) w e there pending =
      mark_failed-Left code w _ there pending
  after_meta-Left meta_unavailable w {row} e there pending = unknown row refl there pending (inl e)
  after_meta-Left meta_other w e there pending = mark_failed-Left _ w _ there pending

  module _
      (others_keep : (xs : List Asset) → find a.asset_id (a.others xs) ≡ find a.asset_id xs) where
    send-Left :
        (w : World) {row : Asset}
        → find a.asset_id w.assets ≡ some row
        → is_pending row ≡ true
        → Left a (send a w)
    unfolding send
    send-Left w there pending = after_meta-Left a.meta _ refl (others_keep w.assets ∙ there) pending

    store_in-Left :
        (s : Answer (Option ℕ)) (w : World) {row : Asset}
        → find a.asset_id w.assets ≡ some row
        → is_pending row ≡ true
        → Left a (store_in s a w)
    unfolding store_in
    store_in-Left (given none) w there pending = send-Left w there pending
    store_in-Left (given (some at)) w {row} there pending =
        if-Left a a.stored _ _
          (send-Left _ {row = record row { stored_at = some at }}
            (find-changed a (λ row. record row { stored_at = some at }) w.assets (λ x. refl) there)
            pending)
          (mark_failed-Left _ w _ there pending)
    store_in-Left known_fault w there pending = mark_failed-Left _ w _ there pending
    store_in-Left other_fault w there pending = mark_failed-Left _ w _ there pending

    module _ (tenant : ℕ) (policy : Policy) (bytes : ℕ) (w : World)
        (fresh : find a.asset_id w.assets ≡ none) where
      register_for-Left :
          (sender : Option ℕ) (key : Option Text) (ttl : ℕ)
          → Left a (register_for sender a tenant policy bytes key ttl w)
      unfolding register_for store
      register_for-Left none key ttl = absent _ refl fresh
      register_for-Left (some sender) key ttl =
          if-Left a a.created _ _
            (store_in-Left a.staged _
              (find-new a w.assets (new_asset a tenant policy bytes key ttl sender) refl fresh)
              refl)
            (absent _ refl fresh)

      register-Left :
          (ttl : Option ℕ) (key : Option Text) → Left a (register ttl a tenant policy bytes key w)
      unfolding register
      register-Left none key = absent _ refl fresh
      register-Left (some ttl) key = register_for-Left a.sender key ttl

      scan_then-Left :
          (scan : Scan) (key : Option Text) → Left a (scan_then scan a tenant policy bytes key w)
      unfolding scan_then
      scan_then-Left clean key = register-Left a.ttl_days key
      scan_then-Left infected key = absent _ refl fresh
      scan_then-Left scan_fault key = absent _ refl fresh
      scan_then-Left scan_other key = absent _ refl fresh

      capacity_then-Left :
          (capacity : Answer (Unit {0})) (key : Option Text)
          → Left a (capacity_then capacity a tenant policy bytes key w)
      unfolding capacity_then
      capacity_then-Left (given _) key = scan_then-Left a.scan key
      capacity_then-Left known_fault key = absent _ refl fresh
      capacity_then-Left other_fault key = absent _ refl fresh

      admit-Left : (target : Answer (Option Text)) → Left a (admit target a tenant policy bytes w)
      unfolding admit
      admit-Left (given key) = capacity_then-Left a.capacity key
      admit-Left known_fault = absent _ refl fresh
      admit-Left other_fault = absent _ refl fresh

    module _ (utf8 : Bytes → Text) (trim : Text → Text) (tenant : ℕ) (w : World)
        (fresh : find a.asset_id w.assets ≡ none) where
      check_content-Left :
          (found : PolicyError ⊎ Policy) (file : UploadFile)
          → Left a (check_content utf8 trim found a tenant file w)
      unfolding check_content
      check_content-Left (inl error) file = absent _ refl fresh
      check_content-Left (inr policy) file =
          if-Left a
            (assert_content_signature utf8 trim a.sample_bytes policy.mime_type file.content)
            (admit a.target a tenant policy file.size w) (inl bad_request, w)
            (admit-Left tenant policy file.size w fresh a.target) (absent _ refl fresh)

      upload_body-Left :
          (fields : Bool) (file : Option UploadFile)
          → Left a (upload_body utf8 trim fields file a tenant w)
      unfolding upload_body
      upload_body-Left fields none = absent _ refl fresh
      upload_body-Left false (some file) = absent _ refl fresh
      upload_body-Left true (some file) = check_content-Left _ file

      -- Let the id of the new asset be fresh, `markAssetFailed` reach the database, and other processes
      -- leave this asset alone. Then every upload settles: it returns the row, which carries the
      -- provider's id in the registry; or it throws, and there is no row of its asset, or a failed one
      -- without a provider's id, or a pending one. A row is left pending only by an upload that throws
      -- "service unavailable", because Meta answered so or because Meta's success could not be written.
      pub upload-Left :
          (fields : Fields) (file : Option UploadFile)
          → Left a (upload utf8 trim fields file a tenant w)
      unfolding upload
      upload-Left fields none = upload_body-Left (accepts_fields a.is_uuid fields) none
      upload-Left fields (some file) =
          removed (upload_body-Left (accepts_fields a.is_uuid fields) (some file))
        where
          removed : {o : Outcome} {t : Bool} → Left a o → Left a (o.0, record o.1 { temporary = t })
          removed (completed row m r f u p q) = completed row m r f u p q
          removed (absent r e f) = absent r e f
          removed (failed row r e f q p) = failed row r e f q p
          removed (unknown row e f p u) = unknown row e f p u
