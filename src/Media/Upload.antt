-- ===== src/Media/Upload.antt =====
-- `upload` of src/media/media.service.ts and the media asset registry. What the services answer
-- to one upload is a record of answers; what other processes do to the registry while Meta is called is
-- a function on its rows. Logging and the response's projection are left out.
pub mod Cleared
pub mod Settled
use api_whats_app.Base.{
  ℕ, ◌+◌, ◌*◌, Bool, true, false, ◌&&◌, not, Option, none, some, List, [], ◌∷◌, ◌++◌, ◌⊎◌, inl, inr,
  if◌then◌else◌, Text, text, text_eq, Row, find, modify, all,
}
use api_whats_app.Media.{Bytes, File, size}
use api_whats_app.Media.Policy.{
  Policy, PolicyError, empty_file, unsupported_mime, file_too_large, resolve_upload_policy,
}
use api_whats_app.Media.Signature.{assert_content_signature}

-- The columns of `MediaAsset` that the upload reads or writes.
pub record Asset : Type 0 where
  pub id : ℕ
  pub tenant_id : ℕ
  pub sender_id : ℕ
  pub mime_type : Text
  pub size : ℕ
  pub scanned : Bool
  pub storage_key : Option Text
  pub stored_at : Option ℕ
  pub provider_media_id : Option Text
  pub provider_uploaded_at : Option ℕ
  pub expires_at : ℕ
  pub failed_at : Option ℕ
  pub failure_code : Option Text

instance abbrev pub asset_row : Row Asset
asset_row = record { key = λ a. a.id }

-- What a service answers: a value, the error of its own class, or another error.
pub data Answer {ℓ} (A : Type ℓ) : Type ℓ where
  given : A → Answer A
  known_fault : Answer A
  other_fault : Answer A

-- What `malwareScanner.scan` answers.
pub data Scan : Type 0 where
  clean infected scan_fault scan_other : Scan

-- What `metaMedia.uploadMedia` answers; a Meta error tells whether it is retryable, and carries its
-- failure code.
pub data MetaAnswer : Type 0 where
  uploaded : Text → MetaAnswer
  meta_error : Bool → Text → MetaAnswer
  meta_unavailable meta_other : MetaAnswer

pub record Answers : Type 0 where
  pub is_uuid : Text → Bool
  pub now : ℕ
  pub asset_id : ℕ
  pub sample_bytes : ℕ
  pub target : Answer (Option Text)
  pub capacity : Answer (Unit {0})
  pub scan : Scan
  pub clamav : Bool
  pub ttl_days : Option ℕ
  pub sender : Option ℕ
  pub created : Bool
  pub staged : Answer (Option ℕ)
  pub stored : Bool
  pub marked : Bool
  pub others : List Asset → List Asset
  pub meta : MetaAnswer
  pub finalized : Bool
  pub removed : Bool

-- What the caller sees, by the status of the exception; `rethrown` is the exception of a service as it
-- was thrown, or an `Error`.
pub data Refusal : Type 0 where
  bad_request payload_too_large unprocessable unavailable bad_gateway rethrown : Refusal

-- The registry, the assets whose binary was handed to Meta, and whether the temporary file exists.
pub record World : Type 0 where
  pub assets : List Asset
  pub sent : List ℕ
  pub temporary : Bool

abbrev pub Outcome : Type 0
Outcome = (Refusal ⊎ Asset) × World

abbrev pub failed_row : ℕ → Text → Asset → Asset
failed_row now code a = record a { failed_at = some now; failure_code = some code }

-- `markAssetFailed`; its own failure is only logged.
pub mark_failed : Answers → Text → World → World
mark_failed a code w =
    if a.marked then record w { assets = modify a.asset_id (failed_row a.now code) w.assets } else w

abbrev pub completed_row : ℕ → Text → Asset → Asset
completed_row now media_id a = record a {
  provider_media_id = some media_id;
  provider_uploaded_at = some now;
  failed_at = none;
  failure_code = none;
}

abbrev pub is_pending : Asset → Bool
is_pending a = elim a.provider_media_id [
  | none ↦ elim a.failed_at [ none ↦ true | some _ ↦ false ]
  | some _ ↦ false
]

-- The update that records the provider's id, where the row is neither failed nor completed.
pub finalize : Answers → Text → World → Option Asset → Outcome
finalize a media_id w none = (inl unavailable, w)
finalize a media_id w (some row) =
    if a.finalized && is_pending row
    then (
      inr (completed_row a.now media_id row),
      record w { assets = modify a.asset_id (completed_row a.now media_id) w.assets },
    )
    else (inl unavailable, w)

after_meta : MetaAnswer → Answers → World → Outcome
unfolding finalize mark_failed
after_meta (uploaded media_id) a w = finalize a media_id w (find a.asset_id w.assets)
after_meta (meta_error retryable code) a w =
    (inl (if retryable then unavailable else bad_gateway), mark_failed a code w)
after_meta meta_unavailable a w = (inl unavailable, w)
after_meta meta_other a w = (inl rethrown, mark_failed a (text "UPLOAD_ERROR") w)

-- The binary is handed to Meta; other processes run while it answers.
pub send : Answers → World → Outcome
unfolding after_meta
send a w =
    after_meta a.meta a (record w { assets = a.others w.assets; sent = w.sent ++ a.asset_id ∷ [] })

store_in : Answer (Option ℕ) → Answers → World → Outcome
unfolding send mark_failed
store_in (given none) a w = send a w
store_in (given (some at)) a w =
    if a.stored
    then send a (record w {
      assets = modify a.asset_id (λ row. record row { stored_at = some at }) w.assets;
    })
    else (inl unavailable, mark_failed a (text "STORAGE_METADATA_ERROR") w)
store_in known_fault a w = (inl unavailable, mark_failed a (text "STORAGE_ERROR") w)
store_in other_fault a w = (inl rethrown, mark_failed a (text "STORAGE_ERROR") w)

-- From the staging of the binary on.
pub store : Answers → World → Outcome
unfolding store_in
store a w = store_in a.staged a w

abbrev pub day_ms : ℕ
day_ms = 86400000

abbrev pub new_asset : Answers → ℕ → Policy → ℕ → Option Text → ℕ → ℕ → Asset
new_asset a tenant policy bytes key ttl sender = record {
  id = a.asset_id;
  tenant_id = tenant;
  sender_id = sender;
  mime_type = policy.mime_type;
  size = bytes;
  scanned = a.clamav;
  storage_key = key;
  stored_at = none;
  provider_media_id = none;
  provider_uploaded_at = none;
  expires_at = a.now + ttl * day_ms;
  failed_at = none;
  failure_code = none;
}

register_for : Option ℕ → Answers → ℕ → Policy → ℕ → Option Text → ℕ → World → Outcome
unfolding store
register_for (some sender) a tenant policy bytes key ttl w =
    if a.created
    then store a
        (record w { assets = w.assets ++ new_asset a tenant policy bytes key ttl sender ∷ [] })
    else (inl unavailable, w)
register_for none a tenant policy bytes key ttl w = (inl rethrown, w)

-- From the reading of the lifetime on: the sender, the row, the binary.
pub register : Option ℕ → Answers → ℕ → Policy → ℕ → Option Text → World → Outcome
unfolding register_for
register none a tenant policy bytes key w = (inl unavailable, w)
register (some ttl) a tenant policy bytes key w =
    register_for a.sender a tenant policy bytes key ttl w

scan_then : Scan → Answers → ℕ → Policy → ℕ → Option Text → World → Outcome
unfolding register
scan_then clean a tenant policy bytes key w = register a.ttl_days a tenant policy bytes key w
scan_then infected a tenant policy bytes key w = (inl unprocessable, w)
scan_then scan_fault a tenant policy bytes key w = (inl unavailable, w)
scan_then scan_other a tenant policy bytes key w = (inl rethrown, w)

capacity_then : Answer (Unit {0}) → Answers → ℕ → Policy → ℕ → Option Text → World → Outcome
unfolding scan_then
capacity_then (given _) a tenant policy bytes key w = scan_then a.scan a tenant policy bytes key w
capacity_then known_fault a tenant policy bytes key w = (inl unavailable, w)
capacity_then other_fault a tenant policy bytes key w = (inl rethrown, w)

-- The storage target, its capacity and the scan.
pub admit : Answer (Option Text) → Answers → ℕ → Policy → ℕ → World → Outcome
unfolding capacity_then
admit (given key) a tenant policy bytes w = capacity_then a.capacity a tenant policy bytes key w
admit known_fault a tenant policy bytes w = (inl unavailable, w)
admit other_fault a tenant policy bytes w = (inl rethrown, w)

-- `StoredMediaUploadFile`, with the content of the temporary file.
pub record UploadFile : Type 0 where
  pub mimetype : Text
  pub size : ℕ
  pub content : File

-- The other fields of the form; a value that is no text is `none`.
abbrev pub Fields : Type 0
Fields = List (Text × Option Text)

abbrev sender_value_ok : (Text → Bool) → Option Text → Bool
sender_value_ok is_uuid none = false
sender_value_ok is_uuid (some []) = true
sender_value_ok is_uuid (some (c ∷ rest)) = is_uuid (c ∷ rest)

-- Whether `readSenderId` returns: `senderId` is the only field, and empty or a UUID.
pub accepts_fields : (Text → Bool) → Fields → Bool
accepts_fields is_uuid =
    all (λ (key, value). text_eq key (text "senderId") && sender_value_ok is_uuid value)

abbrev refusal_of : PolicyError → Refusal
refusal_of file_too_large = payload_too_large
refusal_of _ = bad_request

module _ (utf8 : Bytes → Text) (trim : Text → Text) where
  pub check_content : PolicyError ⊎ Policy → Answers → ℕ → UploadFile → World → Outcome
  unfolding admit
  check_content (inl error) a tenant file w = (inl (refusal_of error), w)
  check_content (inr policy) a tenant file w =
      if assert_content_signature utf8 trim a.sample_bytes policy.mime_type file.content
      then admit a.target a tenant policy file.size w
      else (inl bad_request, w)

  -- `fields` tells whether `readSenderId` accepts the fields; if not, the upload is refused.
  upload_body : Bool → Option UploadFile → Answers → ℕ → World → Outcome
  unfolding check_content
  upload_body fields none a tenant w = (inl bad_request, w)
  upload_body false (some file) a tenant w = (inl bad_request, w)
  upload_body true (some file) a tenant w =
      check_content (resolve_upload_policy trim file.mimetype file.size) a tenant file w

  -- `rm`, whose failure is ignored.
  abbrev remove_temporary : Bool → Outcome → Outcome
  remove_temporary removed (result, w) =
      (result, record w { temporary = w.temporary && not removed })

  -- `finally`: the removal of the temporary file, if there is one.
  pub upload : Fields → Option UploadFile → Answers → ℕ → World → Outcome
  unfolding upload_body accepts_fields
  upload fields none a tenant w = upload_body (accepts_fields a.is_uuid fields) none a tenant w
  upload fields (some file) a tenant w =
      remove_temporary a.removed
        (upload_body (accepts_fields a.is_uuid fields) (some file) a tenant w)
