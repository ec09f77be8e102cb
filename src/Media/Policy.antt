-- ===== src/Media/Policy.antt =====
-- src/media/media-upload.policy.ts: the types that may be uploaded and their limits.
use api_whats_app.Base.{
  ℕ, ◌≤◌, ◌<◌, ◌*◌, ◌≡◌, Option, none, some, List, [], ◌∷◌, ◌==◌, ltb, if◌then◌else◌, Text, text,
  text_eq, arith, ◌⊎◌, inl, inr, to_lower,
}

pub data Category : Type 0 where
  image video audio document : Category

-- `MediaUploadPolicy`
pub record Policy : Type 0 where
  pub category : Category
  pub mime_type : Text
  pub max_bytes : ℕ
  pub provider_filename : Text

abbrev policy : Category → Text → ℕ → Text → Policy
policy category mime_type megabytes name = record {
  category = category;
  mime_type = mime_type;
  max_bytes = megabytes * 1000000;
  provider_filename = name;
}

-- `POLICIES`, under the name of their type. A MIME type has a slash, which no name that every object
-- inherits has.
abbrev policies : List Policy
policies =
    policy image (text "image/jpeg") 5 (text "upload.jpg")
    ∷ policy image (text "image/png") 5 (text "upload.png")
    ∷ policy audio (text "audio/aac") 16 (text "upload.aac")
    ∷ policy audio (text "audio/mp4") 16 (text "upload.m4a")
    ∷ policy audio (text "audio/mpeg") 16 (text "upload.mp3")
    ∷ policy audio (text "audio/amr") 16 (text "upload.amr")
    ∷ policy audio (text "audio/ogg") 16 (text "upload.ogg")
    ∷ policy video (text "video/mp4") 16 (text "upload.mp4")
    ∷ policy video (text "video/3gpp") 16 (text "upload.3gp")
    ∷ policy document (text "text/plain") 100 (text "upload.txt")
    ∷ policy document (text "application/pdf") 100 (text "upload.pdf")
    ∷ policy document (text "application/msword") 100 (text "upload.doc")
    ∷ policy document (text "application/vnd.ms-excel") 100 (text "upload.xls")
    ∷ policy document (text "application/vnd.ms-powerpoint") 100 (text "upload.ppt")
    ∷ policy document
        (text "application/vnd.openxmlformats-officedocument.wordprocessingml.document") 100
        (text "upload.docx")
    ∷ policy document (text "application/vnd.openxmlformats-officedocument.spreadsheetml.sheet") 100
        (text "upload.xlsx")
    ∷ policy document
        (text "application/vnd.openxmlformats-officedocument.presentationml.presentation") 100
        (text "upload.pptx")
    ∷ []

find_policy : Text → List Policy → Option Policy
find_policy name [] = none
find_policy name (p ∷ rest) = if text_eq p.mime_type name then some p else find_policy name rest

-- The reasons of `MediaUploadPolicyError`.
pub data PolicyError : Type 0 where
  empty_file unsupported_mime file_too_large : PolicyError

within_limit : ℕ → Option Policy → PolicyError ⊎ Policy
within_limit size none = inl unsupported_mime
within_limit size (some p) = if ltb p.max_bytes size then inl file_too_large else inr p

-- `trim` is the platform's; lower-casing covers ASCII.
pub resolve_upload_policy : (Text → Text) → Text → ℕ → PolicyError ⊎ Policy
unfolding find_policy within_limit
resolve_upload_policy trim mime_type size =
    if size == 0
    then inl empty_file
    else within_limit size (find_policy (to_lower (trim mime_type)) policies)

within_limit-bounds :
    (size : ℕ) (o : Option Policy) {p : Policy} → within_limit size o ≡ inr p → size ≤ p.max_bytes
unfolding within_limit
within_limit-bounds size none h = ground arith
within_limit-bounds size (some q) h = ground arith

resolve_within :
    (size : ℕ) (o : Option Policy) {p : Policy}
    → (if size == 0 then inl empty_file else within_limit size o) ≡ inr p
    → (0 < size) × (size ≤ p.max_bytes)
resolve_within size o {p} h = ground (arith, within_limit-bounds size o {p = p})

pub resolve_upload_policy-bounds :
    (trim : Text → Text) (mime_type : Text) (size : ℕ) {p : Policy}
    → resolve_upload_policy trim mime_type size ≡ inr p
    → (0 < size) × (size ≤ p.max_bytes)
unfolding resolve_upload_policy
resolve_upload_policy-bounds trim mime_type size h =
    resolve_within size (find_policy (to_lower (trim mime_type)) policies) h
