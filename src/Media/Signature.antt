-- ===== src/Media/Signature.antt =====
-- src/media/media-content-signature.ts: what the content of an upload must look like for the MIME type
-- that it declares. The decoding of names as UTF-8 is a parameter of the ZIP check.
use api_whats_app.Base.{
  ℕ, bit_and, Bool, true, false, ◌&&◌, ◌||◌, not, Option, none, some, List, [], ◌∷◌, ◌==◌, ltb, ◌%◌,
  if◌then◌else◌, Text, text, text_eq, to_lower, length, take, any, map,
}
use api_whats_app.Media.{Bytes, File, byte, starts_with}
use api_whats_app.Media.Aac.{matches_aac}
use api_whats_app.Media.Amr.{matches_amr}
use api_whats_app.Media.Mpeg.{matches_mpeg}
use api_whats_app.Media.Ogg.{matches_ogg}
use api_whats_app.Media.Png.{matches_png}
use api_whats_app.Media.Jpeg.{matches_jpeg}
use api_whats_app.Media.Pdf.{matches_pdf}
use api_whats_app.Media.IsoBmff.{
  MimeType, audio_mp4, video_mp4, video_3gpp, matches_file_type_signature, matches_iso_bmff,
}
use api_whats_app.Media.Ooxml.{Family, word, spreadsheet, presentation, matches_ooxml}

-- The MIME types that the check tells apart.
pub data Kind : Type 0 where
  jpeg png pdf ogg aac mpeg amr plain legacy_office : Kind
  iso_bmff : MimeType → Kind
  ooxml : Family → Kind

-- The MIME type that a normalized text names, if the check knows it.
abbrev names : List (Text × Kind)
names =
    (text "image/jpeg", jpeg)
    ∷ (text "image/png", png)
    ∷ (text "application/pdf", pdf)
    ∷ (text "audio/ogg", ogg)
    ∷ (text "audio/aac", aac)
    ∷ (text "audio/mpeg", mpeg)
    ∷ (text "audio/amr", amr)
    ∷ (text "audio/mp4", iso_bmff audio_mp4)
    ∷ (text "video/mp4", iso_bmff video_mp4)
    ∷ (text "video/3gpp", iso_bmff video_3gpp)
    ∷ (text "text/plain", plain)
    ∷ (text "application/msword", legacy_office)
    ∷ (text "application/vnd.ms-excel", legacy_office)
    ∷ (text "application/vnd.ms-powerpoint", legacy_office)
    ∷ (text "application/vnd.openxmlformats-officedocument.wordprocessingml.document", ooxml word)
    ∷ (text "application/vnd.openxmlformats-officedocument.spreadsheetml.sheet", ooxml spreadsheet)
    ∷ (
      text "application/vnd.openxmlformats-officedocument.presentationml.presentation",
      ooxml presentation,
    )
    ∷ []

find_kind : Text → List (Text × Kind) → Option Kind
find_kind name [] = none
find_kind name ((known, kind) ∷ rest) =
    if text_eq known name then some kind else find_kind name rest

pub kind_of : Text → Option Kind
unfolding find_kind
kind_of mime_type = find_kind mime_type names

-- `indexOf(header) >= 0`
contains : Bytes → Bytes → Bool
contains header [] = false
contains header (c ∷ rest) = starts_with header (c ∷ rest) || contains header rest

-- `sample.subarray(0, prefix.length).toString("ascii") === prefix`; the decoding clears the high bit.
abbrev starts_with_ascii : Text → Bytes → Bool
starts_with_ascii prefix sample = text_eq (map (λ c. c % 128) (take (length prefix) sample)) prefix

abbrev is_adts : Bytes → Bool
is_adts sample =
    not (ltb (length sample) 2) && (byte sample 0 == 0xff && bit_and (byte sample 1) 0xf6 == 0xf0)

abbrev is_mp3 : Bytes → Bool
is_mp3 sample =
    starts_with_ascii (text "ID3") sample
    || (not (
          ltb (length sample) 2
          || not (byte sample 0 == 0xff)
          || not (bit_and (byte sample 1) 0xe0 == 0xe0))
        && not (bit_and (byte sample 1) 6 == 0))

signature_of : Kind → Bytes → Bool
unfolding contains
signature_of jpeg sample = starts_with (0xff ∷ 0xd8 ∷ 0xff ∷ []) sample
signature_of png sample =
    starts_with (0x89 ∷ 0x50 ∷ 0x4e ∷ 0x47 ∷ 0x0d ∷ 0x0a ∷ 0x1a ∷ 0x0a ∷ []) sample
signature_of pdf sample = contains (text "%PDF-") (take 1024 sample)
signature_of ogg sample = starts_with_ascii (text "OggS") sample
signature_of aac sample = is_adts sample || starts_with_ascii (text "ADIF") sample
signature_of mpeg sample = is_mp3 sample
signature_of amr sample =
    starts_with_ascii (text "#!AMR\n") sample || starts_with_ascii (text "#!AMR-WB\n") sample
signature_of plain sample = not (any (λ c. c == 0) sample)
signature_of legacy_office sample =
    starts_with (0xd0 ∷ 0xcf ∷ 0x11 ∷ 0xe0 ∷ 0xa1 ∷ 0xb1 ∷ 0x1a ∷ 0xe1 ∷ []) sample
signature_of (iso_bmff mime_type) sample = matches_file_type_signature sample mime_type
signature_of (ooxml family) sample = starts_with (0x50 ∷ 0x4b ∷ 0x03 ∷ 0x04 ∷ []) sample

pub matches_mime_signature : Bytes → Option Kind → Bool
unfolding signature_of
matches_mime_signature [] kind = false
matches_mime_signature (c ∷ rest) none = false
matches_mime_signature (c ∷ rest) (some kind) = signature_of kind (c ∷ rest)

module _ (utf8 : Bytes → Text) where
  -- The check of the whole file; text and the legacy formats have none.
  pub matches_structure : Kind → File → Bool
  matches_structure jpeg file = matches_jpeg file
  matches_structure png file = matches_png file
  matches_structure pdf file = matches_pdf file
  matches_structure ogg file = matches_ogg true file
  matches_structure aac file = matches_aac file
  matches_structure mpeg file = matches_mpeg file
  matches_structure amr file = matches_amr file
  matches_structure plain file = true
  matches_structure legacy_office file = true
  matches_structure (iso_bmff mime_type) file = matches_iso_bmff mime_type file
  matches_structure (ooxml family) file = matches_ooxml utf8 family file

  abbrev structure_of : Option Kind → File → Bool
  structure_of none file = false
  structure_of (some kind) file = matches_structure kind file

  -- Whether `assertMediaContentSignature` returns; `read` is how many bytes the one read of the sample
  -- yields, 8192 at most. `trim` is the platform's.
  pub assert_content_signature : (Text → Text) → ℕ → Text → File → Bool
  unfolding kind_of matches_mime_signature
  assert_content_signature trim read mime_type file =
      matches_mime_signature (take read file.bytes) (kind_of (to_lower (trim mime_type)))
      && structure_of (kind_of (to_lower (trim mime_type))) file
