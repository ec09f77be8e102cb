-- ===== src/Media/IsoBmff.antt =====
-- src/media/media-isobmff-structure.ts: the boxes of an MP4 or 3GPP file, on the sample of the
-- signature check and on the whole file. Brands are texts in Latin-1, the bytes themselves.
pub mod Headers
pub mod Boxes
mod Examples
use api_whats_app.Base.{
  ℕ, zero, suc, ◌+◌, ◌-◌, ◌*◌, ◌/◌, ◌%◌, Bool, true, false, ◌&&◌, ◌||◌, not, Option, none, some,
  List, [], ◌∷◌, ◌==◌, ltb, leb, if◌then◌else◌, min, text, length, drop, take, all, any,
}
use api_whats_app.Media.{
  Bytes, File, size, byte, equals, subarray, starts_with, u32_be, read_exactly, ◌>>=◌, ◌>>◌,
  require,
}
use api_whats_app.Media.Checks.{opened}
use api_whats_app.Media.Walk.{walk, Cursor}

-- `IsoBmffMediaMimeType`
pub data MimeType : Type 0 where
  audio_mp4 video_mp4 video_3gpp : MimeType

-- `BoxHeader`
pub record BoxHeader : Type 0 where
  pub kind : Bytes
  pub size : ℕ
  pub header_bytes : ℕ

abbrev pub max_file_type_box_bytes : ℕ
max_file_type_box_bytes = 4096

abbrev pub max_top_level_boxes : ℕ
max_top_level_boxes = 4096

abbrev pub is_leading : Bytes → Bool
is_leading kind = any (equals kind) (text "free" ∷ text "skip" ∷ text "wide" ∷ [])

abbrev pub is_printable_four_cc : Bytes → Bool
is_printable_four_cc value = length value == 4 && all (λ code. leb 0x20 code && leb code 0x7e) value

abbrev pub size64 : Bytes → ℕ → ℕ
size64 bytes offset = 4294967296 * u32_be bytes (offset + 8) + u32_be bytes (offset + 12)

pub parse_box_header : Bytes → ℕ → ℕ → Bool → Option BoxHeader
parse_box_header bytes offset available allow_zero_to_end = do
  require (not (ltb (length bytes) (offset + 8)))
  let size32 = u32_be bytes offset
  let kind = subarray bytes (offset + 4) (offset + 8)
  require (is_printable_four_cc kind)
  if size32 == 0
      then (require (allow_zero_to_end && leb 8 available)
          >> some (record { kind = kind; size = available; header_bytes = 8 }))
      else if size32 == 1
      then (require (
            not (ltb (length bytes) (offset + 16))
            && leb (size64 bytes offset) 9007199254740991
            && (leb 16 (size64 bytes offset) && leb (size64 bytes offset) available))
          >> some (record { kind = kind; size = size64 bytes offset; header_bytes = 16 }))
      else (require (leb 8 size32 && leb size32 available)
          >> some (record { kind = kind; size = size32; header_bytes = 8 }))

-- The compatible brands: `rounds` of four bytes each.
pub brands_from : Bytes → ℕ → Option (List Bytes)
brands_from bytes zero = some []
brands_from bytes (suc rounds) = require (is_printable_four_cc (take 4 bytes)) >>= λ _.
    brands_from (drop 4 bytes) rounds >>= λ brands. some (take 4 bytes ∷ brands)

-- The major brand, and then the compatible brands.
pub parse_file_type_box : Bytes → ℕ → Option (List Bytes)
unfolding brands_from
parse_file_type_box box header_bytes = do
  let payload = length box - header_bytes
  require (leb 8 payload && (payload - 8) % 4 == 0)
  let major = subarray box header_bytes (header_bytes + 4)
  require (is_printable_four_cc major)
  compatible ← brands_from (drop (header_bytes + 8) box) ((payload - 8) / 4)
  some (major ∷ compatible)

abbrev mp4_brands : List Bytes
mp4_brands =
    text "isom"
    ∷ text "mp41"
    ∷ text "mp42"
    ∷ text "avc1"
    ∷ text "M4A "
    ∷ text "M4B "
    ∷ text "M4V "
    ∷ text "dash"
    ∷ text "piff"
    ∷ text "dby1"
    ∷ text "MSNV"
    ∷ text "XAVC"
    ∷ []

-- The last character of a brand of four that starts with three given ones.
abbrev last_of : Bytes → Bytes → (ℕ → Bool) → Bool
last_of prefix brand test = length brand == 4 && (starts_with prefix brand && test (byte brand 3))

pub is_mp4_brand : Bytes → Bool
is_mp4_brand brand =
    any (equals brand) mp4_brands
    || last_of (text "iso") brand (λ c. (leb b'2' c && leb c b'9') || (leb b'a' c && leb c b'd'))
    || last_of (text "cmf") brand
        (λ c. c == b'2' || c == b'c' || c == b'f' || c == b'l' || c == b's')

abbrev prefixes_3gpp : List Bytes
prefixes_3gpp =
    text "3gp"
    ∷ text "3gr"
    ∷ text "3ge"
    ∷ text "3gg"
    ∷ text "3gh"
    ∷ text "3gm"
    ∷ text "3gs"
    ∷ text "3gt"
    ∷ text "3gv"
    ∷ []

pub is_3gpp_brand : Bytes → Bool
is_3gpp_brand brand =
    any
      (λ prefix. last_of prefix brand (λ c.
        (leb b'0' c && leb c b'9') || (leb b'A' c && leb c b'Z') || (leb b'a' c && leb c b'z')))
      prefixes_3gpp

pub matches_mime_family : List Bytes → MimeType → Bool
unfolding is_mp4_brand is_3gpp_brand
matches_mime_family brands video_3gpp = any is_3gpp_brand brands
matches_mime_family brands _ = any is_mp4_brand brands

abbrev identity_matches : Option (List Bytes) → MimeType → Bool
identity_matches none mime_type = false
identity_matches (some brands) mime_type = matches_mime_family brands mime_type

-- `while (offset + 8 <= sample.length && leadingBoxes <= 8)`
signature_loop : Bytes → MimeType → ℕ → ℕ → Bool
signature_loop sample mime_type zero offset = false
signature_loop sample mime_type (suc rounds) offset = elim (leb (offset + 8) (length sample)) [
  | false ↦ false
  | true ↦ elim (parse_box_header sample offset (length sample - offset) false) [
    | none ↦ false
    | some header ↦
        if ltb (length sample) (offset + header.size)
        then false
        else if equals header.kind (text "ftyp")
        then leb header.size max_file_type_box_bytes
          && identity_matches
              (parse_file_type_box (subarray sample offset (offset + header.size))
                header.header_bytes)
              mime_type
        else if not (is_leading header.kind)
        then false
        else signature_loop sample mime_type rounds (offset + header.size)
  ]
]

unfoldable pub matches_file_type_signature : Bytes → MimeType → Bool
unfolding signature_loop parse_box_header parse_file_type_box matches_mime_family
matches_file_type_signature sample mime_type = signature_loop sample mime_type 9 0

-- What the loop over the boxes of a file has found.
pub record Found : Type 0 where
  pub file_type : Bool
  pub movie : Bool
  pub media_data : Bool

-- The checks on a box before and behind the file type box.
pub file_type_step : Bytes → MimeType → ℕ → BoxHeader → Bool → Option Bool
file_type_step bytes mime_type offset header true =
    if equals header.kind (text "ftyp") then none else some true
file_type_step bytes mime_type offset header false =
    if equals header.kind (text "ftyp")
    then require (leb header.size max_file_type_box_bytes)
      >>= (λ _. read_exactly bytes header.size offset)
      >>= (λ box. parse_file_type_box box header.header_bytes)
      >>= (λ brands. require (matches_mime_family brands mime_type) >>= λ _. some true)
    else if is_leading header.kind
    then some false
    else none

-- The body of the loop: the box at `offset`.
pub box_at : MimeType → Bytes → ℕ → Found → Option (ℕ × Found)
box_at mime_type bytes offset found = do
  fixed ← read_exactly bytes (min 16 (length bytes - offset)) offset
  header ← parse_box_header fixed 0 (length bytes - offset) true
  file_type ← file_type_step bytes mime_type offset header found.file_type
  some (
    header.size,
    record {
      file_type = file_type;
      movie = found.movie || equals header.kind (text "moov");
      media_data = found.media_data || equals header.kind (text "mdat");
    },
  )

abbrev pub nothing_found : Found
nothing_found = record { file_type = false; movie = false; media_data = false }

-- The verdict behind the loop.
pub all_found : ℕ → Option (Cursor Found) → Bool
all_found stop none = false
all_found stop (some c) =
    c.offset == stop
    && ltb 0 c.count
    && leb c.count max_top_level_boxes
    && (c.state.file_type && c.state.movie && c.state.media_data)

unfoldable pub matches_iso_bmff : MimeType → File → Bool
matches_iso_bmff mime_type file = opened file.is_file 24 (size file) (
    all_found (size file)
      (walk (box_at mime_type file.bytes) (size file) max_top_level_boxes 0 0 nothing_found))
