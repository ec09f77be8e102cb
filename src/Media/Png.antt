-- ===== src/Media/Png.antt =====
-- `matchesPngStructure` of src/media/media-image-structure.ts: the chunks of a PNG file, their order and
-- their checksums.
pub mod Steps
pub mod Chunks
mod Examples
use api_whats_app.Base.{
  ℕ, zero, suc, ◌+◌, ◌-◌, ◌/◌, ◌%◌, ◌^◌, bit_xor, Bool, true, false, ◌&&◌, ◌||◌, not, Option, none,
  some, List, [], ◌∷◌, ◌==◌, ltb, leb, if◌then◌else◌, min, text, length, all, any,
}
use api_whats_app.Media.{
  Bytes, File, size, byte, byte_or, equals, subarray, u32_be, read_exactly, ◌>>=◌, ◌>>◌, require,
}
use api_whats_app.Media.Checks.{opened}

abbrev pub png_signature : Bytes
png_signature = 0x89 ∷ 0x50 ∷ 0x4e ∷ 0x47 ∷ 0x0d ∷ 0x0a ∷ 0x1a ∷ 0x0a ∷ []

abbrev pub max_chunks : ℕ
max_chunks = 10000

-- `buildCrc32Table`: an entry is computed where it is read.
table_rounds : ℕ → ℕ → ℕ
table_rounds zero value = value
table_rounds (suc rounds) value =
    table_rounds rounds (if value % 2 == 0 then value / 2 else bit_xor 0xedb88320 (value / 2))

pub update_crc32 : ℕ → Bytes → ℕ
unfolding table_rounds
update_crc32 crc [] = crc
update_crc32 crc (value ∷ rest) =
    update_crc32 (bit_xor (table_rounds 8 (bit_xor crc value % 256)) (crc / 256)) rest

-- The loop that reads the content of a chunk in pieces of 64 KiB, as many as there are.
crc_rounds : Bytes → ℕ → ℕ → ℕ → ℕ → ℕ → Option ℕ
unfolding update_crc32
crc_rounds bytes zero data_offset data_length read_offset crc = some crc
crc_rounds bytes (suc rounds) data_offset data_length read_offset crc =
    read_exactly bytes (min 65536 (data_length - read_offset)) (data_offset + read_offset)
    >>= (λ chunk.
        crc_rounds bytes rounds data_offset data_length
          (read_offset + min 65536 (data_length - read_offset)) (update_crc32 crc chunk))

pub validate_chunk_crc : Bytes → Bytes → ℕ → ℕ → ℕ → Bool
unfolding crc_rounds
validate_chunk_crc bytes kind data_offset data_length crc_offset =
    elim (crc_rounds bytes ((data_length + 65535) / 65536) data_offset data_length 0
      (update_crc32 0xffffffff kind)) [
        | none ↦ false
        | some crc ↦ elim (read_exactly bytes 4 crc_offset) [
          | none ↦ false
          | some expected ↦ bit_xor crc 0xffffffff == u32_be expected 0
        ]
      ]

abbrev is_upper : ℕ → Bool
is_upper value = leb 0x41 value && leb value 0x5a

abbrev is_letter : ℕ → Bool
is_letter value = is_upper value || (leb 0x61 value && leb value 0x7a)

pub is_chunk_type : Bytes → Bool
is_chunk_type kind = length kind == 4 && (all is_letter kind && is_upper (byte kind 2))

-- The critical chunks that the check knows.
abbrev critical_chunks : List Bytes
critical_chunks = text "IHDR" ∷ text "PLTE" ∷ text "IDAT" ∷ text "IEND" ∷ []

pub is_unknown_critical : Bytes → Bool
is_unknown_critical kind = is_upper (byte kind 0) && not (any (equals kind) critical_chunks)

-- The depths that `validatePngIhdr` allows for a colour type.
depth_allowed : ℕ → ℕ → Bool
depth_allowed depth color =
    if color == 0
    then any (λ d. d == depth) (1 ∷ 2 ∷ 4 ∷ 8 ∷ 16 ∷ [])
    else if color == 2 || color == 4 || color == 6
    then depth == 8 || depth == 16
    else if color == 3
    then any (λ d. d == depth) (1 ∷ 2 ∷ 4 ∷ 8 ∷ [])
    else false

pub validate_ihdr : Bytes → Bool
unfolding depth_allowed
validate_ihdr ihdr =
    not (u32_be ihdr 0 == 0)
    && not (u32_be ihdr 4 == 0)
    && (byte_or 255 ihdr 10 == 0 && byte_or 255 ihdr 11 == 0 && leb (byte_or 255 ihdr 12) 1)
    && depth_allowed (byte ihdr 8) (byte_or 255 ihdr 9)

-- What the loop keeps.
pub record PngState : Type 0 where
  pub seen_ihdr : Bool
  pub seen_plte : Bool
  pub seen_idat : Bool
  pub idat_closed : Bool
  pub color_type : Option ℕ
  pub bit_depth : Option ℕ

abbrev pub is_color : ℕ → Option ℕ → Bool
is_color color none = false
is_color color (some c) = c == color

-- `bitDepth === null || paletteEntries > 2 ** bitDepth`
abbrev over_depth : ℕ → Option ℕ → Bool
over_depth entries none = true
over_depth entries (some depth) = ltb (2 ^ depth) entries

pub palette_refused : ℕ → PngState → Bool
palette_refused n s =
    s.seen_plte
    || s.seen_idat
    || n == 0
    || ltb 768 n
    || not (n % 3 == 0)
    || is_color 0 s.color_type
    || is_color 4 s.color_type
    || (is_color 3 s.color_type && over_depth (n / 3) s.bit_depth)

-- The header chunk, or any other once the header was seen.
pub after_ihdr : Bytes → Bytes → ℕ → ℕ → PngState → Option PngState
after_ihdr bytes kind data_offset n s =
    if equals kind (text "IHDR")
    then require (not (s.seen_ihdr || not (n == 13)))
      >>= (λ _. read_exactly bytes n data_offset)
      >>= (λ ihdr. require (validate_ihdr ihdr) >>= λ _. some (record s {
        bit_depth = some (byte ihdr 8);
        color_type = some (byte ihdr 9);
        seen_ihdr = true;
      }))
    else if s.seen_ihdr
    then some s
    else none

pub after_plte : Bytes → ℕ → PngState → Option PngState
unfolding palette_refused
after_plte kind n s =
    if equals kind (text "PLTE")
    then require (not (palette_refused n s)) >>= (λ _. some (record s { seen_plte = true }))
    else some s

pub after_idat : Bytes → PngState → Option PngState
after_idat kind s =
    if equals kind (text "IDAT")
    then require (not (s.idat_closed || (is_color 3 s.color_type && not s.seen_plte)))
      >>= (λ _. some (record s { seen_idat = true }))
    else if s.seen_idat && not (equals kind (text "IEND"))
    then some (record s { idat_closed = true })
    else some s

pub data Progress : Type 0 where
  stop : Bool → Progress
  go : ℕ → PngState → Progress

-- The body of the loop: the chunk at `offset`.
pub png_chunk : Bytes → ℕ → ℕ → PngState → Option Progress
unfolding is_chunk_type is_unknown_critical after_ihdr after_plte after_idat validate_chunk_crc
png_chunk bytes offset count s = do
  header ← read_exactly bytes 8 offset
  let n = u32_be header 0
  let kind = subarray header 4 8
  require (is_chunk_type kind)
  require (not (ltb (length bytes) (offset + 8 + n + 4)))
  require (not (count == 0 && not (equals kind (text "IHDR"))))
  require (not (is_unknown_critical kind))
  s1 ← after_ihdr bytes kind (offset + 8) n s
  s2 ← after_plte kind n s1
  s3 ← after_idat kind s2
  require (validate_chunk_crc bytes kind (offset + 8) n (offset + 8 + n))
  some (
      if equals kind (text "IEND")
      then stop (n == 0 && (s3.seen_idat && offset + 8 + n + 4 == length bytes))
      else go (offset + 8 + n + 4) s3)

pub png_loop : Bytes → ℕ → ℕ → ℕ → PngState → Bool
unfolding png_chunk
png_loop bytes zero offset count s = false
png_loop bytes (suc rounds) offset count s = elim (ltb offset (length bytes)) [
  | false ↦ false
  | true ↦ elim (png_chunk bytes offset count s) [
    | none ↦ false
    | some (stop verdict) ↦ verdict
    | some (go next s') ↦ png_loop bytes rounds next (count + 1) s'
  ]
]

abbrev pub png_start : PngState
png_start = record {
  seen_ihdr = false;
  seen_plte = false;
  seen_idat = false;
  idat_closed = false;
  color_type = none;
  bit_depth = none;
}

unfoldable pub matches_png : File → Bool
unfolding png_loop
matches_png file = opened file.is_file 20 (size file) (elim (read_exactly file.bytes 8 0) [
  | none ↦ false
  | some signature ↦
      if equals signature png_signature then png_loop file.bytes max_chunks 8 0 png_start else false
])
