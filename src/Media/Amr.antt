-- ===== src/Media/Amr.antt =====
-- `matchesAmrStructure` of src/media/media-audio-structure.ts: narrowband and wideband AMR files.
-- A mask of ones in the low bits is written as a remainder. Rows holds the proofs.
pub mod Rows
use api_whats_app.Base.{
  ℕ, ◌+◌, ◌-◌, ◌*◌, ◌/◌, ◌%◌, ◌^◌, bit_and, Bool, true, false, ◌&&◌, ◌||◌, not, Option, none, some,
  List, [], ◌∷◌, ◌==◌, ltb, leb, if◌then◌else◌, min, text, length, get_elem?,
}
use api_whats_app.Media.{
  Bytes, File, size, byte, equals, subarray, read_exactly, ◌>>=◌, ◌>>◌, require,
}
use api_whats_app.Media.Checks.{opened}
use api_whats_app.Media.Frames.{frames_loop}

-- `AMR_WB_MAGIC` and `AMR_NB_MAGIC`
abbrev pub magic : Bool → Bytes
magic true = text "#!AMR-WB\n"
magic false = text "#!AMR\n"

abbrev pub max_frames : ℕ
max_frames = 100000

abbrev nb_frame_bits : List ℕ
nb_frame_bits = 95 ∷ 103 ∷ 118 ∷ 134 ∷ 148 ∷ 159 ∷ 204 ∷ 244 ∷ 39 ∷ []

abbrev wb_frame_bits : List ℕ
wb_frame_bits = 132 ∷ 177 ∷ 253 ∷ 285 ∷ 317 ∷ 365 ∷ 397 ∷ 461 ∷ 477 ∷ 40 ∷ []

unfoldable pub amr_frame_bits : Bool → ℕ → Option ℕ
amr_frame_bits true frame_type =
    if leb frame_type 9
    then get_elem? wb_frame_bits frame_type
    else if frame_type == 14 || frame_type == 15
    then some 0
    else none
amr_frame_bits false frame_type =
    if leb frame_type 8
    then get_elem? nb_frame_bits frame_type
    else if frame_type == 15
    then some 0
    else none

-- The bits of speech that the header of a frame announces.
unfoldable pub speech_bits : Bool → ℕ → Option ℕ
speech_bits wideband header = do
  require (bit_and header 0x83 == 0)
  amr_frame_bits wideband (header / 8 % 16)

-- `Math.ceil(speechBits / 8)`
abbrev pub payload_bytes : ℕ → ℕ
payload_bytes bits = (bits + 7) / 8

-- The bits of the last byte that no speech fills are zero.
abbrev pub padding_clear : ℕ → ℕ → Bool
padding_clear bits last = last % 2 ^ (payload_bytes bits * 8 - bits) == 0

-- The check on the last byte of the payload of the frame at `offset`.
unfoldable pub padding_check : Bytes → ℕ → ℕ → Option (Unit {0})
padding_check bytes offset bits =
    if payload_bytes bits == 0
    then some tt
    else read_exactly bytes 1 (offset + payload_bytes bits) >>= λ last.
        require (padding_clear bits (byte last 0))

-- The body of the loop.
unfoldable pub amr_frame : Bool → Bytes → ℕ → Option ℕ
amr_frame wideband bytes offset = do
  header ← read_exactly bytes 1 offset
  bits ← speech_bits wideband (byte header 0)
  require (not (ltb (length bytes) (offset + 1 + payload_bytes bits)))
  padding_check bytes offset bits
  some (1 + payload_bytes bits)

-- Which magic the file starts with, wideband first.
abbrev pub wideband_of : Bytes → Option Bool
wideband_of prefix =
    if leb 9 (length prefix) && equals (subarray prefix 0 9) (magic true)
    then some true
    else if equals (subarray prefix 0 6) (magic false)
    then some false
    else none

unfoldable pub matches_amr : File → Bool
matches_amr file =
    opened file.is_file 7 (size file) (elim (read_exactly file.bytes (min 9 (size file)) 0) [
      | none ↦ false
      | some prefix ↦ elim (wideband_of prefix) [
        | none ↦ false
        | some wideband ↦
            frames_loop (amr_frame wideband file.bytes) max_frames (size file)
              (length (magic wideband))
      ]
    ])
