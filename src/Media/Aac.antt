-- ===== src/Media/Aac.antt =====
-- `matchesAacStructure` of src/media/media-audio-structure.ts: a file of ADTS frames, or one with an
-- ADIF header (Adif). Adts holds the proofs.
pub mod Adif
pub mod Adts
use api_whats_app.Base.{
  ℕ, ◌+◌, ◌*◌, ◌/◌, bit_and, Bool, true, false, ◌&&◌, ◌||◌, not, Option, none, some, ◌==◌, ltb, leb,
  length, if◌then◌else◌, min, text, text_eq,
}
use Prim.Native.Nat.{bit_or}
use api_whats_app.Media.{
  Bytes, File, size, byte, equals, read_exactly, ◌>>=◌, ◌>>◌, require, passes,
}
use api_whats_app.Media.Checks.{opened}
use api_whats_app.Media.Frames.{frames_loop}
use api_whats_app.Media.Aac.Adif.{matches_adif}

abbrev pub adif_magic : Bytes
adif_magic = text "ADIF"

abbrev pub max_frames : ℕ
max_frames = 100000

-- `(header[1] & 0x01) !== 0`
abbrev pub protection_absent : Bytes → Bool
protection_absent header = not (bit_and (byte header 1) 1 == 0)

abbrev pub header_bytes : Bytes → ℕ
header_bytes header = if protection_absent header then 7 else 9

abbrev frame_bytes : Bytes → ℕ
frame_bytes header =
    bit_or (bit_or (bit_and (byte header 3) 3 * 2048) (byte header 4 * 8)) (byte header 5 / 32)

-- The length that the seven bytes of a header give, if the header is valid.
unfoldable pub adts_frame_bytes : Bytes → Option ℕ
adts_frame_bytes header = do
  require (
      byte header 0 == 0xff
      && (bit_and (byte header 1) 0xf0 == 0xf0 && bit_and (byte header 1) 6 == 0))
  require (not (leb 13 (bit_and (byte header 2 / 4) 0x0f)))
  require (not (leb (frame_bytes header) (header_bytes header)))
  some (frame_bytes header)

-- The body of the loop: the length of the frame at `offset`.
unfoldable pub adts_frame : Bytes → ℕ → Option ℕ
adts_frame bytes offset = do
  header ← read_exactly bytes 7 offset
  n ← adts_frame_bytes header
  require (not (ltb (length bytes) (offset + n)))
  require (protection_absent header || passes (read_exactly bytes 2 (offset + 7)))
  some n

unfoldable pub matches_aac : File → Bool
matches_aac file =
    opened file.is_file 5 (size file) (elim (read_exactly file.bytes (min 4 (size file)) 0) [
      | none ↦ false
      | some prefix ↦
          if equals prefix adif_magic
          then matches_adif file.bytes
          else frames_loop (adts_frame file.bytes) max_frames (size file) 0
    ])
