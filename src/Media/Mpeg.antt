-- ===== src/Media/Mpeg.antt =====
-- `matchesMpegAudioStructure` of src/media/media-audio-structure.ts: an MP3 file between its ID3
-- tags. A mask of ones in the low bits is written as a remainder. Rows holds the proofs.
pub mod Lengths
pub mod Rows
use api_whats_app.Base.{
  ℕ, ◌+◌, ◌-◌, ◌*◌, ◌/◌, ◌%◌, bit_and, Bool, true, false, ◌&&◌, ◌||◌, not, Option, none, some, List,
  [], ◌∷◌, ◌==◌, ltb, leb, if◌then◌else◌, min, text, length, any,
}
use Prim.Native.Nat.{bit_or}
use api_whats_app.Media.{
  Bytes, File, size, byte, byte_or, equals, read_exactly, ◌>>=◌, ◌>>◌, require,
}
use api_whats_app.Media.Checks.{opened}
use api_whats_app.Media.Frames.{frames_loop}
use api_whats_app.Media.Mpeg.Lengths.{mpeg_audio_frame_length}

abbrev pub max_frames : ℕ
max_frames = 100000

abbrev pub id3v1_bytes : ℕ
id3v1_bytes = 128

-- Seven bits of the size from each of four bytes.
abbrev tag_payload_bytes : Bytes → ℕ
tag_payload_bytes h =
    bit_or (bit_or (bit_or (byte h 6 * 2097152) (byte h 7 * 16384)) (byte h 8 * 128)) (byte h 9)

abbrev footer_bytes : Bytes → ℕ
footer_bytes h = if byte h 3 == 4 && not (bit_and (byte h 5) 0x10 == 0) then 10 else 0

abbrev high_bit : ℕ → Bool
high_bit value = not (bit_and value 0x80 == 0)

-- Where the audio starts behind the header of an ID3v2 tag.
unfoldable pub id3v2_end : Bytes → ℕ → Option ℕ
id3v2_end h file_size = do
  require (not (ltb (byte h 3) 2 || ltb 4 (byte h 3) || byte_or 0xff h 4 == 0xff))
  require (
      not
        (high_bit (byte h 6) || high_bit (byte h 7) || high_bit (byte h 8) || high_bit (byte h 9)))
  require (leb (10 + tag_payload_bytes h + footer_bytes h + 4) file_size)
  some (10 + tag_payload_bytes h + footer_bytes h)

-- Where the audio starts: behind an ID3v2 tag if there is one.
unfoldable pub audio_start : Bytes → Option ℕ
audio_start bytes = elim (read_exactly bytes (min 3 (length bytes)) 0) [
  | none ↦ some 0
  | some first_three ↦
      if equals first_three (text "ID3")
      then read_exactly bytes 10 0 >>= (λ header. id3v2_end header (length bytes))
      else some 0
]

-- Where the audio ends: before an ID3v1 tag if there is one.
unfoldable pub audio_end : Bytes → ℕ → ℕ
audio_end bytes offset =
    if leb id3v1_bytes (length bytes - offset)
    then elim (read_exactly bytes 3 (length bytes - id3v1_bytes)) [
      | none ↦ length bytes
      | some tag ↦ if equals tag (text "TAG") then length bytes - id3v1_bytes else length bytes
    ]
    else length bytes

-- The body of the loop.
unfoldable pub mpeg_frame : Bytes → ℕ → ℕ → Option ℕ
mpeg_frame bytes end offset = do
  header ← read_exactly bytes 4 offset
  n ← mpeg_audio_frame_length header
  require (not (ltb end (offset + n)))
  some n

unfoldable pub matches_mpeg : File → Bool
matches_mpeg file = opened file.is_file 4 (size file) (elim (audio_start file.bytes) [
  | none ↦ false
  | some offset ↦
      frames_loop (mpeg_frame file.bytes (audio_end file.bytes offset)) max_frames
        (audio_end file.bytes offset) offset
])
