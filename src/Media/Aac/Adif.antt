-- ===== src/Media/Aac/Adif.antt =====
-- The ADIF header: class `BitReader`, `matchesAdifStructure` and `parseProgramConfigElement` of
-- src/media/media-audio-structure.ts. A reader is a function of its bit offset.
use api_whats_app.Base.{
  ℕ, zero, suc, ◌+◌, ◌-◌, ◌*◌, ◌/◌, ◌%◌, ◌^◌, Bool, true, false, ◌||◌, not, Option, none, some,
  ◌==◌, ltb, leb, if◌then◌else◌, min, text, length,
}
use api_whats_app.Media.{Bytes, byte, equals, read_exactly, passes}
use api_whats_app.Media as Media

-- The value read and the bit offset after it.
abbrev pub Reader : Type 0 → Type 0
Reader A = ℕ → Option (A × ℕ)

abbrev pub ◌>>=◌ : {A B : Type 0} → Reader A → (A → Reader B) → Reader B
◌>>=◌ reader rest offset = elim (reader offset) [
  | none ↦ none
  | some (found, offset') ↦ rest found offset'
]

abbrev pub ◌>>◌ : {A B : Type 0} → Reader A → Reader B → Reader B
first >> rest = first >>= λ _. rest

infixl 5 ◌>>=◌ ◌>>◌
abbrev pub done : {A : Type 0} → A → Reader A
done found offset = some (found, offset)

abbrev pub require : Bool → Reader (Unit {0})
require false offset = none
require true offset = some (tt, offset)

-- `(byte >> (7 - (absolute % 8))) & 1`
pub bit_at : Bytes → ℕ → ℕ
bit_at bytes absolute = byte bytes (absolute / 8) / 2 ^ (7 - absolute % 8) % 2

-- `for (index...) value = value * 2 + bit`
pub value_of : Bytes → ℕ → ℕ → ℕ → ℕ
unfolding bit_at
value_of bytes zero absolute value = value
value_of bytes (suc more) absolute value =
    value_of bytes more (absolute + 1) (value * 2 + bit_at bytes absolute)

pub skip : Bytes → ℕ → Reader (Unit {0})
skip bytes n offset = if ltb (8 * length bytes) (offset + n) then none else some (tt, offset + n)

-- More than 32 bits are skipped and read as 0.
pub read : Bytes → ℕ → Reader ℕ
unfolding value_of skip
read bytes n offset =
    if ltb 32 n
    then elim (skip bytes n offset) [ none ↦ none | some (_, offset') ↦ some (0, offset') ]
    else if ltb (8 * length bytes) (offset + n)
    then none
    else some (value_of bytes n offset 0, offset + n)

pub align_to_byte : Reader (Unit {0})
align_to_byte offset = some (tt, if offset % 8 == 0 then offset else offset + (8 - offset % 8))

-- `Math.ceil(this.bitOffset / 8)`
abbrev byte_offset : ℕ → ℕ
byte_offset offset = (offset + 7) / 8

-- A loop that reads the same fields each time.
pub times : ℕ → Reader (Unit {0}) → Reader (Unit {0})
times zero fields = done tt
times (suc more) fields = do fields; times more fields

-- `if (reader.read(1) === 1 && reader.read(n) === null) return false`
abbrev when_set : Bytes → ℕ → Reader (Unit {0})
when_set bytes n = do
  present ← read bytes 1
  if present == 1 then (do read bytes n; done tt) else done tt

-- `reader.read(1) === null || reader.read(4) === null`
abbrev element : Bytes → Reader (Unit {0})
element bytes = do read bytes 1; read bytes 4; done tt

abbrev tag : Bytes → Reader (Unit {0})
tag bytes = do read bytes 4; done tt

pub parse_program_config_element : Bytes → Reader (Unit {0})
unfolding read skip align_to_byte times
parse_program_config_element bytes = do
  read bytes 4
  read bytes 2
  sampling_frequency_index ← read bytes 4
  front ← read bytes 4
  side ← read bytes 4
  back ← read bytes 4
  lfe ← read bytes 2
  assoc ← read bytes 3
  valid_cc ← read bytes 4
  require (not (leb 13 sampling_frequency_index || front + side + back + lfe == 0))
  when_set bytes 4
  when_set bytes 4
  when_set bytes 3
  times front (element bytes)
  times side (element bytes)
  times back (element bytes)
  times lfe (tag bytes)
  times assoc (tag bytes)
  times valid_cc (element bytes)
  align_to_byte
  comment_bytes ← read bytes 8
  skip bytes (comment_bytes * 8)

-- One round of the loop over the program config elements.
abbrev program_config : Bytes → ℕ → Reader (Unit {0})
program_config bytes bitstream_type = do
  if bitstream_type == 0 then (do read bytes 20; done tt) else done tt
  parse_program_config_element bytes

pub parse_adif : Bytes → Reader (Unit {0})
unfolding parse_program_config_element
parse_adif bytes = do
  copyright_present ← read bytes 1
  if copyright_present == 1 then (do read bytes 72; done tt) else done tt
  read bytes 1
  read bytes 1
  bitstream_type ← read bytes 1
  read bytes 23
  num_program_config_elements ← read bytes 4
  times (num_program_config_elements + 1) (program_config bytes bitstream_type)

pub matches_adif : Bytes → Bool
unfolding parse_adif
matches_adif bytes = elim (read_exactly bytes (min (length bytes) 65536) 0) [
  | none ↦ false
  | some prefix ↦
      if equals (Media.subarray prefix 0 4) (text "ADIF")
      then elim (parse_adif prefix 32) [
        | none ↦ false
        | some (_, offset) ↦ ltb (byte_offset offset) (length bytes)
      ]
      else false
]
