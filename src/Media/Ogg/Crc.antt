-- ===== src/Media/Ogg/Crc.antt =====
-- `hasValidOggCrc` and `buildOggCrcTable` of src/media/media-audio-structure.ts. The entry of the
-- table at an index is computed where it is read.
use api_whats_app.Base.{
  ℕ, zero, suc, ◌+◌, ◌*◌, ◌/◌, ◌%◌, bit_xor, Bool, false, ◌&&◌, [], ◌∷◌, ◌==◌, ltb, leb,
  if◌then◌else◌, length,
}
use api_whats_app.Media.{Bytes, u32_le}

-- `(value << 1) >>> 0`
abbrev shifted : ℕ → ℕ
shifted value = value * 2 % 4294967296

-- The rounds of the inner loop.
table_rounds : ℕ → ℕ → ℕ
table_rounds zero value = value
table_rounds (suc rounds) value =
    table_rounds rounds
      (if leb 2147483648 value then bit_xor (shifted value) 0x04c11db7 else shifted value)

crc_table : ℕ → ℕ
unfolding table_rounds
crc_table index = table_rounds 8 (index * 16777216)

-- The loop over the bytes; the four of the checksum count as zero.
pub crc_from : ℕ → ℕ → Bytes → ℕ
unfolding crc_table
crc_from index crc [] = crc
crc_from index crc (value ∷ rest) =
    let byte = if leb 22 index && leb index 25 then 0 else value in
    crc_from (index + 1)
      (bit_xor (crc * 256 % 4294967296) (crc_table (bit_xor (crc / 16777216) byte % 256))) rest

unfoldable pub has_valid_crc : Bytes → Bool
unfolding crc_from
has_valid_crc page = if ltb (length page) 27 then false else crc_from 0 0 page == u32_le page 22
