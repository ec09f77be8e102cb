-- ===== src/Media/Ooxml.antt =====
-- `matchesOoxmlPackageIdentity` of src/media/media-content-signature.ts: the central directory of a
-- ZIP package and its local headers. The decoding of names as UTF-8 is the platform's, a parameter.
pub mod Ending
pub mod Directory
use api_whats_app.Base.{
  ℕ, zero, suc, ◌+◌, ◌-◌, ◌*◌, ◌%◌, Bool, true, false, ◌&&◌, ◌||◌, not, Option, none, some, List,
  [], ◌∷◌, ◌++◌, ◌==◌, ltb, leb, if◌then◌else◌, min, Text, text, text_eq, length, all, any,
}
use api_whats_app.Media.{
  Bytes, File, size, subarray, u16_le, u32_le, read_exactly, ◌>>=◌, ◌>>◌, require, passes,
}
use api_whats_app.Media.Checks.{opened}

-- `ZipEndOfCentralDirectory`
pub record EndRecord : Type 0 where
  pub absolute_offset : ℕ
  pub directory_offset : ℕ
  pub directory_size : ℕ
  pub total_entries : ℕ

abbrev pub zip16_max : ℕ
zip16_max = 65535

abbrev pub zip32_max : ℕ
zip32_max = 4294967295

-- The record whose signature stands at `offset` of the tail.
abbrev pub end_record : Bytes → ℕ → ℕ → Option EndRecord
end_record tail tail_offset offset = do
  require (u16_le tail (offset + 4) == 0 && u16_le tail (offset + 6) == 0)
  require (u16_le tail (offset + 8) == u16_le tail (offset + 10))
  require (
      not (
        u16_le tail (offset + 10) == zip16_max
        || u32_le tail (offset + 12) == zip32_max
        || u32_le tail (offset + 16) == zip32_max))
  some (record {
    absolute_offset = tail_offset + offset;
    directory_offset = u32_le tail (offset + 16);
    directory_size = u32_le tail (offset + 12);
    total_entries = u16_le tail (offset + 10);
  })

abbrev pub is_end_record : Bytes → ℕ → Bool
is_end_record tail offset =
    u32_le tail offset == 0x06054b50 && offset + 22 + u16_le tail (offset + 20) == length tail

-- The loop from the back: `rounds` is one more than the offset that is looked at.
unfoldable pub end_record_below : Bytes → ℕ → ℕ → Option EndRecord
end_record_below tail tail_offset zero = none
end_record_below tail tail_offset (suc offset) = elim (is_end_record tail offset) [
  | true ↦ end_record tail tail_offset offset
  | false ↦ end_record_below tail tail_offset offset
]

-- `ZipCentralEntry`
pub record Entry : Type 0 where
  pub name : Text
  pub local_header_offset : ℕ

abbrev pub Entries : Type 0
Entries = List Entry

-- `entries.get(name)` and `entries.has(name)`
abbrev pub get : Text → Entries → Option Entry
get name [] = none
get name (entry ∷ rest) = if text_eq entry.name name then some entry else get name rest

abbrev pub has : Text → Entries → Bool
has name entries = passes (get name entries)

abbrev pub content_types_entry : Text
content_types_entry = text "[Content_Types].xml"

-- The families of `OOXML_REQUIRED_ENTRY_BY_MIME`.
pub data Family : Type 0 where
  word spreadsheet presentation : Family

abbrev pub family_entry : Family → Text
family_entry word = text "word/document.xml"
family_entry spreadsheet = text "xl/workbook.xml"
family_entry presentation = text "ppt/presentation.xml"

abbrev pub family_entries : List Text
family_entries = family_entry word ∷ family_entry spreadsheet ∷ family_entry presentation ∷ []

abbrev pub record_length : Bytes → ℕ → ℕ
record_length directory offset =
    46
    + u16_le directory (offset + 28)
    + u16_le directory (offset + 30)
    + u16_le directory (offset + 32)

-- `(flags & 0x0001) !== 0`
abbrev is_encrypted : ℕ → Bool
is_encrypted flags = not (flags % 2 == 0)

abbrev pub has_zero : Bytes → Bool
has_zero = any (λ value. value == 0)

-- The checks on the record at `offset` that do not look at its name.
abbrev pub is_record : Bytes → ℕ → Bool
is_record directory offset = not (
    is_encrypted (u16_le directory (offset + 8))
    || (u32_le directory (offset + 20) == zip32_max
        || (u32_le directory (offset + 24) == zip32_max
            || (u32_le directory (offset + 42) == zip32_max
                || (not (u16_le directory (offset + 34) == 0)
                    || (u16_le directory (offset + 28) == 0
                        || ltb (length directory) (offset + record_length directory offset)))))))

module _ (utf8 : Bytes → Text) where
  -- One round of the loop: the entry at `offset`, which no entry before it has the name of.
  unfoldable pub entry_at : Bytes → ℕ → Entries → Option Entry
  entry_at directory offset entries = do
    require (not (ltb (length directory) (offset + 46)))
    require (u32_le directory offset == 0x02014b50)
    require (is_record directory offset)
    let name_bytes = subarray directory (offset + 46) (offset + 46 + u16_le directory (offset + 28))
    require (not (has_zero name_bytes))
    require (not (has (utf8 name_bytes) entries))
    some (record { name = utf8 name_bytes; local_header_offset = u32_le directory (offset + 42) })

  unfoldable pub directory_loop : Bytes → ℕ → ℕ → Entries → Option Entries
  directory_loop directory zero offset entries = do
    require (offset == length directory)
    some entries
  directory_loop directory (suc more) offset entries =
      entry_at directory offset entries >>= λ entry.
      directory_loop directory more (offset + record_length directory offset)
        (entries ++ entry ∷ [])

  unfoldable pub parse_central_directory : Bytes → ℕ → Option Entries
  parse_central_directory directory expected = directory_loop directory expected 0 []

  unfoldable pub matches_local_header : Bytes → Entry → ℕ → Bool
  matches_local_header bytes entry directory_offset = passes (do
    let at = entry.local_header_offset
    require (not (ltb directory_offset (at + 30)))
    fixed ← read_exactly bytes 30 at
    require (u32_le fixed 0 == 0x04034b50)
    let name_length = u16_le fixed 26
    require (
        not (
          is_encrypted (u16_le fixed 6)
          || (name_length == 0 || ltb directory_offset (at + 30 + name_length + u16_le fixed 28))))
    name_bytes ← read_exactly bytes name_length (at + 30)
    require (not (has_zero name_bytes))
    require (text_eq (utf8 name_bytes) entry.name))

  abbrev pub end_is_plausible : EndRecord → Bool
  end_is_plausible eocd =
      leb 1 eocd.total_entries
      && leb eocd.total_entries 10000
      && leb 1 eocd.directory_size
      && leb eocd.directory_size 4194304
      && eocd.directory_offset + eocd.directory_size == eocd.absolute_offset

  -- No entry of another family.
  abbrev pub alone : Family → Entries → Bool
  alone family entries =
      all (λ name. text_eq name (family_entry family) || not (has name entries)) family_entries

  unfoldable pub check_entries : Bytes → ℕ → Family → Entries → Bool
  check_entries bytes directory_offset family entries = passes (do
    content_types ← get content_types_entry entries
    expected_family ← get (family_entry family) entries
    require (alone family entries)
    require (matches_local_header bytes content_types directory_offset)
    require (matches_local_header bytes expected_family directory_offset))

  unfoldable pub check_package : Bytes → Family → Option Entries
  check_package bytes family = do
    let tail_length = min (length bytes) 65557
    tail ← read_exactly bytes tail_length (length bytes - tail_length)
    eocd ← end_record_below tail (length bytes - tail_length) (tail_length - 21)
    require (end_is_plausible eocd)
    directory ← read_exactly bytes eocd.directory_size eocd.directory_offset
    entries ← parse_central_directory directory eocd.total_entries
    require (check_entries bytes eocd.directory_offset family entries)
    some entries

  unfoldable pub matches_ooxml : Family → File → Bool
  unfolding check_package
  matches_ooxml family file =
      opened file.is_file 22 (size file) (passes (check_package file.bytes family))
