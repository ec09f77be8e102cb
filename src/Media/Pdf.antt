-- ===== src/Media/Pdf.antt =====
-- src/media/media-pdf-structure.ts. Its regular expressions are matchers that eat the text they match
-- and answer the rest: their classes are disjoint from what follows them, so that a greedy match is
-- the only one, and `startxref` cannot start inside a match of it.
use api_whats_app.Base.{
  ℕ, ◌+◌, ◌-◌, ◌*◌, Bool, false, ◌&&◌, ◌||◌, Option, none, some, [], ◌∷◌, ◌==◌, ltb, leb,
  if◌then◌else◌, min, text, map, all, drop, length,
}
use api_whats_app.Media.{Bytes, File, size, starts_with, read_exactly, ◌>>=◌, ◌>>◌, require, passes}
use api_whats_app.Media.Checks.{opened}

-- `\s` in Latin-1.
abbrev is_space : ℕ → Bool
is_space c = (leb 9 c && leb c 13) || c == 32 || c == 160

abbrev is_digit : ℕ → Bool
is_digit c = leb b'0' c && leb c b'9'

-- A literal.
pub eat : Bytes → Bytes → Option Bytes
eat [] rest = some rest
eat (p ∷ ps) [] = none
eat (p ∷ ps) (c ∷ rest) = if c == p then eat ps rest else none

-- As many of a class as there are, and one at least.
pub skip_while : (ℕ → Bool) → Bytes → Bytes
skip_while test [] = []
skip_while test (c ∷ rest) = let more = skip_while test rest in if test c then more else c ∷ rest

pub eat_some : (ℕ → Bool) → Bytes → Option Bytes
unfolding skip_while
eat_some test [] = none
eat_some test (c ∷ rest) = if test c then some (skip_while test rest) else none

-- `Number.parseInt(digits, 10)`
number_from : ℕ → Bytes → ℕ
number_from value [] = value
number_from value (c ∷ rest) =
    let more = number_from (10 * value + (c - 48)) rest in if is_digit c then more else value

-- `/^%PDF-(?:1\.[0-9]|2\.0)(?:\r\n|\r|\n)/`
abbrev is_line_end : Bytes → Bool
is_line_end rest = starts_with (13 ∷ []) rest || starts_with (10 ∷ []) rest

version_ends : Option Bytes → Bool
version_ends none = false
version_ends (some rest) = is_line_end rest

one_digit : Bytes → Option Bytes
one_digit [] = none
one_digit (c ∷ rest) = if is_digit c then some rest else none

has_version : Bytes → Bool
unfolding version_ends one_digit eat
has_version bytes =
    version_ends (eat (text "%PDF-1.") bytes >>= one_digit)
    || version_ends (eat (text "%PDF-2.0") bytes)

-- At the first place where `%PDF-` stands.
pub has_versioned_header : Bytes → Bool
unfolding has_version
has_versioned_header [] = false
has_versioned_header (c ∷ rest) =
    let later = has_versioned_header rest in
    if starts_with (text "%PDF-") (c ∷ rest) then has_version (c ∷ rest) else later

-- `replaceAll("\u0000", " ")`
abbrev no_zeros : Bytes → Bytes
no_zeros = map (λ c. if c == 0 then 32 else c)

abbrev is_pdf_whitespace : Bytes → Bool
is_pdf_whitespace = all (λ c. c == 0 || c == 9 || c == 10 || c == 12 || c == 13 || c == 32)

-- A match of `/startxref\s+([0-9]+)\s+%%EOF/` at the start of a text: the number and the rest.
section_match : Bytes → Option (ℕ × Bytes)
unfolding eat eat_some number_from
section_match bytes = do
  r1 ← eat (text "startxref") bytes
  digits ← eat_some is_space r1
  r2 ← eat_some is_digit digits
  r3 ← eat_some is_space r2
  rest ← eat (text "%%EOF") r3
  some (number_from 0 digits, rest)

-- The loop over the matches: the last one with only white space behind it. `raw` is the text before
-- its zeros are replaced.
pub find_final_section : Bytes → Bytes → Option ℕ
unfolding section_match
find_final_section raw [] = none
find_final_section raw (c ∷ rest) =
    let later = find_final_section (drop 1 raw) rest in
    elim later [
      | some found ↦ some found
      | none ↦ elim (section_match (c ∷ rest)) [
        | none ↦ none
        | some (offset, behind) ↦
            if is_pdf_whitespace (drop (length (c ∷ rest) - length behind) raw)
            then some offset
            else none
      ]
    ]

-- `/^xref\s/`
abbrev is_xref_table : Bytes → Bool
is_xref_table target = elim (eat (text "xref") target) [
  | none ↦ false
  | some [] ↦ false
  | some (c ∷ rest) ↦ is_space c
]

-- `/^[0-9]+\s+[0-9]+\s+obj(?:\s|<)/`
abbrev is_xref_object : Bytes → Bool
is_xref_object target =
    elim (eat_some is_digit target
      >>= eat_some is_space
      >>= eat_some is_digit
      >>= eat_some is_space
      >>= eat (text "obj")) [
        | none ↦ false
        | some [] ↦ false
        | some (c ∷ rest) ↦ is_space c || c == b'<'
      ]

unfoldable pub matches_pdf : File → Bool
unfolding has_versioned_header find_final_section eat eat_some
matches_pdf file = opened file.is_file 20 (size file) (
    passes (do
      prefix ← read_exactly file.bytes (min (size file) 1024) 0
      require (has_versioned_header prefix)
      let tail_length = min (size file) 65536
      tail ← read_exactly file.bytes tail_length (size file - tail_length)
      offset ← find_final_section tail (no_zeros tail)
      require (leb offset 9007199254740991 && ltb offset (size file))
      target ← read_exactly file.bytes (min 128 (size file - offset)) offset
      require (is_xref_table (no_zeros target) || is_xref_object (no_zeros target))))
