-- ===== src/Media/IsoBmff/Boxes.antt =====
-- The order of the boxes of a file that `matchesIsoBmffStructure` accepts
-- (src/media/media-isobmff-structure.ts).
use api_whats_app.Base.{
  ℕ, zero, suc, ◌+◌, ◌-◌, ◌≤◌, ◌≡◌, refl, sym, ap, ◌∙◌, inl, inr, Bool, true, false, ◌||◌, Option,
  none, some, List, [], ◌∷◌, arith, ltb, leb, Text, text, length, take, drop, min, any, length-drop,
  Bool-cases, Option-cases,
}
use mathlib.Core.Path.{subst}
use mathlib.Core.Option.{some-injective}
use api_whats_app.Media.{Bytes, File, size, equals, read_exactly, require, ◌>>=◌}
use api_whats_app.Media.Checks.{>>=-eq-some, opened-eq_true}
use api_whats_app.Media.Walk.{walk, Cursor}
use api_whats_app.Media.Local.{take-min, read_exactly-take}
use api_whats_app.Media.IsoBmff.{
  MimeType, BoxHeader, Found, max_file_type_box_bytes, max_top_level_boxes, is_leading,
  parse_box_header, matches_mime_family, file_type_step, box_at, nothing_found, all_found,
  matches_iso_bmff,
}
use api_whats_app.Media.IsoBmff.Headers.{
  BoxAt, IsBrands, parse_file_type_box-IsBrands, head_at, parse_box_header-BoxAt,
}

-- A brand of the box is of a family that the content type admits, and the box is small.
abbrev pub IsFileType : MimeType → Bytes → ℕ → BoxHeader → Type 0
IsFileType mime_type bytes offset header =
    (brands : List Bytes) × IsBrands (take header.size (drop offset bytes)) header.header_bytes
      brands
    × (matches_mime_family brands mime_type ≡ true)
    × (header.size ≤ max_file_type_box_bytes)

abbrev pub is_kind : Text → BoxHeader → Bool
is_kind kind header = equals header.kind kind

-- The boxes from an offset to the end of the file, each behind the one before it: leading boxes, then
-- one file type box, then boxes of other kinds. The first index tells whether the file type box is
-- behind.
pub data Boxes (mime_type : MimeType) (bytes : Bytes) : Bool → ℕ → List BoxHeader → Type 0 where
  ended : Boxes mime_type bytes true (length bytes) []
  leading :
      {offset : ℕ} {header : BoxHeader} {rest : List BoxHeader}
      → BoxAt bytes offset header
      → is_leading header.kind ≡ true
      → is_kind (text "ftyp") header ≡ false
      → Boxes mime_type bytes false (offset + header.size) rest
      → Boxes mime_type bytes false offset (header ∷ rest)
  file_type_box :
      {offset : ℕ} {header : BoxHeader} {rest : List BoxHeader}
      → BoxAt bytes offset header
      → is_kind (text "ftyp") header ≡ true
      → IsFileType mime_type bytes offset header
      → Boxes mime_type bytes true (offset + header.size) rest
      → Boxes mime_type bytes false offset (header ∷ rest)
  later :
      {offset : ℕ} {header : BoxHeader} {rest : List BoxHeader}
      → BoxAt bytes offset header
      → is_kind (text "ftyp") header ≡ false
      → Boxes mime_type bytes true (offset + header.size) rest
      → Boxes mime_type bytes true offset (header ∷ rest)

module _ (mime_type : MimeType) (bytes : Bytes) where
  record Stepped (offset unit : ℕ) (found found' : Found) : Type 0 where
    header : BoxHeader
    at : BoxAt bytes offset header
    sized : unit ≡ header.size
    movie : found'.movie ≡ (found.movie || is_kind (text "moov") header)
    media_data : found'.media_data ≡ (found.media_data || is_kind (text "mdat") header)
    step : file_type_step bytes mime_type offset header found.file_type ≡ some found'.file_type

  box_at-Stepped :
      (offset unit : ℕ) (found found' : Found)
      → box_at mime_type bytes offset found ≡ some (unit, found')
      → Stepped offset unit found found'
  unfolding box_at
  box_at-Stepped offset unit found found' h =
      let (fixed, read, h1) =
        >>=-eq-some (read_exactly bytes (min 16 (length bytes - offset)) offset) _ h in
      let (header, parsed, h2) =
        >>=-eq-some (parse_box_header fixed 0 (length bytes - offset) true) _ h1 in
      let (file_type, step, h3) =
        >>=-eq-some (file_type_step bytes mime_type offset header found.file_type) _ h2 in
      let e = some-injective _ _ h3 in
      let here : fixed ≡ head_at bytes offset =
        read_exactly-take bytes (min 16 (length bytes - offset)) offset read
        ∙ ap (λ n. take (min 16 n) (drop offset bytes)) (sym (length-drop offset bytes))
        ∙ take-min 16 (drop offset bytes) in
      record {
        header = header;
        at = parse_box_header-BoxAt bytes offset (rw here at parsed);
        sized = sym (ap (λ r. r.0) e);
        movie = sym (ap (λ r. Found.movie r.1) e);
        media_data = sym (ap (λ r. Found.media_data r.1) e);
        step = step ∙ ap (λ r. some (Found.file_type r.1)) e;
      }

  -- One box before the boxes behind it.
  cons-Boxes :
      (offset : ℕ) (header : BoxHeader) (before after : Bool) {rest : List BoxHeader}
      → BoxAt bytes offset header
      → file_type_step bytes mime_type offset header before ≡ some after
      → Boxes mime_type bytes after (offset + header.size) rest
      → Boxes mime_type bytes before offset (header ∷ rest)
  unfolding file_type_step
  cons-Boxes offset header true after {rest} at h boxes =
      elim (Bool-cases (is_kind (text "ftyp") header)) [
        | inl same ↦ absurd (cc (rw same at h))
        | inr other ↦ later at other (
            subst (λ b. Boxes mime_type bytes b (offset + header.size) rest)
              (sym (some-injective _ _ (rw other at h))) boxes)
      ]
  cons-Boxes offset header false after {rest} at h boxes =
      let move = λ (b : Bool) (e : ◌≡◌ {A = Option Bool} (some b) (some after)).
        subst (λ b. Boxes mime_type bytes b (offset + header.size) rest)
          (sym (some-injective _ _ e)) boxes in
      elim (Bool-cases (is_kind (text "ftyp") header)) [
        | inl same ↦
            let h0 = rw same at h in
            let (brands, h1, h2) = >>=-eq-some _ _ h0 in
            let (box, h3, parsed) = >>=-eq-some _ _ h1 in
            let (_, small, read) =
              >>=-eq-some (require (leb header.size max_file_type_box_bytes)) _ h3 in
            let (family, e) = require-eq (matches_mime_family brands mime_type) h2 in
            file_type_box at same
              (
                brands,
                parse_file_type_box-IsBrands (take header.size (drop offset bytes))
                    header.header_bytes
                    (rw (read_exactly-take bytes header.size offset read) at parsed),
                family,
                ground (arith, small),
              )
              (move true e)
        | inr other ↦ elim (Bool-cases (is_leading header.kind)) [
          | inl first ↦ leading at first other (move false (rw (other, first) at h))
          | inr refused ↦ absurd (cc (rw (other, refused) at h))
        ]
      ]
    where
      require-eq :
          (test : Bool)
          → (require test >>= λ _. some true) ≡ some after
          → (test ≡ true) × (◌≡◌ {A = Option Bool} (some true) (some after))
      require-eq true h = (refl, h)
      require-eq false h = absurd (cc)

  abbrev has : Text → List BoxHeader → Bool
  has kind = any (is_kind kind)

  -- What a walk to the end has passed, from a state on.
  record Passed (offset count : ℕ) (found : Found) (c : Cursor Found) : Type 0 where
    headers : List BoxHeader
    boxes : Boxes mime_type bytes found.file_type offset headers
    movie : c.state.movie ≡ (found.movie || has (text "moov") headers)
    media_data : c.state.media_data ≡ (found.media_data || has (text "mdat") headers)
    counted : c.count ≡ count + length headers

  or_false : (a : Bool) → a ≡ (a || false)
  or_false true = refl
  or_false false = refl

  or_assoc : (a b c : Bool) → ((a || b) || c) ≡ (a || (b || c))
  or_assoc true b c = refl
  or_assoc false b c = refl

  -- The walk has come to the end, behind the file type box.
  abbrev IsAtEnd : Cursor Found → Type 0
  IsAtEnd c = (c.offset ≡ length bytes) × (c.state.file_type ≡ true)

  stopped-Passed :
      (offset count : ℕ) (found : Found) {c : Cursor Found}
      → ◌≡◌ {A = Option (Cursor Found)}
          (some (record { offset = offset; count = count; state = found }))
          (some c)
      → IsAtEnd c
      → Passed offset count found c
  stopped-Passed offset count found h =
      subst (λ c. IsAtEnd c → Passed offset count found c) (some-injective _ _ h)
        (λ (at_end, behind). record {
          headers = [];
          boxes =
              subst (λ b. Boxes mime_type bytes b offset []) (sym behind)
                (subst (λ n. Boxes mime_type bytes true n []) (sym at_end) ended);
          movie = or_false found.movie;
          media_data = or_false found.media_data;
          counted = omega arith;
        })

  cons-Passed :
      (offset count unit : ℕ) (found found' : Found) {c : Cursor Found}
      → Stepped offset unit found found'
      → Passed (offset + unit) (count + 1) found' c
      → Passed offset count found c
  cons-Passed offset count unit found found' step p = record {
    headers = step.header ∷ p.headers;
    boxes = cons-Boxes offset step.header found.file_type found'.file_type step.at step.step (
        subst (λ n. Boxes mime_type bytes found'.file_type (offset + n) p.headers) step.sized
          p.boxes);
    movie =
        p.movie
        ∙ ap (λ b. b || has (text "moov") p.headers) step.movie
        ∙ or_assoc found.movie (is_kind (text "moov") step.header) (has (text "moov") p.headers);
    media_data =
        p.media_data
        ∙ ap (λ b. b || has (text "mdat") p.headers) step.media_data
        ∙ or_assoc found.media_data (is_kind (text "mdat") step.header)
            (has (text "mdat") p.headers);
    counted = omega (arith, p.counted);
  }

  walk-Passed :
      (rounds offset count : ℕ) (found : Found) {c : Cursor Found}
      → walk (box_at mime_type bytes) (length bytes) rounds offset count found ≡ some c
      → IsAtEnd c
      → Passed offset count found c
  unfolding walk
  walk-Passed zero offset count found h e = stopped-Passed offset count found h e
  walk-Passed (suc rounds) offset count found h e = elim (Bool-cases (ltb offset (length bytes))) [
    | inr past ↦ stopped-Passed offset count found (rw (past, walk) at h) e
    | inl inside ↦ elim (Option-cases (box_at mime_type bytes offset found)) [
      | inl refused ↦ absurd (cc (rw (inside, refused, walk) at h))
      | inr ((unit, found'), read) ↦
          cons-Passed offset count unit found found' (box_at-Stepped offset unit found found' read)
            (walk-Passed rounds (offset + unit) (count + 1) found' (rw (inside, read, walk) at h) e)
    ]
  ]

all_found-eq :
    (stop : ℕ) (w : Option (Cursor Found))
    → all_found stop w ≡ true
    → (c : Cursor Found) × (w ≡ some c)
      × (c.offset ≡ stop)
      × (c.count ≤ max_top_level_boxes)
      × (c.state.file_type ≡ true)
      × (c.state.movie ≡ true)
      × (c.state.media_data ≡ true)
unfolding all_found
all_found-eq stop none h = absurd (cc)
all_found-eq stop (some c) h =
    (c, refl, ground arith, ground arith, ground arith, ground arith, ground arith)

-- A video or audio file is accepted only if boxes fill it from the first byte to the last, at most
-- 4096: leading boxes, exactly one file type box, of at most 4096 bytes and with a brand of the content
-- type, then boxes of other kinds, a movie box and a media data box among all of them.
pub matches_iso_bmff-Boxes :
    (mime_type : MimeType) (file : File)
    → matches_iso_bmff mime_type file ≡ true
    → (headers : List BoxHeader) × Boxes mime_type file.bytes false 0 headers
      × (any (is_kind (text "moov")) headers ≡ true)
      × (any (is_kind (text "mdat")) headers ≡ true)
      × (length headers ≤ max_top_level_boxes)
unfolding matches_iso_bmff
matches_iso_bmff-Boxes mime_type file h =
    let (_, _, body) = opened-eq_true file.is_file 24 (size file) _ h in
    let (c, walked, at_end, few, behind, movie, media_data) =
      all_found-eq (size file)
        (walk (box_at mime_type file.bytes) (size file) max_top_level_boxes 0 0 nothing_found)
        body in
    let p =
      walk-Passed mime_type file.bytes max_top_level_boxes 0 0 nothing_found walked
        (at_end, behind) in
    (
      p.headers,
      p.boxes,
      sym p.movie ∙ movie,
      sym p.media_data ∙ media_data,
      omega (arith, p.counted),
    )
