-- ===== src/Media/IsoBmff/Headers.antt =====
-- The header of a box that `parseBoxHeader` accepts (src/media/media-isobmff-structure.ts).
use api_whats_app.Base.{
  ◌+◌, sym, zero, suc, List, [], ◌∷◌, ◌/◌, ◌%◌, ap, ◌∙◌, ℕ, ◌-◌, ◌≤◌, ◌≡◌, refl, ◌⊎◌, inl, inr,
  true, ◌&&◌, not, some, arith, ◌==◌, ltb, leb, length, take, drop, Bool-cases,
}
use mathlib.Core.Path.{subst}
use mathlib.Core.Option.{some-injective}
use api_whats_app.Media.{Bytes, size, subarray, u32_be, require}
use api_whats_app.Media.Checks.{>>=-eq-some, require->>-eq-some}
use api_whats_app.Media.IsoBmff.{
  BoxHeader, is_printable_four_cc, size64, parse_box_header, brands_from, parse_file_type_box,
}

-- The bytes at `offset` that the header of a box is read from.
abbrev pub head_at : Bytes → ℕ → Bytes
head_at bytes offset = take 16 (drop offset bytes)

-- The size that the header of a box declares, and the bytes that the header takes: eight where the
-- size has 32 bits or stands for "to the end of the file", sixteen where it has 64.
abbrev pub IsDeclared : Bytes → ℕ → ℕ → ℕ → Type 0
IsDeclared head available size header_bytes =
    ((header_bytes ≡ 8) × (u32_be head 0 ≡ size))
    ⊎ ((header_bytes ≡ 16) × (u32_be head 0 ≡ 1) × (size64 head 0 ≡ size))
    ⊎ ((header_bytes ≡ 8) × (u32_be head 0 ≡ 0) × (available ≡ size))

-- The box of a header stands at `offset`, inside the file.
pub record BoxAt (bytes : Bytes) (offset : ℕ) (header : BoxHeader) : Type 0 where
  pub kind : header.kind ≡ subarray (head_at bytes offset) 4 8
  pub printable : is_printable_four_cc header.kind ≡ true
  pub long : 8 ≤ header.size
  pub inside : header.size ≤ length bytes - offset
  pub declared :
      IsDeclared (head_at bytes offset) (length bytes - offset) header.size header.header_bytes

pub parse_box_header-BoxAt :
    (bytes : Bytes) (offset : ℕ) {header : BoxHeader}
    → parse_box_header (head_at bytes offset) 0 (length bytes - offset) true ≡ some header
    → BoxAt bytes offset header
unfolding parse_box_header
parse_box_header-BoxAt bytes offset {header} h =
    let head = head_at bytes offset in
    let available = length bytes - offset in
    let (_, h1) = require->>-eq-some (not (ltb (length head) 8)) _ h in
    let (printable, h2) = require->>-eq-some (is_printable_four_cc (subarray head 4 8)) _ h1 in
    elim (Bool-cases (u32_be head 0 == 0)) [
      | inl to_end ↦
          let (room, e) = require->>-eq-some (true && leb 8 available) _ (rw to_end at h2) in
          let same = some-injective _ _ e in
          subst (BoxAt bytes offset) same (record {
            kind = refl;
            printable = printable;
            long = ground (arith, room);
            inside = omega arith;
            declared = inr (inr (refl, ground (arith, to_end), refl));
          })
      | inr sized ↦ elim (Bool-cases (u32_be head 0 == 1)) [
        | inl extended ↦
            let (room, e) =
              require->>-eq-some
                (not (ltb (length head) 16)
                  && leb (size64 head 0) 9007199254740991
                  && (leb 16 (size64 head 0) && leb (size64 head 0) available))
                _ (rw (sized, extended) at h2) in
            subst (BoxAt bytes offset) (some-injective _ _ e) (record {
              kind = refl;
              printable = printable;
              long = ground (arith, room);
              inside = ground (arith, room);
              declared = inr (inl (refl, ground (arith, extended), refl));
            })
        | inr plain ↦
            let (room, e) =
              require->>-eq-some (leb 8 (u32_be head 0) && leb (u32_be head 0) available) _
                (rw (sized, plain) at h2) in
            subst (BoxAt bytes offset) (some-injective _ _ e) (record {
              kind = refl;
              printable = printable;
              long = ground (arith, room);
              inside = ground (arith, room);
              declared = inl (refl, refl);
            })
      ]
    ]

abbrev fours : Bytes → ℕ → List Bytes
fours bytes zero = []
fours bytes (suc n) = take 4 bytes ∷ fours (drop 4 bytes) n

-- The brands of a file type box: the major brand right behind its header, and behind the four bytes of
-- a version each four bytes up to the end of the box.
abbrev pub IsBrands : Bytes → ℕ → List Bytes → Type 0
IsBrands box header_bytes brands =
    brands
    ≡ subarray box header_bytes (header_bytes + 4)
      ∷ fours (drop (header_bytes + 8) box) ((length box - header_bytes - 8) / 4)

brands_from-fours :
    (bytes : Bytes) (n : ℕ) {brands : List Bytes}
    → brands_from bytes n ≡ some brands
    → brands ≡ fours bytes n
unfolding brands_from
brands_from-fours bytes zero h = sym (some-injective _ _ h)
brands_from-fours bytes (suc n) h =
    let (_, _, h1) = >>=-eq-some (require (is_printable_four_cc (take 4 bytes))) _ h in
    let (rest, read, e) = >>=-eq-some (brands_from (drop 4 bytes) n) _ h1 in
    sym (some-injective _ _ e)
    ∙ ap (λ r. take 4 bytes ∷ r) (brands_from-fours (drop 4 bytes) n read)

pub parse_file_type_box-IsBrands :
    (box : Bytes) (header_bytes : ℕ) {brands : List Bytes}
    → parse_file_type_box box header_bytes ≡ some brands
    → IsBrands box header_bytes brands
unfolding parse_file_type_box
parse_file_type_box-IsBrands box header_bytes h =
    let payload = length box - header_bytes in
    let major = subarray box header_bytes (header_bytes + 4) in
    let (_, h1) = require->>-eq-some (leb 8 payload && (payload - 8) % 4 == 0) _ h in
    let (_, h2) = require->>-eq-some (is_printable_four_cc major) _ h1 in
    let (compatible, read, e) =
      >>=-eq-some (brands_from (drop (header_bytes + 8) box) ((payload - 8) / 4)) _ h2 in
    sym (some-injective _ _ e)
    ∙ ap (λ r. major ∷ r) (brands_from-fours (drop (header_bytes + 8) box) _ read)
