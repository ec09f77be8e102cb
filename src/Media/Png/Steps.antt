-- ===== src/Media/Png/Steps.antt =====
-- What one round of the loop of `matchesPngStructure` does (src/media/media-image-structure.ts).
use api_whats_app.Base.{
  ℕ, ◌+◌, ◌≤◌, ◌≡◌, refl, sym, ap, ◌∙◌, ◌⊎◌, inl, inr, Bool, true, false, ◌&&◌, ◌||◌, not, Option,
  none, some, arith, ◌==◌, ltb, text, length, take, drop, Bool-cases, if◌then◌else◌,
}
use mathlib.Core.Path.{subst}
use mathlib.Core.Option.{some-injective}
use api_whats_app.Media.{Bytes, equals, subarray, u32_be, read_exactly, require, ◌>>=◌}
use api_whats_app.Media.Checks.{>>=-eq-some, require->>-eq-some}
use api_whats_app.Media.Local.{read_exactly-take}
use api_whats_app.Media.Png.{
  PngState, Progress, stop, go, is_chunk_type, is_unknown_critical, validate_chunk_crc, after_ihdr,
  after_plte, after_idat, palette_refused, validate_ihdr, is_color, png_chunk,
}

-- The eight bytes at `offset` that the length and the kind of a chunk are read from.
abbrev pub head_at : Bytes → ℕ → Bytes
head_at bytes offset = take 8 (drop offset bytes)

-- The chunk at `offset`: its length and kind are those that its first eight bytes give, the kind is
-- known or ancillary, and the checksum is right.
pub record ChunkAt (bytes : Bytes) (offset : ℕ) (kind : Bytes) (n : ℕ) : Type 0 where
  pub sized : n ≡ u32_be (head_at bytes offset) 0
  pub named : kind ≡ subarray (head_at bytes offset) 4 8
  pub typed : is_chunk_type kind ≡ true
  pub known : is_unknown_critical kind ≡ false
  pub inside : offset + 8 + n + 4 ≤ length bytes
  pub checked : validate_chunk_crc bytes kind (offset + 8) n (offset + 8 + n) ≡ true

pub record Step (bytes : Bytes) (offset count : ℕ) (s : PngState) (progress : Progress)
    : Type 0 where
  pub kind : Bytes
  pub n : ℕ
  pub chunk : ChunkAt bytes offset kind n
  pub first : (count == 0 && not (equals kind (text "IHDR"))) ≡ false
  pub s1 : PngState
  pub s2 : PngState
  pub s3 : PngState
  pub ihdr : after_ihdr bytes kind (offset + 8) n s ≡ some s1
  pub plte : after_plte kind n s1 ≡ some s2
  pub idat : after_idat kind s2 ≡ some s3
  pub outcome :
      (if equals kind (text "IEND")
        then stop (n == 0 && (s3.seen_idat && offset + 8 + n + 4 == length bytes))
        else go (offset + 8 + n + 4) s3)
      ≡ progress

pub png_chunk-Step :
    (bytes : Bytes) (offset count : ℕ) (s : PngState) {progress : Progress}
    → png_chunk bytes offset count s ≡ some progress
    → Step bytes offset count s progress
unfolding png_chunk
png_chunk-Step bytes offset count s h =
    let (header, read, h1) = >>=-eq-some (read_exactly bytes 8 offset) _ h in
    let here = read_exactly-take bytes 8 offset read in
    let n = u32_be header 0 in
    let kind = subarray header 4 8 in
    let (typed, h2) = require->>-eq-some (is_chunk_type kind) _ h1 in
    let (room, h3) = require->>-eq-some (not (ltb (length bytes) (offset + 8 + n + 4))) _ h2 in
    let (first, h4) =
      require->>-eq-some (not (count == 0 && not (equals kind (text "IHDR")))) _ h3 in
    let (known, h5) = require->>-eq-some (not (is_unknown_critical kind)) _ h4 in
    let (s1, ihdr, h6) = >>=-eq-some (after_ihdr bytes kind (offset + 8) n s) _ h5 in
    let (s2, plte, h7) = >>=-eq-some (after_plte kind n s1) _ h6 in
    let (s3, idat, h8) = >>=-eq-some (after_idat kind s2) _ h7 in
    let (checked, h9) =
      require->>-eq-some (validate_chunk_crc bytes kind (offset + 8) n (offset + 8 + n)) _ h8 in
    record {
      kind = kind;
      n = n;
      chunk = record {
        sized = ap (λ head. u32_be head 0) here;
        named = ap (λ head. subarray head 4 8) here;
        typed = typed;
        known = not-eq_true _ known;
        inside = room-le (length bytes) (offset + 8 + n + 4) room;
        checked = checked;
      };
      first = not-eq_true _ first;
      s1 = s1;
      s2 = s2;
      s3 = s3;
      ihdr = ihdr;
      plte = plte;
      idat = idat;
      outcome = some-injective _ _ h9;
    }
  where
    not-eq_true : (b : Bool) → not b ≡ true → b ≡ false
    not-eq_true true h = sym h
    not-eq_true false h = refl

    room-le : (a b : ℕ) → not (ltb a b) ≡ true → b ≤ a
    room-le a b h = ground arith

-- What the checks on one chunk leave of the state, as far as the order goes.
abbrev pub Keeps : PngState → PngState → Type 0
Keeps s s' =
    (s'.seen_ihdr ≡ s.seen_ihdr) × (s'.seen_idat ≡ s.seen_idat) × (s'.idat_closed ≡ s.idat_closed)

pub after_plte-Keeps :
    (kind : Bytes) (n : ℕ) (s : PngState) {s' : PngState}
    → after_plte kind n s ≡ some s'
    → Keeps s s'
unfolding after_plte
after_plte-Keeps kind n s h = elim (Bool-cases (equals kind (text "PLTE"))) [
  | inl same ↦
      let (_, _, e) = >>=-eq-some (require (not (palette_refused n s))) _ (rw same at h) in
      subst (Keeps s) (some-injective _ _ e) (refl, refl, refl)
  | inr other ↦ subst (Keeps s) (some-injective _ _ (rw other at h)) (refl, refl, refl)
]

pub after_ihdr-later :
    (bytes kind : Bytes) (at n : ℕ) (s : PngState) {s' : PngState}
    → s.seen_ihdr ≡ true
    → after_ihdr bytes kind at n s ≡ some s'
    → (equals kind (text "IHDR") ≡ false) × (s' ≡ s)
unfolding after_ihdr
after_ihdr-later bytes kind at n s {s'} seen h = elim (Bool-cases (equals kind (text "IHDR"))) [
  | inl same ↦ absurd (cc (rw (same, seen) at h))
  | inr other ↦ (other, seen-eq s.seen_ihdr seen (rw other at h))
]
  where
    seen-eq :
        (b : Bool)
        → b ≡ true
        → ◌≡◌ {A = Option PngState} (if b then some s else none) (some s')
        → s' ≡ s
    seen-eq true e h = sym (some-injective _ _ h)
    seen-eq false e h = absurd (cc)

pub after_ihdr-first :
    (bytes kind : Bytes) (at n : ℕ) (s : PngState) {s' : PngState}
    → equals kind (text "IHDR") ≡ true
    → after_ihdr bytes kind at n s ≡ some s'
    → (n ≡ 13)
      × (s'.seen_ihdr ≡ true)
      × (s'.seen_idat ≡ s.seen_idat)
      × (s'.idat_closed ≡ s.idat_closed)
unfolding after_ihdr
after_ihdr-first bytes kind at n s same h =
    let guard = require (not (s.seen_ihdr || not (n == 13))) in
    let (ihdr, h1, h2) = >>=-eq-some (guard >>= λ _. read_exactly bytes n at) _ (rw same at h) in
    let (_, _, e) = >>=-eq-some (require (validate_ihdr ihdr)) _ h2 in
    let (_, r, _) = >>=-eq-some guard _ h1 in
    let k = some-injective _ _ e in
    (
      thirteen s.seen_ihdr n r,
      sym (ap PngState.seen_ihdr k),
      sym (ap PngState.seen_idat k),
      sym (ap PngState.idat_closed k),
    )
  where
    thirteen :
        (b : Bool) (n : ℕ) {u : Unit {0}} → require (not (b || not (n == 13))) ≡ some u → n ≡ 13
    thirteen true n h = absurd (cc)
    thirteen false n h = elim (Bool-cases (n == 13)) [
      | inl same ↦ ground (arith, same)
      | inr other ↦ absurd (cc (rw other at h))
    ]

-- The phase of a state behind a chunk.
abbrev pub IsAfter : Bytes → PngState → PngState → Type 0
IsAfter kind s s' =
    (s'.seen_ihdr ≡ s.seen_ihdr)
    × (((equals kind (text "IDAT") ≡ true)
          × (s.idat_closed ≡ false)
          × (s'.seen_idat ≡ true)
          × (s'.idat_closed ≡ false))
        ⊎ ((equals kind (text "IDAT") ≡ false)
            × (s'.seen_idat ≡ s.seen_idat)
            × (s'.idat_closed
                ≡ (s.idat_closed || (s.seen_idat && not (equals kind (text "IEND")))))))

pub after_idat-IsAfter :
    (kind : Bytes) (s : PngState) {s' : PngState} → after_idat kind s ≡ some s' → IsAfter kind s s'
unfolding after_idat
after_idat-IsAfter kind s {s'} h = elim (Bool-cases (equals kind (text "IDAT"))) [
  | inl same ↦
      let guard = not (s.idat_closed || (is_color 3 s.color_type && not s.seen_plte)) in
      let (_, r, e) = >>=-eq-some (require guard) _ (rw same at h) in
      let k = some-injective _ _ e in
      let open_row = row_open s.idat_closed (is_color 3 s.color_type && not s.seen_plte) r in
      (
        sym (ap PngState.seen_ihdr k),
        inl (
          same,
          open_row,
          sym (ap PngState.seen_idat k),
          sym (ap PngState.idat_closed k) ∙ open_row,
        ),
      )
  | inr differs ↦ elim (Bool-cases (s.seen_idat && not (equals kind (text "IEND")))) [
    | inl ends ↦
        let k = some-injective _ _ (rw (differs, ends) at h) in
        (
          sym (ap PngState.seen_ihdr k),
          inr (
            differs,
            sym (ap PngState.seen_idat k),
            sym (ap PngState.idat_closed k) ∙ rw ends (or_true s.idat_closed),
          ),
        )
    | inr keeps ↦
        let k = some-injective _ _ (rw (differs, keeps) at h) in
        (
          sym (ap PngState.seen_ihdr k),
          inr (
            differs,
            sym (ap PngState.seen_idat k),
            sym (ap PngState.idat_closed k) ∙ rw keeps (or_false s.idat_closed),
          ),
        )
  ]
]
  where
    or_true : (a : Bool) → true ≡ (a || true)
    or_true true = refl
    or_true false = refl

    or_false : (a : Bool) → a ≡ (a || false)
    or_false true = refl
    or_false false = refl

    row_open : (a b : Bool) {u : Unit {0}} → require (not (a || b)) ≡ some u → a ≡ false
    row_open true b h = absurd (cc)
    row_open false b h = refl

pub IsAfter-Keeps :
    (kind : Bytes) (s s2 s3 : PngState) → Keeps s s2 → IsAfter kind s2 s3 → IsAfter kind s s3
IsAfter-Keeps kind s s2 s3 (ihdr, seen, closed) after = rw (ihdr, seen, closed) at after
