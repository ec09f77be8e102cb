-- ===== src/Media/Ogg/Pages.antt =====
-- `matchesOggStructure` (src/media/media-audio-structure.ts) reads a file as a row of pages, each of
-- which is framed well by itself.
use api_whats_app.Base.{
  ℕ, ◌+◌, ◌≤◌, ◌≡◌, refl, sym, ap, ◌∙◌, Bool, true, false, ◌&&◌, ◌||◌, not, Option, none, some, [],
  ◌∷◌, ◌==◌, ltb, leb, leb→le, ==_iff, length, take, drop, arith, if◌then◌else◌,
}
use mathlib.Core.Path.{subst}
use mathlib.Core.Option.{some-injective}
use api_whats_app.Media.{Bytes, byte, read_exactly}
use api_whats_app.Media.Checks.{>>=-eq-some, require->>-eq-some}
use api_whats_app.Media.Walk.{IsSound, IsComplete}
use api_whats_app.Media.Reads.{read_exactly-eq_some}
use api_whats_app.Media.Local.{
  read_exactly-inside, read_exactly-start, cut, length-cut, length-stands,
}
use api_whats_app.Media.Ogg.Crc.{has_valid_crc}
use api_whats_app.Media.Ogg.Opus.{sum}
use api_whats_app.Media.Ogg.{OggState, is_page_header, page_step, max_page_bytes, ogg_page}

abbrev segments : Bytes → ℕ
segments page = byte (take 27 page) 26

-- The lengths of the segments, and the bytes of the body that they add up to.
abbrev lacing_of : Bytes → Bytes
lacing_of page = take (segments page) (drop 27 page)

abbrev pub body_bytes : Bytes → ℕ
body_bytes page = sum (lacing_of page)

-- A page by itself: its header, its length and its checksum.
pub is_page : Bytes → Bool
is_page page =
    leb (27 + segments page) (length page)
    && (is_page_header (take 27 page)
        && (length page == 27 + segments page + body_bytes page
            && (leb (length page) max_page_bytes && has_valid_crc page)))

pub accept : Bytes → OggState → Option OggState
accept page s = if is_page page then page_step page (body_bytes page) s else none

-- What a page that is read by itself is, and does.
pub record Alone (page : Bytes) (s s' : OggState) : Type 0 where
  pub header : is_page_header (take 27 page) ≡ true
  pub counted : length page ≡ 27 + segments page + body_bytes page
  pub small : length page ≤ max_page_bytes
  pub checked : has_valid_crc page ≡ true
  pub stepped : page_step page (body_bytes page) s ≡ some s'

Alone-accept : (page : Bytes) (s s' : OggState) → Alone page s s' → accept page s ≡ some s'
unfolding accept is_page
Alone-accept page s s' a =
    let long : leb (27 + segments page) (length page) ≡ true = ground (arith, a.counted) in
    let exact : (length page == 27 + segments page + body_bytes page) ≡ true =
      (==_iff _ _).1 a.counted in
    let small : leb (length page) max_page_bytes ≡ true = ground (arith, a.small) in
    rw (long, a.header, exact, small, a.checked) a.stepped

and-split : (a b : Bool) → (a && b) ≡ true → (a ≡ true) × (b ≡ true)
and-split true b h = (refl, h)
and-split false b h = absurd (cc)

if-some :
    (test : Bool) (o : Option OggState) {s' : OggState}
    → (if test then o else none) ≡ some s'
    → (test ≡ true) × (o ≡ some s')
if-some true o h = (refl, h)
if-some false o h = absurd (cc)

pub accept-Alone : (page : Bytes) (s s' : OggState) → accept page s ≡ some s' → Alone page s s'
unfolding accept is_page
accept-Alone page s s' h =
    let (framed, stepped) = if-some (is_page page) (page_step page (body_bytes page) s) h in
    let (_, r1) = and-split (leb (27 + segments page) (length page)) _ framed in
    let (header, r2) = and-split (is_page_header (take 27 page)) _ r1 in
    let (exact, r3) = and-split (length page == 27 + segments page + body_bytes page) _ r2 in
    let (small, checked) = and-split (leb (length page) max_page_bytes) _ r3 in
    record {
      header = header;
      counted = (==_iff _ _).0 exact;
      small = leb→le _ _ small;
      checked = checked;
      stepped = stepped;
    }

pub accept-is_page :
    (page : Bytes) (s s' : OggState) → accept page s ≡ some s' → is_page page ≡ true
unfolding accept
accept-is_page page s s' h = (if-some (is_page page) (page_step page (body_bytes page) s) h).0

take-length : (xs : Bytes) → take (length xs) xs ≡ xs
take-length [] = refl
take-length (x ∷ xs) = ap (λ r. x ∷ r) (take-length xs)

record Framed (bytes : Bytes) (offset n : ℕ) (s s' : OggState) : Type 0 where
  fixed : Bytes
  lacing : Bytes
  page : Bytes
  found : read_exactly bytes 27 offset ≡ some fixed
  header : is_page_header fixed ≡ true
  laced : read_exactly bytes (byte fixed 26) (offset + 27) ≡ some lacing
  counted : n ≡ 27 + byte fixed 26 + sum lacing
  small : n ≤ max_page_bytes
  fits : offset + n ≤ length bytes
  whole : read_exactly bytes n offset ≡ some page
  checked : has_valid_crc page ≡ true
  stepped : page_step page (sum lacing) s ≡ some s'

module _ (bytes : Bytes) where
  ogg_page-Framed :
      (offset n : ℕ) (s s' : OggState)
      → ogg_page bytes offset s ≡ some (n, s')
      → Framed bytes offset n s s'
  unfolding ogg_page
  ogg_page-Framed offset n s s' h =
      let (fixed, found, h1) = >>=-eq-some (read_exactly bytes 27 offset) _ h in
      let (header, h2) = require->>-eq-some (is_page_header fixed) _ h1 in
      let (lacing, laced, h3) =
        >>=-eq-some (read_exactly bytes (byte fixed 26) (offset + 27)) _ h2 in
      let m = 27 + byte fixed 26 + sum lacing in
      let (fits, h4) =
        require->>-eq-some (not (ltb max_page_bytes m || ltb (length bytes) (offset + m))) _ h3 in
      let (page, whole, h5) = >>=-eq-some (read_exactly bytes m offset) _ h4 in
      let (checked, h6) = require->>-eq-some (has_valid_crc page) _ h5 in
      let (s1, stepped, h7) = >>=-eq-some (page_step page (sum lacing) s) _ h6 in
      let pair = some-injective _ _ h7 in
      let same : m ≡ n = ap (λ p. p.0) pair in
      record {
        fixed = fixed;
        lacing = lacing;
        page = page;
        found = found;
        header = header;
        laced = laced;
        counted = sym same;
        small = ground (arith, fits, same);
        fits = ground (arith, fits, same);
        whole = subst (λ k. read_exactly bytes k offset ≡ some page) same whole;
        checked = checked;
        stepped = stepped ∙ ap (λ p. some p.1) pair;
      }

  pub ogg_page-sound : IsSound (ogg_page bytes) accept bytes
  ogg_page-sound offset n s s' h =
      let f = ogg_page-Framed offset n s s' h in
      let long : 27 + byte f.fixed 26 ≤ n = omega (arith, f.counted) in
      let unit = take n (drop offset bytes) in
      let rest = drop n (drop offset bytes) in
      let size_unit = length-cut bytes offset n f.fits in
      let there = cut bytes offset n in
      let start : take 27 unit ≡ f.fixed = some-injective _ _ (
        sym (read_exactly-start bytes offset unit rest 27 there (omega arith) (omega arith))
        ∙ f.found) in
      let laces : take (byte f.fixed 26) (drop 27 unit) ≡ f.lacing = some-injective _ _ (
        sym (
          read_exactly-inside bytes offset unit rest 27 (byte f.fixed 26) there (omega arith)
            (omega arith))
        ∙ f.laced) in
      let (_, same) = read_exactly-eq_some bytes n offset (omega arith) f.whole in
      let e1 : segments unit ≡ byte f.fixed 26 = ap (λ x. byte x 26) start in
      let e2 : body_bytes unit ≡ sum f.lacing =
        ap sum (ap (λ k. take k (drop 27 unit)) e1 ∙ laces) in
      (
        omega arith,
        f.fits,
        Alone-accept unit s s' (record {
          header = ap is_page_header start ∙ f.header;
          counted = omega (arith, size_unit, f.counted, e1, e2);
          small = omega (arith, size_unit, f.small);
          checked = ap has_valid_crc (sym same) ∙ f.checked;
          stepped =
              ap (λ b. page_step unit b s) e2
              ∙ ap (λ p. page_step p (sum f.lacing) s) (sym same)
              ∙ f.stepped;
        }),
      )

  pub ogg_page-complete : IsComplete (ogg_page bytes) accept bytes
  unfolding ogg_page
  ogg_page-complete offset unit rest s s' there h =
      let a = accept-Alone unit s s' h in
      let long : 27 + segments unit ≤ length unit = omega (arith, a.counted) in
      let room = length-stands bytes offset unit rest there in
      let start = read_exactly-start bytes offset unit rest 27 there (omega arith) (omega arith) in
      let laces =
        read_exactly-inside bytes offset unit rest 27 (segments unit) there (omega arith)
          (omega arith) in
      let whole =
        read_exactly-start bytes offset unit rest (length unit) there (omega arith) (omega arith)
        ∙ ap some (take-length unit) in
      let fits : (ltb max_page_bytes (length unit) || ltb (length bytes) (offset + length unit))
          ≡ false =
        ground (arith, a.small, room) in
      (
        omega arith,
        rw (start, a.header, laces, ← a.counted, fits, whole, a.checked, a.stepped) refl,
      )
