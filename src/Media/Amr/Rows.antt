-- ===== src/Media/Amr/Rows.antt =====
-- What `matchesAmrStructure` accepts (src/media/media-audio-structure.ts).
use api_whats_app.Base.{
  ℕ, ◌+◌, ◌≤◌, ◌≡◌, ◌≢◌, refl, sym, ap, ◌∙◌, ◌↔◌, Bool, true, false, ◌&&◌, not, Option, none, some,
  ◌++◌, ◌==◌, ◌||◌, ltb, leb, length, take, drop, arith, Option-cases, Bool-cases, inl, inr, min,
  text_eq_iff, length-drop,
}
use mathlib.Core.Path.{subst}
use mathlib.Core.Option.{some-injective}
use api_whats_app.Media.{Bytes, File, size, byte, equals, read_exactly, require}
use api_whats_app.Media.Checks.{>>=-eq-some, require->>-eq-some, opened-eq_true, opened-regular}
use api_whats_app.Media.Frames.{
  frames_loop, IsFrames, IsFrameSound, IsFrameComplete, frames_loop-IsFrames, IsFrames-frames_loop,
  IsFrames-length,
}
use api_whats_app.Media.Reads.{read_exactly-fits}
use api_whats_app.Media.Local.{
  read_exactly-inside, read_exactly-start, cut, length-cut, length-stands, take-take, take-min,
}
use api_whats_app.Media.Amr.{
  magic, max_frames, speech_bits, payload_bytes, padding_clear, padding_check, amr_frame,
  wideband_of, matches_amr,
}

-- What `padding_check` asks, of a frame by itself.
abbrev is_padded : Bytes → ℕ → Bool
is_padded frame bits =
    payload_bytes bits == 0
    || padding_clear bits (byte (take 1 (drop (payload_bytes bits) frame)) 0)

abbrev fills : Bytes → Option ℕ → Bool
fills frame none = false
fills frame (some bits) = length frame == 1 + payload_bytes bits && is_padded frame bits

-- A frame by itself: the byte of its header announces its length, and the bits of its last byte
-- that no speech fills are zero.
pub is_amr_frame : Bool → Bytes → Bool
is_amr_frame wideband frame =
    leb 1 (length frame) && fills frame (speech_bits wideband (byte (take 1 frame) 0))

module _ (wideband : Bool) (bytes : Bytes) where
  padding_check-inside :
      (offset : ℕ) (unit rest : Bytes) (bits : ℕ)
      → drop offset bytes ≡ unit ++ rest
      → length unit ≡ 1 + payload_bytes bits
      → padding_check bytes offset bits ≡ require (is_padded unit bits)
  unfolding padding_check
  padding_check-inside offset unit rest bits there long =
      elim (Bool-cases (payload_bytes bits == 0)) [
        | inl silent ↦ rw silent refl
        | inr speech ↦
            rw
              (
                speech,
                read_exactly-inside bytes offset unit rest (payload_bytes bits) 1 there
                    (omega arith) (omega arith),
              )
              refl
      ]

  amr_frame-inversion :
      (offset n : ℕ)
      → amr_frame wideband bytes offset ≡ some n
      → (header : Bytes) × (bits : ℕ) × (read_exactly bytes 1 offset ≡ some header)
        × (speech_bits wideband (byte header 0) ≡ some bits)
        × (offset + n ≤ length bytes)
        × (padding_check bytes offset bits ≡ some tt)
        × (n ≡ 1 + payload_bytes bits)
  unfolding amr_frame
  amr_frame-inversion offset n h =
      let (header, found, h1) = >>=-eq-some (read_exactly bytes 1 offset) _ h in
      let (bits, valid, h2) = >>=-eq-some (speech_bits wideband (byte header 0)) _ h1 in
      let (fits, h3) =
        require->>-eq-some (not (ltb (length bytes) (offset + 1 + payload_bytes bits))) _ h2 in
      let (_, padded, h4) = >>=-eq-some (padding_check bytes offset bits) _ h3 in
      let same : 1 + payload_bytes bits ≡ n = some-injective _ n h4 in
      (header, bits, found, valid, ground (arith, fits, same), padded, sym same)

  require-eq-some : (test : Bool) → require test ≡ some tt → test ≡ true
  require-eq-some true h = refl
  require-eq-some false h = absurd (cc)

  amr_frame-sound : IsFrameSound (amr_frame wideband bytes) (is_amr_frame wideband) bytes
  unfolding is_amr_frame
  amr_frame-sound offset n h =
      let (header, bits, found, valid, fits, padded, long) = amr_frame-inversion offset n h in
      let unit = take n (drop offset bytes) in
      let whole = length-cut bytes offset n fits in
      let start =
        read_exactly-start bytes offset unit (drop n (drop offset bytes)) 1 (cut bytes offset n)
          (omega arith) (omega arith) in
      let clear = require-eq-some (is_padded unit bits) (
        sym (
          padding_check-inside offset unit (drop n (drop offset bytes)) bits (cut bytes offset n)
            (omega arith))
        ∙ padded) in
      (
        omega arith,
        fits,
        rw (some-injective _ _ (sym start ∙ found), valid, clear) (ground (arith, whole, long)),
      )

  is_amr_frame-header :
      (frame : Bytes)
      → is_amr_frame wideband frame ≡ true
      → (bits : ℕ) × (speech_bits wideband (byte (take 1 frame) 0) ≡ some bits)
        × (length frame ≡ 1 + payload_bytes bits)
        × (is_padded frame bits ≡ true)
  unfolding is_amr_frame
  is_amr_frame-header frame h = elim (Option-cases (speech_bits wideband (byte (take 1 frame) 0))) [
    | inl refused ↦ absurd (ground (arith, refused))
    | inr (bits, valid) ↦ (bits, valid, ground (arith, valid), ground (arith, valid))
  ]

  amr_frame-complete : IsFrameComplete (amr_frame wideband bytes) (is_amr_frame wideband) bytes
  unfolding amr_frame
  amr_frame-complete offset unit rest there valid =
      let (bits, header, long, clear) = is_amr_frame-header unit valid in
      let found = read_exactly-start bytes offset unit rest 1 there (omega arith) (omega arith) in
      let room = length-stands bytes offset unit rest there in
      let fits : ltb (length bytes) (offset + 1 + payload_bytes bits) ≡ false = ground arith in
      (
        omega arith,
        rw (found, header, fits, padding_check-inside offset unit rest bits there long, clear)
            (ap some (sym long)),
      )

magic-ge : (wideband : Bool) → 6 ≤ length (magic wideband)
magic-ge true = omega arith
magic-ge false = omega arith

is_amr_frame-pos :
    (wideband : Bool) (frame : Bytes) → is_amr_frame wideband frame ≡ true → 1 ≤ length frame
unfolding is_amr_frame
is_amr_frame-pos wideband frame h = ground arith

-- The two magics, on the nine bytes that the code reads.
abbrev is_wide : Bytes → Bool
is_wide prefix = leb 9 (length prefix) && equals (take 9 prefix) (magic true)

abbrev is_narrow : Bytes → Bool
is_narrow prefix = equals (take 6 prefix) (magic false)

is_wide-eq : (bytes : Bytes) → is_wide (take 9 bytes) ≡ true → take 9 bytes ≡ magic true
is_wide-eq bytes h =
    sym (take-take 9 9 bytes (omega arith))
    ∙ (text_eq_iff (take 9 (take 9 bytes)) (magic true)).0 (and-right _ _ h)
  where
    and-right : (a b : Bool) → (a && b) ≡ true → b ≡ true
    and-right true b e = e
    and-right false b e = absurd (cc)

is_narrow-eq : (bytes : Bytes) → is_narrow (take 9 bytes) ≡ true → take 6 bytes ≡ magic false
is_narrow-eq bytes h =
    sym (take-take 6 9 bytes (omega arith))
    ∙ (text_eq_iff (take 6 (take 9 bytes)) (magic false)).0 h

wideband_of-magic :
    (bytes : Bytes) (wideband : Bool)
    → wideband_of (take 9 bytes) ≡ some wideband
    → take (length (magic wideband)) bytes ≡ magic wideband
wideband_of-magic bytes wideband h = elim (Bool-cases (is_wide (take 9 bytes))) [
  | inl wide ↦
      subst (λ w. take (length (magic w)) bytes ≡ magic w) (some-injective _ _ (rw wide at h))
        (is_wide-eq bytes wide)
  | inr not_wide ↦ elim (Bool-cases (is_narrow (take 9 bytes))) [
    | inl narrow ↦
        subst (λ w. take (length (magic w)) bytes ≡ magic w)
          (some-injective _ _ (rw (not_wide, narrow) at h)) (is_narrow-eq bytes narrow)
    | inr neither ↦ absurd (cc (rw (not_wide, neither) at h))
  ]
]

magics_differ : take 6 (magic true) ≢ magic false
magics_differ h = absurd (cc h)

magic-wideband_of :
    (bytes : Bytes) (wideband : Bool)
    → take (length (magic wideband)) bytes ≡ magic wideband
    → wideband_of (take 9 bytes) ≡ some wideband
magic-wideband_of bytes true h = ap wideband_of h
magic-wideband_of bytes false h =
    let start : take 6 (take 9 bytes) ≡ magic false = take-take 6 9 bytes (omega arith) ∙ h in
    let narrow : is_narrow (take 9 bytes) ≡ true = (text_eq_iff _ _).1 start in
    elim (Bool-cases (is_wide (take 9 bytes))) [
      | inl wide ↦ absurd (
          magics_differ
            (sym (ap (take 6) (is_wide-eq bytes wide)) ∙ take-take 6 9 bytes (omega arith) ∙ h))
      | inr not_wide ↦ rw (not_wide, narrow) refl
    ]

module _ (file : File) where
  matches_amr-frames_loop :
      (wideband : Bool)
      → file.is_file ≡ true
      → 7 ≤ size file
      → wideband_of (take 9 file.bytes) ≡ some wideband
      → matches_amr file
        ≡ frames_loop
            (amr_frame wideband file.bytes)
            max_frames
            (size file)
            (length (magic wideband))
  unfolding matches_amr
  matches_amr-frames_loop wideband regular long h =
      opened-regular file.is_file 7 (size file) _ regular long
      ∙ rw
          (
            read_exactly-fits file.bytes (min 9 (size file)) 0 (omega arith),
            take-min 9 file.bytes,
            h,
          )
          refl

  matches_amr-inversion :
      matches_amr file ≡ true
      → (file.is_file ≡ true)
        × (7 ≤ size file)
        × (wideband : Bool) × (wideband_of (take 9 file.bytes) ≡ some wideband)
  unfolding matches_amr
  matches_amr-inversion h =
      let (regular, long, body) = opened-eq_true file.is_file 7 (size file) _ h in
      let prefix =
        rw (read_exactly-fits file.bytes (min 9 (size file)) 0 (omega arith), take-min 9 file.bytes)
          at body in
      elim (Option-cases (wideband_of (take 9 file.bytes))) [
        | inl neither ↦ absurd (cc (rw neither at prefix))
        | inr (wideband, known) ↦ (regular, long, wideband, known)
      ]

  -- A regular file is accepted as AMR exactly when it is one of the two magics and then a row of
  -- frames of that band, one at least and fewer than 100,000, with nothing between or behind them:
  -- each frame by itself has a header that announces its length and a last byte padded with zeros.
  pub matches_amr_iff : (matches_amr file ≡ true) ↔ (
      (file.is_file ≡ true)
      × (wideband : Bool) × (take (length (magic wideband)) file.bytes ≡ magic wideband)
      × IsFrames (is_amr_frame wideband) (drop (length (magic wideband)) file.bytes) max_frames)
  matches_amr_iff = (to, from)
    where
      to :
          matches_amr file ≡ true
          → (file.is_file ≡ true)
            × (wideband : Bool) × (take (length (magic wideband)) file.bytes ≡ magic wideband)
            × IsFrames
                (is_amr_frame wideband)
                (drop (length (magic wideband)) file.bytes)
                max_frames
      to h =
          let (regular, long, wideband, known) = matches_amr-inversion h in
          (
            regular,
            wideband,
            wideband_of-magic file.bytes wideband known,
            frames_loop-IsFrames (amr_frame wideband file.bytes) (is_amr_frame wideband) file.bytes
                (amr_frame-sound wideband file.bytes) max_frames (length (magic wideband))
                (sym (matches_amr-frames_loop wideband regular long known) ∙ h),
          )

      from :
          (file.is_file ≡ true)
            × (wideband : Bool) × (take (length (magic wideband)) file.bytes ≡ magic wideband)
            × IsFrames
                (is_amr_frame wideband)
                (drop (length (magic wideband)) file.bytes)
                max_frames
          → matches_amr file ≡ true
      from (regular, wideband, known, frames) =
          let some_byte =
            IsFrames-length (is_amr_frame wideband) (drop (length (magic wideband)) file.bytes)
              max_frames 1 (λ frame valid. is_amr_frame-pos wideband frame valid) frames in
          let room = length-drop (length (magic wideband)) file.bytes in
          let past : 6 ≤ length (magic wideband) = magic-ge wideband in
          matches_amr-frames_loop wideband regular (omega arith)
            (magic-wideband_of file.bytes wideband known)
          ∙ IsFrames-frames_loop (amr_frame wideband file.bytes) (is_amr_frame wideband) file.bytes
              (amr_frame-complete wideband file.bytes) max_frames (length (magic wideband))
              (omega arith) frames
