-- ===== src/Media/Aac/Adts.antt =====
-- What `matchesAacStructure` accepts without an ADIF header (src/media/media-audio-structure.ts).
use api_whats_app.Base.{
  ℕ, ◌+◌, ◌≤◌, ◌<◌, ◌≡◌, refl, sym, ◌∙◌, ◌↔◌, Bool, true, false, ◌&&◌, not, Option, none, some,
  ◌==◌, ltb, leb, leb→le, length, take, drop, arith, Bool-cases, inl, inr, min,
}
use api_whats_app.Media.{Bytes, File, size, equals, read_exactly}
use api_whats_app.Media.Checks.{>>=-eq-some, require->>-eq-some, opened-eq_true, opened-regular}
use api_whats_app.Media.Frames.{
  frames_loop, IsFrames, IsFrameSound, IsFrameComplete, frames_loop-IsFrames, IsFrames-frames_loop,
  IsFrames-length,
}
use api_whats_app.Media.Reads.{read_exactly-fits}
use api_whats_app.Media.Local.{
  read_exactly-inside, read_exactly-start, cut, length-cut, length-stands,
}
use mathlib.Core.Option.{some-injective}
use api_whats_app.Media.Aac.{
  protection_absent, header_bytes, adts_frame_bytes, adts_frame, matches_aac, adif_magic,
  max_frames,
}

abbrev gives : ℕ → Option ℕ → Bool
gives n none = false
gives n (some m) = m == n

-- A frame by itself: its header is valid and gives its length.
pub is_adts_frame : Bytes → Bool
is_adts_frame frame = leb 7 (length frame) && gives (length frame) (adts_frame_bytes (take 7 frame))

-- A frame is longer than its header, of nine bytes where a checksum follows it.
adts_frame_bytes-gt :
    (header : Bytes) (n : ℕ) → adts_frame_bytes header ≡ some n → header_bytes header < n
unfolding adts_frame_bytes
adts_frame_bytes-gt header n h = ground arith

adts_frame-inversion :
    (bytes : Bytes) (offset n : ℕ)
    → adts_frame bytes offset ≡ some n
    → (header : Bytes) × (read_exactly bytes 7 offset ≡ some header)
      × (adts_frame_bytes header ≡ some n)
      × (offset + n ≤ length bytes)
unfolding adts_frame
adts_frame-inversion bytes offset n h =
    let (header, found, h1) = >>=-eq-some (read_exactly bytes 7 offset) _ h in
    let (m, valid, h2) = >>=-eq-some (adts_frame_bytes header) _ h1 in
    let (fits, h3) = require->>-eq-some (not (ltb (length bytes) (offset + m))) _ h2 in
    let (_, h4) = require->>-eq-some _ (some m) h3 in
    let same : m ≡ n = some-injective m n h4 in
    (header, found, valid ∙ h4, ground (arith, fits, same))

adts_frame-sound : (bytes : Bytes) → IsFrameSound (adts_frame bytes) is_adts_frame bytes
unfolding is_adts_frame
adts_frame-sound bytes offset n h =
    let (header, found, valid, fits) = adts_frame-inversion bytes offset n h in
    let long : 7 < n = ground (arith, adts_frame_bytes-gt header n valid) in
    let whole = length-cut bytes offset n fits in
    let here =
      sym found
      ∙ read_exactly-start bytes offset (take n (drop offset bytes)) (drop n (drop offset bytes)) 7
          (cut bytes offset n) (omega arith) (omega arith) in
    (omega arith, fits, rw (whole, ← some-injective _ _ here, valid) (ground arith))

gives-eq : (n : ℕ) (o : Option ℕ) → gives n o ≡ true → o ≡ some n
gives-eq n none h = absurd (cc)
gives-eq n (some m) h = ground arith

is_adts_frame-header :
    (frame : Bytes)
    → is_adts_frame frame ≡ true
    → (7 ≤ length frame) × (adts_frame_bytes (take 7 frame) ≡ some (length frame))
unfolding is_adts_frame
is_adts_frame-header frame h = elim (Bool-cases (leb 7 (length frame))) [
  | inl long ↦ (leb→le _ _ long, gives-eq _ _ (rw long at h))
  | inr short ↦ absurd (cc (rw short at h))
]

adts_frame-complete : (bytes : Bytes) → IsFrameComplete (adts_frame bytes) is_adts_frame bytes
unfolding adts_frame
adts_frame-complete bytes offset unit rest there valid =
    let (long, header) = is_adts_frame-header unit valid in
    let longer = adts_frame_bytes-gt (take 7 unit) (length unit) header in
    let found = read_exactly-start bytes offset unit rest 7 there (omega arith) long in
    let room = length-stands bytes offset unit rest there in
    let fits : ltb (length bytes) (offset + length unit) ≡ false = ground arith in
    (
      omega arith,
      rw (found, header, fits)
          (elim (Bool-cases (protection_absent (take 7 unit))) [
            | inl absent ↦ rw absent refl
            | inr checked ↦
                let nine : 9 < length unit = rw checked at longer in
                rw
                  (
                    checked,
                    read_exactly-inside bytes offset unit rest 7 2 there (omega arith)
                        (omega arith),
                  )
                  refl
          ]),
    )

module _ (file : File) (framed : equals (take 4 file.bytes) adif_magic ≡ false) where
  matches_aac-frames_loop :
      file.is_file ≡ true
      → 5 ≤ size file
      → matches_aac file ≡ frames_loop (adts_frame file.bytes) max_frames (size file) 0
  unfolding matches_aac
  matches_aac-frames_loop regular long =
      let four : min 4 (size file) ≡ 4 = omega arith in
      opened-regular file.is_file 5 (size file) _ regular long
      ∙ rw (four, read_exactly-fits file.bytes 4 0 (omega arith), framed) refl

  matches_aac-ge : matches_aac file ≡ true → (file.is_file ≡ true) × (5 ≤ size file)
  unfolding matches_aac
  matches_aac-ge h =
      let (regular, long, _) = opened-eq_true file.is_file 5 (size file) _ h in (regular, long)

  -- A regular file that does not start with ADIF is accepted as AAC exactly when its bytes are a
  -- row of ADTS frames, one at least and fewer than 100,000: nothing stands before, between or
  -- behind them, and each frame by itself has a valid header that gives its length.
  pub matches_aac_iff :
      (matches_aac file ≡ true)
      ↔ ((file.is_file ≡ true) × IsFrames is_adts_frame file.bytes max_frames)
  matches_aac_iff = (to, from)
    where
      to :
          matches_aac file ≡ true
          → (file.is_file ≡ true) × IsFrames is_adts_frame file.bytes max_frames
      to h =
          let (regular, long) = matches_aac-ge h in
          (
            regular,
            frames_loop-IsFrames (adts_frame file.bytes) is_adts_frame file.bytes
                (adts_frame-sound file.bytes) max_frames 0
                (sym (matches_aac-frames_loop regular long) ∙ h),
          )

      from :
          (file.is_file ≡ true) × IsFrames is_adts_frame file.bytes max_frames
          → matches_aac file ≡ true
      from (regular, frames) =
          let long =
            IsFrames-length is_adts_frame file.bytes max_frames 7
              (λ frame valid. (is_adts_frame-header frame valid).0) frames in
          matches_aac-frames_loop regular (omega arith)
          ∙ IsFrames-frames_loop (adts_frame file.bytes) is_adts_frame file.bytes
              (adts_frame-complete file.bytes) max_frames 0 (omega arith) frames
