-- ===== src/Media/Mpeg/Rows.antt =====
-- What `matchesMpegAudioStructure` accepts (src/media/media-audio-structure.ts).
use api_whats_app.Base.{
  ℕ, ◌+◌, ◌≤◌, ◌≡◌, refl, sym, ap, ◌∙◌, ◌↔◌, Bool, true, false, not, Option, none, some, ◌++◌, ◌==◌,
  ltb, length, take, drop, arith, Option-cases, inl, inr, length-take,
}
use mathlib.Core.Option.{some-injective}
use mathlib.Core.List.{append_assoc}
use api_whats_app.Media.{Bytes, File, size, read_exactly}
use api_whats_app.Media.Checks.{>>=-eq-some, require->>-eq-some, opened-eq_true, opened-regular}
use api_whats_app.Media.Walk.{take-append-drop}
use api_whats_app.Media.Frames.{
  frames_loop, IsFrames, IsFrameSound, IsFrameComplete, frames_loop-IsFrames, IsFrames-frames_loop,
}
use api_whats_app.Media.Local.{read_exactly-start, cut, length-cut, length-stands, drop-append_le}
use api_whats_app.Media.Mpeg.Lengths.{mpeg_audio_frame_length, mpeg_audio_frame_length-ge}
use api_whats_app.Media.Mpeg.{
  max_frames, id3v2_end, audio_start, audio_end, mpeg_frame, matches_mpeg,
}

abbrev gives : ℕ → Option ℕ → Bool
gives n none = false
gives n (some m) = m == n

-- A frame by itself: its header is valid and gives its length.
pub is_mpeg_frame : Bytes → Bool
is_mpeg_frame frame = gives (length frame) (mpeg_audio_frame_length (take 4 frame))

is_mpeg_frame-header :
    (frame : Bytes)
    → is_mpeg_frame frame ≡ true
    → mpeg_audio_frame_length (take 4 frame) ≡ some (length frame)
unfolding is_mpeg_frame
is_mpeg_frame-header frame h = ground (arith, h)

module _ (bytes : Bytes) (end : ℕ) (within : end ≤ length bytes) where
  abbrev region : Bytes
  region = take end bytes

  length-region : length region ≡ end
  length-region = omega (arith, length-take end bytes)

  -- What stands in the region stands in the file.
  stands :
      (offset : ℕ) (unit rest : Bytes)
      → drop offset region ≡ unit ++ rest
      → offset ≤ end
      → drop offset bytes ≡ unit ++ (rest ++ drop end bytes)
  stands offset unit rest there le =
      ap (drop offset) (sym (take-append-drop end bytes))
      ∙ drop-append_le offset region (drop end bytes) (omega (arith, length-region))
      ∙ ap (λ r. r ++ drop end bytes) there
      ∙ append_assoc unit rest (drop end bytes)

  mpeg_frame-inversion :
      (offset n : ℕ)
      → mpeg_frame bytes end offset ≡ some n
      → (header : Bytes) × (read_exactly bytes 4 offset ≡ some header)
        × (mpeg_audio_frame_length header ≡ some n)
        × (offset + n ≤ end)
  unfolding mpeg_frame
  mpeg_frame-inversion offset n h =
      let (header, found, h1) = >>=-eq-some (read_exactly bytes 4 offset) _ h in
      let (m, valid, h2) = >>=-eq-some (mpeg_audio_frame_length header) _ h1 in
      let (fits, h3) = require->>-eq-some (not (ltb end (offset + m))) _ h2 in
      let same : m ≡ n = some-injective m n h3 in
      (header, found, valid ∙ h3, ground (arith, fits, same))

  mpeg_frame-sound : IsFrameSound (mpeg_frame bytes end) is_mpeg_frame region
  unfolding is_mpeg_frame
  mpeg_frame-sound offset n h =
      let (header, found, valid, fits) = mpeg_frame-inversion offset n h in
      let long = mpeg_audio_frame_length-ge header n valid in
      let inside : offset + n ≤ length region = omega (arith, length-region) in
      let unit = take n (drop offset region) in
      let whole = length-cut region offset n inside in
      let start =
        read_exactly-start bytes offset unit (drop n (drop offset region) ++ drop end bytes) 4
          (stands offset unit (drop n (drop offset region)) (cut region offset n) (omega arith))
          (omega arith) (omega arith) in
      (
        omega arith,
        inside,
        rw (some-injective _ _ (sym start ∙ found), valid) (ground (arith, whole)),
      )

  mpeg_frame-complete : IsFrameComplete (mpeg_frame bytes end) is_mpeg_frame region
  unfolding mpeg_frame
  mpeg_frame-complete offset unit rest there valid =
      let header = is_mpeg_frame-header unit valid in
      let long = mpeg_audio_frame_length-ge (take 4 unit) (length unit) header in
      let room = length-stands region offset unit rest there in
      let le : offset ≤ end = omega (arith, length-region) in
      let found =
        read_exactly-start bytes offset unit (rest ++ drop end bytes) 4
          (stands offset unit rest there le) (omega arith) (omega arith) in
      let fits : ltb end (offset + length unit) ≡ false = ground (arith, room, length-region) in
      (omega arith, rw (found, header, fits) refl)

audio_end_bounds :
    (bytes : Bytes) (offset : ℕ)
    → offset ≤ length bytes
    → (offset ≤ audio_end bytes offset) × (audio_end bytes offset ≤ length bytes)
unfolding audio_end
audio_end_bounds bytes offset h = ground arith

audio_start-le :
    (bytes : Bytes) (offset : ℕ) → audio_start bytes ≡ some offset → offset ≤ length bytes
unfolding audio_start id3v2_end
audio_start-le bytes offset h = ground arith

module _ (file : File) where
  abbrev pub end_at : ℕ → ℕ
  end_at = audio_end file.bytes

  -- The bytes between the tags.
  abbrev pub audio : ℕ → Bytes
  audio start = take (end_at start) file.bytes

  matches_mpeg-frames_loop :
      (start : ℕ)
      → file.is_file ≡ true
      → 4 ≤ size file
      → audio_start file.bytes ≡ some start
      → matches_mpeg file
        ≡ frames_loop (mpeg_frame file.bytes (end_at start)) max_frames (length (audio start)) start
  unfolding matches_mpeg
  matches_mpeg-frames_loop start regular long h =
      let (_, within) = audio_end_bounds file.bytes start (audio_start-le file.bytes start h) in
      opened-regular file.is_file 4 (size file) _ regular long
      ∙ rw (length-region file.bytes (end_at start) within, h) refl

  matches_mpeg-inversion :
      matches_mpeg file ≡ true
      → (file.is_file ≡ true)
        × (4 ≤ size file)
        × (start : ℕ) × (audio_start file.bytes ≡ some start)
  unfolding matches_mpeg
  matches_mpeg-inversion h =
      let (regular, long, body) = opened-eq_true file.is_file 4 (size file) _ h in
      elim (Option-cases (audio_start file.bytes)) [
        | inl refused ↦ absurd (cc (rw refused at body))
        | inr (start, known) ↦ (regular, long, start, known)
      ]

  abbrev pub IsBetweenTags : Type 0
  IsBetweenTags =
      (file.is_file ≡ true)
      × (4 ≤ size file)
      × (start : ℕ) × (audio_start file.bytes ≡ some start)
      × IsFrames is_mpeg_frame (drop start (audio start)) max_frames

  -- A regular file of four bytes or more is accepted as MPEG audio exactly when the tag that it may
  -- start with is well-formed and the bytes between it and the tag that may end the file are a row
  -- of frames, one at least and fewer than 100,000: each frame by itself has a valid header that
  -- gives its length.
  pub matches_mpeg_iff : (matches_mpeg file ≡ true) ↔ IsBetweenTags
  matches_mpeg_iff = (to, from)
    where
      to : matches_mpeg file ≡ true → IsBetweenTags
      to h =
          let (regular, long, start, known) = matches_mpeg-inversion h in
          let (_, within) =
            audio_end_bounds file.bytes start (audio_start-le file.bytes start known) in
          (
            regular,
            long,
            start,
            known,
            frames_loop-IsFrames (mpeg_frame file.bytes (end_at start)) is_mpeg_frame (audio start)
                (mpeg_frame-sound file.bytes (end_at start) within) max_frames start
                (sym (matches_mpeg-frames_loop start regular long known) ∙ h),
          )

      from : IsBetweenTags → matches_mpeg file ≡ true
      from (regular, long, start, known, frames) =
          let (behind, within) =
            audio_end_bounds file.bytes start (audio_start-le file.bytes start known) in
          matches_mpeg-frames_loop start regular long known
          ∙ IsFrames-frames_loop (mpeg_frame file.bytes (end_at start)) is_mpeg_frame (audio start)
              (mpeg_frame-complete file.bytes (end_at start) within) max_frames start
              (omega (arith, length-region file.bytes (end_at start) within)) frames
