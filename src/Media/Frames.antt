-- ===== src/Media/Frames.antt =====
-- Loops over frames that keep nothing between two frames, as for AAC, MP3 and AMR
-- (src/media/media-audio-structure.ts): what they accept is a row of frames, each valid by itself.
use api_whats_app.Base.{
  ℕ, ◌+◌, ◌≤◌, ◌<◌, ◌≡◌, refl, ap, Bool, true, Option, none, some, List, [], ◌∷◌, ◌++◌, arith,
  length, length-append, take, drop, All, if◌then◌else◌, Bool-cases, inl, inr,
}
use api_whats_app.Media.{Bytes}
use api_whats_app.Media.Walk.{walk, ends, read_units, join, ends-IsRow, IsRow-ends}

-- The body of a loop that reads the length of a frame at an offset.
abbrev pub advance : (ℕ → Option ℕ) → ℕ → Unit {0} → Option (ℕ × Unit {0})
advance frame offset kept = elim (frame offset) [ none ↦ none | some n ↦ some (n, kept) ]

-- The loop and the verdict after it.
unfoldable pub frames_loop : (ℕ → Option ℕ) → ℕ → ℕ → ℕ → Bool
unfolding walk ends
frames_loop frame most stop offset = ends most stop (walk (advance frame) stop most offset 0 tt)

abbrev alone : (Bytes → Bool) → Bytes → Unit {0} → Option (Unit {0})
alone is_frame frame kept = if is_frame frame then some kept else none

-- The region is one valid frame or more in a row, fewer than `most`.
pub record IsFrames (is_frame : Bytes → Bool) (region : Bytes) (most : ℕ) : Type 0 where
  pub frames : List Bytes
  pub joined : join frames ≡ region
  pub valid : All (λ frame. is_frame frame ≡ true) frames
  pub some_frame : 0 < length frames
  pub few : length frames < most

module _ (frame : ℕ → Option ℕ) (is_frame : Bytes → Bool) (region : Bytes) where
  -- The length read at an offset is that of a valid frame which ends in the region.
  abbrev pub IsFrameSound : Type 0
  IsFrameSound =
      (offset n : ℕ)
      → frame offset ≡ some n
      → (0 < n) × (offset + n ≤ length region) × (is_frame (take n (drop offset region)) ≡ true)

  -- Where a valid frame starts, its length is read.
  abbrev pub IsFrameComplete : Type 0
  IsFrameComplete =
      (offset : ℕ) (unit rest : Bytes)
      → drop offset region ≡ unit ++ rest
      → is_frame unit ≡ true
      → (0 < length unit) × (frame offset ≡ some (length unit))

read_units-All :
    (is_frame : Bytes → Bool) (frames : List Bytes) (kept last : Unit {0})
    → read_units (alone is_frame) frames kept ≡ some last
    → All (λ frame. is_frame frame ≡ true) frames
unfolding read_units
read_units-All is_frame [] kept last h = tt
read_units-All is_frame (f ∷ fs) kept last h = elim (Bool-cases (is_frame f)) [
  | inl valid ↦ (valid, read_units-All is_frame fs kept last (rw (valid, read_units) at h))
  | inr invalid ↦ absurd (cc (rw (invalid, read_units) at h))
]

All-read_units :
    (is_frame : Bytes → Bool) (frames : List Bytes) (kept : Unit {0})
    → All (λ frame. is_frame frame ≡ true) frames
    → read_units (alone is_frame) frames kept ≡ some kept
unfolding read_units
All-read_units is_frame [] kept h = refl
All-read_units is_frame (f ∷ fs) kept (valid, h) =
    rw (valid, read_units) (All-read_units is_frame fs kept h)

module _ (frame : ℕ → Option ℕ) (is_frame : Bytes → Bool) (region : Bytes) where
  pub frames_loop-IsFrames :
      IsFrameSound frame is_frame region
      → (most offset : ℕ) → frames_loop frame most (length region) offset ≡ true
      → IsFrames is_frame (drop offset region) most
  unfolding frames_loop
  frames_loop-IsFrames sound most offset h =
      let (last, k, some_frame, few, u) =
        ends-IsRow (advance frame) (alone is_frame) region sound' most offset tt h in
      record {
        frames = u.units;
        joined = u.joined;
        valid = read_units-All is_frame u.units tt last u.accepted;
        some_frame = omega (arith, u.counted);
        few = omega (arith, u.counted);
      }
    where
      sound' :
          (offset n : ℕ) (kept kept' : Unit {0})
          → advance frame offset kept ≡ some (n, kept')
          → (0 < n)
            × (offset + n ≤ length region)
            × (alone is_frame (take n (drop offset region)) kept ≡ some kept')
      sound' offset n kept kept' h = ground (arith, sound offset n)

  pub IsFrames-frames_loop :
      IsFrameComplete frame is_frame region
      → (most offset : ℕ) → offset ≤ length region
      → IsFrames is_frame (drop offset region) most
      → frames_loop frame most (length region) offset ≡ true
  unfolding frames_loop
  IsFrames-frames_loop complete most offset le f =
      IsRow-ends (advance frame) (alone is_frame) region complete' most offset tt le (
        tt,
        length f.frames,
        f.some_frame,
        f.few,
        record {
          units = f.frames;
          joined = f.joined;
          accepted = All-read_units is_frame f.frames tt f.valid;
          counted = refl;
        },
      )
    where
      complete' :
          (offset : ℕ) (unit rest : Bytes) (kept kept' : Unit {0})
          → drop offset region ≡ unit ++ rest
          → alone is_frame unit kept ≡ some kept'
          → (0 < length unit) × (advance frame offset kept ≡ some (length unit, kept'))
      complete' offset unit rest kept kept' start valid = ground (arith, complete offset unit rest)

-- A region with a frame in it is as long as that frame.
pub IsFrames-length :
    (is_frame : Bytes → Bool) (region : Bytes) (most least : ℕ)
    → ((frame : Bytes) → is_frame frame ≡ true → least ≤ length frame)
    → IsFrames is_frame region most
    → least ≤ length region
IsFrames-length is_frame region most least long f =
    first f.frames f.valid f.some_frame (ap length f.joined)
  where
    first :
        (frames : List Bytes)
        → All (λ frame. is_frame frame ≡ true) frames
        → 0 < length frames
        → length (join frames) ≡ length region
        → least ≤ length region
    first [] valid h e = absurd (omega arith)
    first (frame ∷ frames) (valid, _) h e =
        omega (arith, long frame valid, length-append frame (join frames))
