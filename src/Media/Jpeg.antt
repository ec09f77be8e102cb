-- ===== src/Media/Jpeg.antt =====
-- `matchesJpegStructure` of src/media/media-image-structure.ts: the segments of a JPEG file up to the
-- start of its scan.
use api_whats_app.Base.{
  ℕ, zero, suc, ◌+◌, ◌-◌, ◌*◌, Bool, true, false, ◌&&◌, ◌||◌, not, Option, none, some, [], ◌∷◌,
  ◌==◌, ltb, leb, if◌then◌else◌, drop,
}
use api_whats_app.Media.{
  Bytes, File, size, byte, equals, u16_be, read_exactly, ◌>>=◌, ◌>>◌, require, passes,
}
use api_whats_app.Media.Checks.{opened}

-- The loop over fill bytes: `rest` is the file from `offset` on.
marker_in : Bytes → ℕ → Option (ℕ × ℕ)
marker_in [] offset = none
marker_in (byte ∷ rest) offset =
    let next = marker_in rest (offset + 1) in
    if byte == 0xff then next else if byte == 0 then none else some (byte, offset + 1)

-- The code of the marker at `offset`, and the offset behind it.
pub read_marker : Bytes → ℕ → Option (ℕ × ℕ)
unfolding marker_in
read_marker bytes offset = do
  first ← read_exactly bytes 1 offset
  require (byte first 0 == 0xff)
  marker_in (drop offset bytes) offset

abbrev is_standalone : ℕ → Bool
is_standalone code = code == 1 || (leb 0xd0 code && leb code 0xd7)

abbrev is_start_of_frame : ℕ → Bool
is_start_of_frame code =
    (leb 0xc0 code && leb code 0xc3)
    || (leb 0xc5 code && leb code 0xc7)
    || (leb 0xc9 code && leb code 0xcb)
    || (leb 0xcd code && leb code 0xcf)

pub validate_start_of_frame : Bytes → ℕ → ℕ → Bool
validate_start_of_frame bytes offset n = passes (do
  require (not (ltb n 8))
  fixed ← read_exactly bytes 8 offset
  require (
      ltb 0 (u16_be fixed 5)
      && ltb 0 (u16_be fixed 3)
      && (ltb 0 (byte fixed 7) && n == 8 + byte fixed 7 * 3)))

pub validate_start_of_scan : Bytes → ℕ → ℕ → Bool
validate_start_of_scan bytes offset n = passes (do
  require (not (ltb n 8))
  prefix ← read_exactly bytes 3 offset
  require (ltb 0 (byte prefix 2) && n == 6 + byte prefix 2 * 2))

pub data Progress : Type 0 where
  stop : Bool → Progress
  go : ℕ → Bool → Progress

-- The segment behind a marker that has one; `end` is where the end-of-image marker starts.
jpeg_segment : Bytes → ℕ → ℕ → ℕ → Bool → Option Progress
unfolding validate_start_of_frame validate_start_of_scan
jpeg_segment bytes end code offset found = do
  length_bytes ← read_exactly bytes 2 offset
  let n = u16_be length_bytes 0
  require (not (ltb n 2 || ltb end (offset + n)))
  require (not (is_start_of_frame code && not (validate_start_of_frame bytes offset n)))
  let found' = found || is_start_of_frame code
  some (
      if code == 0xda
      then stop (found' && (validate_start_of_scan bytes offset n && ltb (offset + n) end))
      else go (offset + n) found')

-- The body of the loop.
pub jpeg_marker : Bytes → ℕ → ℕ → Bool → Option Progress
unfolding read_marker jpeg_segment
jpeg_marker bytes end offset found = do
  (code, next) ← read_marker bytes offset
  require (not (code == 0xd9))
  if is_standalone code then some (go next found) else jpeg_segment bytes end code next found

pub jpeg_loop : Bytes → ℕ → ℕ → ℕ → Bool → Bool
unfolding jpeg_marker
jpeg_loop bytes end zero offset found = false
jpeg_loop bytes end (suc rounds) offset found = elim (ltb offset end) [
  | false ↦ false
  | true ↦ elim (jpeg_marker bytes end offset found) [
    | none ↦ false
    | some (stop verdict) ↦ verdict
    | some (go next found') ↦ jpeg_loop bytes end rounds next found'
  ]
]

unfoldable pub matches_jpeg : File → Bool
unfolding jpeg_loop
matches_jpeg file = opened file.is_file 12 (size file) (
    passes (do
      first ← read_exactly file.bytes 2 0
      last ← read_exactly file.bytes 2 (size file - 2)
      require (equals first (0xff ∷ 0xd8 ∷ []) && equals last (0xff ∷ 0xd9 ∷ []))
      require (jpeg_loop file.bytes (size file - 2) 1024 2 false)))
