-- ===== src/Media/IsoBmff/Examples.antt =====
-- A small MP4 file (src/media/media-isobmff-structure.ts).
use api_whats_app.Base.{
  ℕ, ◌≤◌, ◌≡◌, refl, true, false, List, [], ◌∷◌, ◌++◌, length, any, Text, text,
}
use api_whats_app.Media.{Bytes, File, read_exactly}
use api_whats_app.Media.Walk.{walk}
use api_whats_app.Media.IsoBmff.{
  video_mp4, BoxHeader, max_top_level_boxes, parse_box_header, parse_file_type_box,
  matches_mime_family, file_type_step, box_at, all_found, matches_iso_bmff,
}
use api_whats_app.Media.IsoBmff.Boxes.{Boxes, is_kind, matches_iso_bmff-Boxes}

abbrev box : ℕ → Text → Bytes → Bytes
box n kind payload = 0 ∷ 0 ∷ 0 ∷ n ∷ kind ++ payload

-- A leading box, the file type, a movie, and media data to the end of the file.
abbrev movie : File
movie = record {
  is_file = true;
  bytes =
      box 8 (text "free") []
      ++ box 20 (text "ftyp") (text "isom" ++ 0 ∷ 0 ∷ 2 ∷ 0 ∷ text "mp41")
      ++ box 8 (text "moov") []
      ++ box 0 (text "mdat") (1 ∷ 2 ∷ 3 ∷ []);
}

movie-accepted : matches_iso_bmff video_mp4 movie ≡ true
unfolding matches_iso_bmff walk box_at parse_box_header parse_file_type_box matches_mime_family
    file_type_step all_found read_exactly
movie-accepted = refl

matches_iso_bmff-Boxes_example :
    (headers : List BoxHeader) × Boxes video_mp4 movie.bytes false 0 headers
    × (any (is_kind (text "moov")) headers ≡ true)
    × (any (is_kind (text "mdat")) headers ≡ true)
    × (length headers ≤ max_top_level_boxes)
matches_iso_bmff-Boxes_example = matches_iso_bmff-Boxes video_mp4 movie movie-accepted
