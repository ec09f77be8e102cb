-- ===== src/Media/Png/Examples.antt =====
-- A PNG file of one pixel (src/media/media-image-structure.ts).
use api_whats_app.Base.{◌≡◌, refl, true, false, List, [], ◌∷◌, take, text}
use api_whats_app.Media.{Bytes, File, equals, read_exactly}
use api_whats_app.Media.Png.{validate_ihdr, png_signature, matches_png}
use api_whats_app.Media.Png.Steps.{ChunkAt}
use api_whats_app.Media.Png.Chunks.{Chunks, matches_png-Chunks}

abbrev pixel : File
pixel = record {
  is_file = true;
  bytes =
      137 ∷ 80 ∷ 78 ∷ 71 ∷ 13 ∷ 10 ∷ 26 ∷ 10 ∷ 0 ∷ 0 ∷ 0 ∷ 13 ∷ 73 ∷ 72 ∷ 68 ∷ 82 ∷ 0 ∷ 0 ∷ 0 ∷ 1
      ∷ 0 ∷ 0 ∷ 0 ∷ 1 ∷ 8 ∷ 0 ∷ 0 ∷ 0 ∷ 0 ∷ 58 ∷ 126 ∷ 155 ∷ 85 ∷ 0 ∷ 0 ∷ 0 ∷ 10 ∷ 73 ∷ 68 ∷ 65 ∷ 84
      ∷ 120 ∷ 156 ∷ 99 ∷ 96 ∷ 0 ∷ 0 ∷ 0 ∷ 2 ∷ 0 ∷ 1 ∷ 72 ∷ 175 ∷ 164 ∷ 113 ∷ 0 ∷ 0 ∷ 0 ∷ 0 ∷ 73 ∷ 69
      ∷ 78 ∷ 68 ∷ 174 ∷ 66 ∷ 96 ∷ 130 ∷ [];
}

pixel-accepted : matches_png pixel ≡ true
unfolding matches_png read_exactly validate_ihdr
pixel-accepted = refl

matches_png-Chunks_example :
    (take 8 pixel.bytes ≡ png_signature)
    × ((kind : Bytes) × (kinds : List Bytes) × ChunkAt pixel.bytes 8 kind 13
        × (equals kind (text "IHDR") ≡ true)
        × Chunks pixel.bytes false false 33 kinds)
matches_png-Chunks_example = matches_png-Chunks pixel pixel-accepted
