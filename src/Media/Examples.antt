-- ===== src/Media/Examples.antt =====
-- The theorems about src/media at small files, and runs of the checks on them.
use api_whats_app.Base.{
  ℕ, zero, suc, ◌≡◌, refl, ap, ◌↔◌, ◌⊎◌, Bool, true, false, some, List, [], ◌∷◌, arith, length,
  take, drop, min, length-take, length-drop, Text, text,
}
use api_whats_app.Media.{Bytes, File, read_exactly}
use api_whats_app.Media.Reads.{Handle, Reads, read_all, read_all-eq}
use api_whats_app.Media.Walk.{join, walk, ends}
use api_whats_app.Media.Frames.{IsFrames, frames_loop}
use api_whats_app.Media.Aac
use api_whats_app.Media.Aac.{matches_aac, adts_frame, adts_frame_bytes}
use api_whats_app.Media.Aac.Adts.{is_adts_frame, matches_aac_iff}
use api_whats_app.Media.Amr
use api_whats_app.Media.Amr.{
  magic, matches_amr, amr_frame, speech_bits, amr_frame_bits, padding_check,
}
use api_whats_app.Media.Amr.Rows.{is_amr_frame, matches_amr_iff}
use api_whats_app.Media.Mpeg.{matches_mpeg, audio_start, audio_end, id3v2_end, mpeg_frame}
use api_whats_app.Media.Mpeg.Lengths.{mpeg_audio_frame_length}
use api_whats_app.Media.Mpeg.Rows.{IsBetweenTags, matches_mpeg_iff}
use api_whats_app.Media.Ogg.{ogg_page, page_step, finished, matches_ogg}
use api_whats_app.Media.Ogg.Crc.{has_valid_crc}
use api_whats_app.Media.Ogg.Opus.{accept_page, matches_opus_tags, matches_opus_packet_framing}
use api_whats_app.Media.Ogg.Stream.{IsStream, matches_ogg-IsStream}
use api_whats_app.Media.Ooxml.{
  word, end_record_below, entry_at, directory_loop, parse_central_directory, matches_local_header,
  check_entries, check_package, matches_ooxml,
}
use api_whats_app.Media.Ooxml.Directory.{IsPackage, matches_ooxml-IsPackage}
use api_whats_app.Media.Upload.{
  given, clean, uploaded, Answers, World, UploadFile, accepts_fields, upload,
}
use api_whats_app.Media.Upload.Cleared.{IsCleared, upload-IsCleared}
use api_whats_app.Media.Upload.Settled.{Left, upload-Left}

abbrev voice : Bytes
voice =
    79 ∷ 103 ∷ 103 ∷ 83 ∷ 0 ∷ 2 ∷ 0 ∷ 0 ∷ 0 ∷ 0 ∷ 0 ∷ 0 ∷ 0 ∷ 0 ∷ 7 ∷ 0 ∷ 0 ∷ 0 ∷ 0 ∷ 0 ∷ 0 ∷ 0 ∷ 25
    ∷ 248 ∷ 25 ∷ 210 ∷ 1 ∷ 19 ∷ 79 ∷ 112 ∷ 117 ∷ 115 ∷ 72 ∷ 101 ∷ 97 ∷ 100 ∷ 1 ∷ 1 ∷ 0 ∷ 0 ∷ 128
    ∷ 187 ∷ 0 ∷ 0 ∷ 0 ∷ 0 ∷ 0 ∷ 79 ∷ 103 ∷ 103 ∷ 83 ∷ 0 ∷ 0 ∷ 0 ∷ 0 ∷ 0 ∷ 0 ∷ 0 ∷ 0 ∷ 0 ∷ 0 ∷ 7 ∷ 0
    ∷ 0 ∷ 0 ∷ 1 ∷ 0 ∷ 0 ∷ 0 ∷ 24 ∷ 192 ∷ 17 ∷ 168 ∷ 1 ∷ 16 ∷ 79 ∷ 112 ∷ 117 ∷ 115 ∷ 84 ∷ 97 ∷ 103
    ∷ 115 ∷ 0 ∷ 0 ∷ 0 ∷ 0 ∷ 0 ∷ 0 ∷ 0 ∷ 0 ∷ 79 ∷ 103 ∷ 103 ∷ 83 ∷ 0 ∷ 4 ∷ 192 ∷ 3 ∷ 0 ∷ 0 ∷ 0 ∷ 0
    ∷ 0 ∷ 0 ∷ 7 ∷ 0 ∷ 0 ∷ 0 ∷ 2 ∷ 0 ∷ 0 ∷ 0 ∷ 79 ∷ 141 ∷ 170 ∷ 49 ∷ 1 ∷ 3 ∷ 8 ∷ 1 ∷ 2 ∷ []

abbrev package_bytes : Bytes
package_bytes =
    80 ∷ 75 ∷ 3 ∷ 4 ∷ 20 ∷ 0 ∷ 0 ∷ 0 ∷ 0 ∷ 0 ∷ 0 ∷ 0 ∷ 0 ∷ 0 ∷ 0 ∷ 0 ∷ 0 ∷ 0 ∷ 0 ∷ 0 ∷ 0 ∷ 0 ∷ 0 ∷ 0
    ∷ 0 ∷ 0 ∷ 19 ∷ 0 ∷ 0 ∷ 0 ∷ 91 ∷ 67 ∷ 111 ∷ 110 ∷ 116 ∷ 101 ∷ 110 ∷ 116 ∷ 95 ∷ 84 ∷ 121 ∷ 112
    ∷ 101 ∷ 115 ∷ 93 ∷ 46 ∷ 120 ∷ 109 ∷ 108 ∷ 80 ∷ 75 ∷ 3 ∷ 4 ∷ 20 ∷ 0 ∷ 0 ∷ 0 ∷ 0 ∷ 0 ∷ 0 ∷ 0 ∷ 0
    ∷ 0 ∷ 0 ∷ 0 ∷ 0 ∷ 0 ∷ 0 ∷ 0 ∷ 0 ∷ 0 ∷ 0 ∷ 0 ∷ 0 ∷ 0 ∷ 17 ∷ 0 ∷ 0 ∷ 0 ∷ 119 ∷ 111 ∷ 114 ∷ 100
    ∷ 47 ∷ 100 ∷ 111 ∷ 99 ∷ 117 ∷ 109 ∷ 101 ∷ 110 ∷ 116 ∷ 46 ∷ 120 ∷ 109 ∷ 108 ∷ 80 ∷ 75 ∷ 1 ∷ 2
    ∷ 20 ∷ 0 ∷ 20 ∷ 0 ∷ 0 ∷ 0 ∷ 0 ∷ 0 ∷ 0 ∷ 0 ∷ 0 ∷ 0 ∷ 0 ∷ 0 ∷ 0 ∷ 0 ∷ 0 ∷ 0 ∷ 0 ∷ 0 ∷ 0 ∷ 0 ∷ 0
    ∷ 0 ∷ 19 ∷ 0 ∷ 0 ∷ 0 ∷ 0 ∷ 0 ∷ 0 ∷ 0 ∷ 0 ∷ 0 ∷ 0 ∷ 0 ∷ 0 ∷ 0 ∷ 0 ∷ 0 ∷ 0 ∷ 0 ∷ 91 ∷ 67 ∷ 111
    ∷ 110 ∷ 116 ∷ 101 ∷ 110 ∷ 116 ∷ 95 ∷ 84 ∷ 121 ∷ 112 ∷ 101 ∷ 115 ∷ 93 ∷ 46 ∷ 120 ∷ 109 ∷ 108 ∷ 80
    ∷ 75 ∷ 1 ∷ 2 ∷ 20 ∷ 0 ∷ 20 ∷ 0 ∷ 0 ∷ 0 ∷ 0 ∷ 0 ∷ 0 ∷ 0 ∷ 0 ∷ 0 ∷ 0 ∷ 0 ∷ 0 ∷ 0 ∷ 0 ∷ 0 ∷ 0 ∷ 0
    ∷ 0 ∷ 0 ∷ 0 ∷ 0 ∷ 17 ∷ 0 ∷ 0 ∷ 0 ∷ 0 ∷ 0 ∷ 0 ∷ 0 ∷ 0 ∷ 0 ∷ 0 ∷ 0 ∷ 0 ∷ 0 ∷ 49 ∷ 0 ∷ 0 ∷ 0 ∷ 119
    ∷ 111 ∷ 114 ∷ 100 ∷ 47 ∷ 100 ∷ 111 ∷ 99 ∷ 117 ∷ 109 ∷ 101 ∷ 110 ∷ 116 ∷ 46 ∷ 120 ∷ 109 ∷ 108
    ∷ 80 ∷ 75 ∷ 5 ∷ 6 ∷ 0 ∷ 0 ∷ 0 ∷ 0 ∷ 2 ∷ 0 ∷ 2 ∷ 0 ∷ 128 ∷ 0 ∷ 0 ∷ 0 ∷ 96 ∷ 0 ∷ 0 ∷ 0 ∷ 0 ∷ 0
    ∷ []

abbrev adts_bytes : Bytes
adts_bytes =
    255 ∷ 241 ∷ 80 ∷ 128 ∷ 1 ∷ 63 ∷ 252 ∷ 1 ∷ 2 ∷ 255 ∷ 241 ∷ 80 ∷ 128 ∷ 1 ∷ 63 ∷ 252 ∷ 1 ∷ 2 ∷ []

abbrev amr_bytes : Bytes
amr_bytes =
    35 ∷ 33 ∷ 65 ∷ 77 ∷ 82 ∷ 10 ∷ 60 ∷ 0 ∷ 0 ∷ 0 ∷ 0 ∷ 0 ∷ 0 ∷ 0 ∷ 0 ∷ 0 ∷ 0 ∷ 0 ∷ 0 ∷ 0 ∷ 0 ∷ 0 ∷ 0
    ∷ 0 ∷ 0 ∷ 0 ∷ 0 ∷ 0 ∷ 0 ∷ 0 ∷ 0 ∷ 0 ∷ 0 ∷ 0 ∷ 0 ∷ 0 ∷ 0 ∷ 0 ∷ []

abbrev mp3_bytes : Bytes
mp3_bytes =
    73 ∷ 68 ∷ 51 ∷ 3 ∷ 0 ∷ 0 ∷ 0 ∷ 0 ∷ 0 ∷ 0 ∷ 255 ∷ 243 ∷ 20 ∷ 0 ∷ 0 ∷ 0 ∷ 0 ∷ 0 ∷ 0 ∷ 0 ∷ 0 ∷ 0
    ∷ 0 ∷ 0 ∷ 0 ∷ 0 ∷ 0 ∷ 0 ∷ 0 ∷ 0 ∷ 0 ∷ 0 ∷ 0 ∷ 0 ∷ 255 ∷ 243 ∷ 20 ∷ 0 ∷ 0 ∷ 0 ∷ 0 ∷ 0 ∷ 0 ∷ 0 ∷ 0
    ∷ 0 ∷ 0 ∷ 0 ∷ 0 ∷ 0 ∷ 0 ∷ 0 ∷ 0 ∷ 0 ∷ 0 ∷ 0 ∷ 0 ∷ 0 ∷ []

abbrev regular : Bytes → File
regular bytes = record { is_file = true; bytes = bytes }

-- A handle that returns two bytes at most at a time.
abbrev two_at_a_time : Bytes → Handle
two_at_a_time bytes count position = take (min count 2) (drop position bytes)

take_self : (n : ℕ) (xs : Bytes) → take n xs ≡ take (length (take n xs)) xs
take_self zero xs = refl
take_self (suc n) [] = refl
take_self (suc n) (x ∷ xs) = ap (λ r. x ∷ r) (take_self n xs)

two-Reads : (bytes : Bytes) → Reads bytes (two_at_a_time bytes)
two-Reads bytes = record {
  prefix = λ count position. take_self (min count 2) (drop position bytes);
  short = λ count position. omega (arith, length-take (min count 2) (drop position bytes));
  progress = λ count position some_count inside.
      omega (arith, length-take (min count 2) (drop position bytes), length-drop position bytes);
}

read_all-eq_example : read_all (two_at_a_time adts_bytes) 7 9 ≡ read_exactly adts_bytes 7 9
read_all-eq_example = read_all-eq adts_bytes (two_at_a_time adts_bytes) (two-Reads adts_bytes) 7 9

matches_aac_iff_example :
    (matches_aac (regular adts_bytes) ≡ true)
    ↔ ((true ≡ true) × IsFrames is_adts_frame adts_bytes Aac.max_frames)
matches_aac_iff_example = matches_aac_iff (regular adts_bytes) refl

matches_amr_iff_example : (matches_amr (regular amr_bytes) ≡ true) ↔ (
    (true ≡ true)
    × (wideband : Bool) × (take (length (magic wideband)) amr_bytes ≡ magic wideband)
    × IsFrames (is_amr_frame wideband) (drop (length (magic wideband)) amr_bytes) Amr.max_frames)
matches_amr_iff_example = matches_amr_iff (regular amr_bytes)

matches_mpeg_iff_example :
    (matches_mpeg (regular mp3_bytes) ≡ true) ↔ IsBetweenTags (regular mp3_bytes)
matches_mpeg_iff_example = matches_mpeg_iff (regular mp3_bytes)

adts_is_accepted : matches_aac (regular adts_bytes) ≡ true
unfolding matches_aac adts_frame adts_frame_bytes frames_loop walk ends read_exactly
adts_is_accepted = refl

amr_is_accepted : matches_amr (regular amr_bytes) ≡ true
unfolding matches_amr amr_frame speech_bits amr_frame_bits padding_check frames_loop walk ends
    read_exactly
amr_is_accepted = refl

mp3_is_accepted : matches_mpeg (regular mp3_bytes) ≡ true
unfolding matches_mpeg audio_start audio_end id3v2_end mpeg_frame mpeg_audio_frame_length
    frames_loop walk ends read_exactly
mp3_is_accepted = refl

voice_is_accepted : matches_ogg true (regular voice) ≡ true
unfolding matches_ogg walk ogg_page page_step finished has_valid_crc accept_page matches_opus_tags
    matches_opus_packet_framing read_exactly
voice_is_accepted = refl

matches_ogg-IsStream_example :
    (pages : List Bytes) × (serial : ℕ) × (join pages ≡ voice) × IsStream serial 0 false pages
matches_ogg-IsStream_example = matches_ogg-IsStream (regular voice) voice_is_accepted

abbrev decode : Bytes → Text
decode bytes = bytes

package_is_accepted : matches_ooxml decode word (regular package_bytes) ≡ true
unfolding matches_ooxml check_package end_record_below parse_central_directory directory_loop
    entry_at check_entries matches_local_header read_exactly
package_is_accepted = refl

matches_ooxml-IsPackage_example : IsPackage decode package_bytes word
matches_ooxml-IsPackage_example =
    matches_ooxml-IsPackage decode word (regular package_bytes) package_is_accepted

abbrev note : UploadFile
note = record { mimetype = text "text/plain"; size = 2; content = regular (text "ok") }

abbrev answers : Answers
answers = record {
  is_uuid = λ value. false;
  now = 1000;
  asset_id = 5;
  sample_bytes = 8192;
  target = given (some (text "key"));
  capacity = given tt;
  scan = clean;
  clamav = true;
  ttl_days = some 30;
  sender = some 3;
  created = true;
  staged = given (some 900);
  stored = true;
  marked = true;
  others = λ assets. assets;
  meta = uploaded (text "m1");
  finalized = true;
  removed = true;
}

abbrev empty_registry : World
empty_registry = record { assets = []; sent = []; temporary = true }

upload-IsCleared_example :
    ((upload decode decode [] (some note) answers 1 empty_registry).1.sent ≡ [])
    ⊎ (((upload decode decode [] (some note) answers 1 empty_registry).1.sent ≡ 5 ∷ [])
        × (IsCleared decode decode answers note × (accepts_fields answers.is_uuid [] ≡ true)))
upload-IsCleared_example = upload-IsCleared decode decode answers 1 note empty_registry []

upload-Left_example : Left answers (upload decode decode [] (some note) answers 1 empty_registry)
upload-Left_example =
    upload-Left answers refl (λ xs. refl) decode decode 1 empty_registry refl [] (some note)
