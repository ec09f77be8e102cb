-- ===== src/Media/Ogg.antt =====
-- `matchesOggStructure` of src/media/media-audio-structure.ts: the pages of an Ogg file, their
-- checksums, and what the streams remember from page to page. Opus is the profile that the upload asks
-- for; Pages and Stream hold the proofs.
pub mod Opus
pub mod Crc
pub mod Pages
pub mod Stream
use api_whats_app.Base.{
  ℕ, ◌+◌, ◌-◌, ◌*◌, ◌/◌, ◌%◌, Bool, true, false, ◌&&◌, ◌||◌, not, Option, none, some, List, [], ◌∷◌,
  ◌==◌, ltb, if◌then◌else◌, text, length, take, all,
}
use api_whats_app.Media.{
  Bytes, File, size, byte, equals, subarray, u32_le, read_exactly, ◌>>=◌, ◌>>◌, require,
}
use api_whats_app.Media.Checks.{opened}
use api_whats_app.Media.Walk.{walk, Cursor}
use api_whats_app.Media.Ogg.Crc.{has_valid_crc}
use api_whats_app.Media.Ogg.Opus.{Profile, new_profile, accept_page, is_complete, sum}

-- `OggStreamState`
pub record StreamState : Type 0 where
  pub next_sequence : ℕ
  pub continued_packet : Bool
  pub ended : Bool

abbrev pub Streams : Type 0
Streams = List (ℕ × StreamState)

-- `streams.get(serial)` and `streams.set(serial, state)`
pub get : ℕ → Streams → Option StreamState
get serial [] = none
get serial ((key, state) ∷ rest) = if key == serial then some state else get serial rest

pub set : ℕ → StreamState → Streams → Streams
set serial state [] = (serial, state) ∷ []
set serial state ((key, old) ∷ rest) =
    if key == serial then (key, state) ∷ rest else (key, old) ∷ set serial state rest

-- What the loop keeps; no profile where none is asked for.
pub record OggState : Type 0 where
  pub streams : Streams
  pub opus : Option Profile
  pub saw_payload : Bool

abbrev pub max_pages : ℕ
max_pages = 100000

abbrev pub max_page_bytes : ℕ
max_page_bytes = 65307

-- The flags of a page: continued, first of its stream, last of its stream.
abbrev pub continued : Bytes → Bool
continued page = not (byte page 5 % 2 == 0)

abbrev pub bos : Bytes → Bool
bos page = not (byte page 5 / 2 % 2 == 0)

abbrev pub eos : Bytes → Bool
eos page = not (byte page 5 / 4 % 2 == 0)

abbrev pub serial_of : Bytes → ℕ
serial_of page = u32_le page 14

abbrev pub sequence_of : Bytes → ℕ
sequence_of page = u32_le page 18

abbrev same : Bool → Bool → Bool
same true b = b
same false b = not b

-- Whether a page may come next in its stream.
pub admits : Option StreamState → Bytes → Bool
admits none page = bos page && (not (continued page) && sequence_of page == 0)
admits (some prior) page =
    not prior.ended
    && (not (bos page)
        && (sequence_of page == prior.next_sequence
            && same (continued page) prior.continued_packet))

abbrev pub accept_opus : Option Profile → Bytes → Option (Option Profile)
accept_opus none page = some none
accept_opus (some profile) page = accept_page profile page >>= (λ next. some (some next))

-- `segmentCount > 0 && lacing[segmentCount - 1] === 255`
abbrev pub continues : Bytes → Bool
continues page = ltb 0 (byte page 26) && byte page (26 + byte page 26) == 255

-- What a page that is framed well does to the state.
unfoldable pub page_step : Bytes → ℕ → OggState → Option OggState
unfolding admits set get
page_step page body_bytes s = do
  require (not (continued page && byte page 26 == 0))
  require (admits (get (serial_of page) s.streams) page)
  require (not (eos page && continues page))
  opus ← accept_opus s.opus page
  some (record {
    streams =
        set (serial_of page)
          (record {
            next_sequence = (sequence_of page + 1) % 4294967296;
            continued_packet = continues page;
            ended = eos page;
          })
          s.streams;
    opus = opus;
    saw_payload = s.saw_payload || ltb 0 body_bytes;
  })

-- The fixed part of the header is that of an Ogg page of version 0.
abbrev pub is_page_header : Bytes → Bool
is_page_header fixed =
    equals (subarray fixed 0 4) (text "OggS") && (byte fixed 4 == 0 && byte fixed 5 / 8 == 0)

-- The body of the loop: the page at `offset`.
unfoldable pub ogg_page : Bytes → ℕ → OggState → Option (ℕ × OggState)
ogg_page bytes offset s = do
  fixed ← read_exactly bytes 27 offset
  require (is_page_header fixed)
  lacing ← read_exactly bytes (byte fixed 26) (offset + 27)
  let page_bytes = 27 + byte fixed 26 + sum lacing
  require (not (ltb max_page_bytes page_bytes || ltb (length bytes) (offset + page_bytes)))
  page ← read_exactly bytes page_bytes offset
  require (has_valid_crc page)
  s' ← page_step page (sum lacing) s
  some (page_bytes, s')

abbrev pub initial : Bool → OggState
initial require_opus_profile = record {
  streams = [];
  opus = if require_opus_profile then some new_profile else none;
  saw_payload = false;
}

abbrev opus_complete : Option Profile → Bool
opus_complete none = true
opus_complete (some profile) = is_complete profile

abbrev pub is_over : ℕ × StreamState → Bool
is_over (serial, state) = state.ended && not state.continued_packet

-- The verdict behind the loop.
unfoldable pub finished : ℕ → Option (Cursor OggState) → Bool
finished stop none = false
finished stop (some c) =
    c.offset == stop
    && ltb 0 c.count
    && ltb c.count max_pages
    && (c.state.saw_payload
        && ltb 0 (length c.state.streams)
        && opus_complete c.state.opus
        && all is_over c.state.streams)

unfoldable pub matches_ogg : Bool → File → Bool
matches_ogg require_opus_profile file = opened file.is_file 28 (size file) (
    finished (size file)
      (walk (ogg_page file.bytes) (size file) max_pages 0 0 (initial require_opus_profile)))
