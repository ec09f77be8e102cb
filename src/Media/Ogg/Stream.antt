-- ===== src/Media/Ogg/Stream.antt =====
-- A voice message that `matchesOggStructure` accepts with the Opus profile is one Ogg stream
-- (src/media/media-audio-structure.ts, src/media/media-ogg-opus-profile.ts).
use api_whats_app.Base.{
  ℕ, suc, ◌+◌, ◌%◌, ◌<◌, ◌≡◌, refl, sym, ap, ◌∙◌, Bool, true, false, ◌&&◌, not, Option, none, some,
  List, [], ◌∷◌, ◌==◌, ==_iff, length, arith, Option-cases, inl, inr, all,
}
use mathlib.Core.Path.{subst}
use mathlib.Core.Option.{some-injective}
use api_whats_app.Media.{Bytes, File, size, byte}
use api_whats_app.Media.Checks.{>>=-eq-some, require->>-eq-some, opened-eq_true}
use api_whats_app.Media.Walk.{Cursor, walk, join, read_units, walk-Units}
use api_whats_app.Media.Ogg.Opus.{Profile, new_profile, accept_page}
use api_whats_app.Media.Ogg.Opus.Serial.{accept_page-serial}
use api_whats_app.Media.Ogg.Pages.{
  is_page, accept, accept-is_page, body_bytes, accept-Alone, ogg_page-sound,
}
use api_whats_app.Media.Ogg.{
  StreamState, OggState, accept_opus, get, set, continued, bos, eos, serial_of, sequence_of, admits,
  continues, page_step, ogg_page, initial, max_pages, finished, is_over, matches_ogg,
}

-- What one page shows of its place in a stream.
pub record IsNumbered (serial number : ℕ) (page : Bytes) : Type 0 where
  pub framed : is_page page ≡ true
  pub serial_eq : serial_of page ≡ serial
  pub sequence_eq : sequence_of page ≡ number
  pub first : bos page ≡ (number == 0)

-- The pages are those of one stream from a number on: only the last ends it, and a page continues
-- a packet exactly when the page before it leaves one open.
abbrev pub IsStream : ℕ → ℕ → Bool → List Bytes → Type 0
IsStream serial number open_packet [] = ⊥
IsStream serial number open_packet (page ∷ []) =
    IsNumbered serial number page
    × (continued page ≡ open_packet)
    × (eos page ≡ true)
    × (continues page ≡ false)
IsStream serial number open_packet (page ∷ next ∷ rest) =
    IsNumbered serial number page
    × (continued page ≡ open_packet)
    × (eos page ≡ false)
    × IsStream serial (suc number) (continues page) (next ∷ rest)

-- Behind the last page no packet is open, and the stream has ended.
abbrev HasEnded : OggState → Type 0
HasEnded s = all is_over s.streams ≡ true

-- The state behind some pages of one stream.
record IsBehind (serial : ℕ) (stream : StreamState) (s : OggState) : Type 0 where
  profile : Profile
  alone : s.streams ≡ (serial, stream) ∷ []
  kept : s.opus ≡ some profile
  known : profile.serial ≡ some serial

abbrev after : Bytes → StreamState
after page = record {
  next_sequence = (sequence_of page + 1) % 4294967296;
  continued_packet = continues page;
  ended = eos page;
}

record Stepped (page : Bytes) (s s' : OggState) : Type 0 where
  admitted : admits (get (serial_of page) s.streams) page ≡ true
  closed : (eos page && continues page) ≡ false
  streams : s'.streams ≡ set (serial_of page) (after page) s.streams
  opus :
      (p : Profile)
      → s.opus ≡ some p
      → (q : Profile) × (accept_page p page ≡ some q) × (s'.opus ≡ some q)

page_step-Stepped :
    (page : Bytes) (n : ℕ) (s s' : OggState) → page_step page n s ≡ some s' → Stepped page s s'
unfolding page_step
page_step-Stepped page n s s' h =
    let (_, h1) = require->>-eq-some (not (continued page && byte page 26 == 0)) _ h in
    let (admitted, h2) = require->>-eq-some (admits (get (serial_of page) s.streams) page) _ h1 in
    let (closed, h3) = require->>-eq-some (not (eos page && continues page)) _ h2 in
    let (o, accepted, h4) = >>=-eq-some (accept_opus s.opus page) _ h3 in
    let e = some-injective _ _ h4 in
    record {
      admitted = admitted;
      closed = ground (arith, closed);
      streams = ap OggState.streams (sym e);
      opus = λ p kept.
          let (q, next, h5) = >>=-eq-some (accept_page p page) _ (rw kept at accepted) in
          (q, next, ap OggState.opus (sym e) ∙ sym (some-injective _ _ h5));
    }

module _ (page : Bytes) (s s' : OggState) (step : Stepped page s s') where
  -- The first page of the file starts its stream.
  first_page :
      (p : Profile)
      → s.streams ≡ []
      → s.opus ≡ some p
      → (bos page ≡ true)
        × (continued page ≡ false)
        × (sequence_of page ≡ 0)
        × IsBehind (serial_of page) (after page) s'
  unfolding admits get set
  first_page p empty kept =
      let (q, accepted, kept') = step.opus p kept in
      let fresh = rw empty at step.admitted in
      (
        ground (arith, fresh),
        ground (arith, fresh),
        ground (arith, fresh),
        record {
          profile = q;
          alone = rw empty at step.streams;
          kept = kept';
          known = (accept_page-serial p page accepted).1;
        },
      )

  -- Any later page continues it.
  later_page :
      (serial : ℕ) (stream : StreamState)
      → IsBehind serial stream s
      → (stream.ended ≡ false)
        × (bos page ≡ false)
        × (sequence_of page ≡ stream.next_sequence)
        × (continued page ≡ stream.continued_packet)
        × (serial_of page ≡ serial)
        × IsBehind serial (after page) s'
  unfolding admits get set
  later_page serial stream b =
      let (q, accepted, kept') = step.opus b.profile b.kept in
      let (same, known) = accept_page-serial b.profile page accepted in
      let serial_eq : serial_of page ≡ serial = (==_iff _ _).0 (rw b.known at same) in
      let hit : (serial == serial_of page) ≡ true = (==_iff _ _).1 (sym serial_eq) in
      let prior = rw (b.alone, get, hit) at step.admitted in
      let streams = rw (b.alone, set, hit) at step.streams in
      (
        ground (arith, prior),
        ground (arith, prior),
        ground (arith, prior),
        ground (arith, prior),
        serial_eq,
        record { profile = q; alone = streams; kept = kept'; known = known ∙ ap some serial_eq },
      )

-- The state behind the last page says whether its stream has ended.
last_page :
    (serial : ℕ) (stream : StreamState) (s : OggState)
    → IsBehind serial stream s
    → HasEnded s
    → (stream.ended ≡ true) × (stream.continued_packet ≡ false)
last_page serial stream s b over =
    let one = rw b.alone at over in (ground (arith, one), ground (arith, one))

record Advanced (serial number : ℕ) (stream : StreamState) (page : Bytes) (s s1 : OggState)
    : Type 0 where
  going : stream.ended ≡ false
  numbered : IsNumbered serial (suc number) page
  open_packet : continued page ≡ stream.continued_packet
  behind : IsBehind serial (after page) s1

accept-Advanced :
    (serial number : ℕ) (stream : StreamState) (page : Bytes) (s s1 : OggState)
    → IsBehind serial stream s
    → stream.next_sequence ≡ suc number
    → accept page s ≡ some s1
    → Advanced serial number stream page s s1
accept-Advanced serial number stream page s s1 b at_number accepted =
    let step =
      page_step-Stepped page (body_bytes page) s s1 (accept-Alone page s s1 accepted).stepped in
    let (going, later, sequence, open_packet, serial_eq, behind) =
      later_page page s s1 step serial stream b in
    record {
      going = going;
      numbered = record {
        framed = accept-is_page page s s1 accepted;
        serial_eq = serial_eq;
        sequence_eq = sequence ∙ at_number;
        first = ground (arith, later);
      };
      open_packet = open_packet;
      behind = behind;
    }

run-IsStream :
    (page : Bytes) (rest : List Bytes) (serial number : ℕ) (stream : StreamState)
    (s last : OggState)
    → IsBehind serial stream s
    → read_units accept (page ∷ rest) s ≡ some last
    → HasEnded last
    → stream.next_sequence ≡ suc number
    → number + length (page ∷ rest) < 4294967295
    → (stream.ended ≡ false) × IsStream serial (suc number) stream.continued_packet (page ∷ rest)
unfolding read_units
run-IsStream page [] serial number stream s last b h over at_number few =
    elim (Option-cases (accept page s)) [
      | inl refused ↦ absurd (cc (rw (refused, read_units) at h))
      | inr (s1, accepted) ↦
          let a = accept-Advanced serial number stream page s s1 b at_number accepted in
          let same : s1 ≡ last = some-injective _ _ (rw (accepted, read_units) at h) in
          let (ended, closed) =
            last_page serial (after page) s1 a.behind (subst HasEnded (sym same) over) in
          (a.going, (a.numbered, a.open_packet, ended, closed))
    ]
run-IsStream page (next ∷ rest) serial number stream s last b h over at_number few =
    elim (Option-cases (accept page s)) [
      | inl refused ↦ absurd (cc (rw (refused, read_units) at h))
      | inr (s1, accepted) ↦
          let a = accept-Advanced serial number stream page s s1 b at_number accepted in
          let sequence = a.numbered.sequence_eq in
          let (going, stream_on) =
            run-IsStream next rest serial (suc number) (after page) s1 last a.behind
              (rw (accepted, read_units) at h) over (omega arith) (omega arith) in
          (a.going, (a.numbered, a.open_packet, going, stream_on))
    ]

record Started (page : Bytes) (s1 : OggState) : Type 0 where
  numbered : IsNumbered (serial_of page) 0 page
  closed : continued page ≡ false
  behind : IsBehind (serial_of page) (after page) s1

accept-Started :
    (page : Bytes) (s1 : OggState) → accept page (initial true) ≡ some s1 → Started page s1
accept-Started page s1 accepted =
    let step =
      page_step-Stepped page (body_bytes page) (initial true) s1
        (accept-Alone page (initial true) s1 accepted).stepped in
    let (first, closed, sequence, behind) =
      first_page page (initial true) s1 step new_profile refl refl in
    record {
      numbered = record {
        framed = accept-is_page page (initial true) s1 accepted;
        serial_eq = refl;
        sequence_eq = sequence;
        first = ground (arith, first);
      };
      closed = closed;
      behind = behind;
    }

start-IsStream :
    (page : Bytes) (rest : List Bytes) (last : OggState)
    → read_units accept (page ∷ rest) (initial true) ≡ some last
    → HasEnded last
    → length (page ∷ rest) < max_pages
    → IsStream (serial_of page) 0 false (page ∷ rest)
unfolding read_units
start-IsStream page [] last h over few = elim (Option-cases (accept page (initial true))) [
  | inl refused ↦ absurd (cc (rw (refused, read_units) at h))
  | inr (s1, accepted) ↦
      let a = accept-Started page s1 accepted in
      let same : s1 ≡ last = some-injective _ _ (rw (accepted, read_units) at h) in
      let (ended, closed) =
        last_page (serial_of page) (after page) s1 a.behind (subst HasEnded (sym same) over) in
      (a.numbered, a.closed, ended, closed)
]
start-IsStream page (next ∷ rest) last h over few =
    elim (Option-cases (accept page (initial true))) [
      | inl refused ↦ absurd (cc (rw (refused, read_units) at h))
      | inr (s1, accepted) ↦
          let a = accept-Started page s1 accepted in
          let sequence = a.numbered.sequence_eq in
          let (going, stream_on) =
            run-IsStream next rest (serial_of page) 0 (after page) s1 last a.behind
              (rw (accepted, read_units) at h) over (omega arith) (omega arith) in
          (a.numbered, a.closed, going, stream_on)
    ]

finished-HasEnded :
    (stop : ℕ) (w : Option (Cursor OggState))
    → finished stop w ≡ true
    → (c : Cursor OggState) × (w ≡ some c)
      × (c.offset ≡ stop)
      × (0 < c.count)
      × (c.count < max_pages)
      × HasEnded c.state
unfolding finished
finished-HasEnded stop none h = absurd (cc)
finished-HasEnded stop (some c) h =
    (c, refl, ground arith, ground arith, ground arith, ground arith)

-- A voice message is accepted only if its bytes are a row of pages, framed and checked by
-- themselves, of one stream: all have the same serial, they are numbered 0, 1, 2, ... without a gap,
-- the first and no other starts the stream, the last and no other ends it, and a page continues a
-- packet exactly when the page before it leaves one open.
pub matches_ogg-IsStream :
    (file : File)
    → matches_ogg true file ≡ true
    → (pages : List Bytes) × (serial : ℕ) × (join pages ≡ file.bytes)
      × IsStream serial 0 false pages
unfolding matches_ogg
matches_ogg-IsStream file h =
    let (_, _, body) = opened-eq_true file.is_file 28 (size file) _ h in
    let (c, walked, at_end, some_page, few, over) =
      finished-HasEnded (size file)
        (walk (ogg_page file.bytes) (size file) max_pages 0 0 (initial true)) body in
    let (k, counted, u) =
      walk-Units (ogg_page file.bytes) accept file.bytes (ogg_page-sound file.bytes) max_pages 0 0
        (initial true) walked at_end in
    from u.units u.joined u.accepted over (omega (arith, u.counted)) (omega (arith, u.counted))
  where
    from :
        (pages : List Bytes) {last : OggState}
        → join pages ≡ file.bytes
        → read_units accept pages (initial true) ≡ some last
        → HasEnded last
        → 0 < length pages
        → length pages < max_pages
        → (pages : List Bytes) × (serial : ℕ) × (join pages ≡ file.bytes)
          × IsStream serial 0 false pages
    from [] joined accepted over some_page few = absurd (omega arith)
    from (page ∷ rest) {last} joined accepted over some_page few =
        (page ∷ rest, serial_of page, joined, start-IsStream page rest last accepted over few)
