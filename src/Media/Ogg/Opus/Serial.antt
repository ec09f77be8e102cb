-- ===== src/Media/Ogg/Opus/Serial.antt =====
-- The profile of src/media/media-ogg-opus-profile.ts stays with the serial of its first page.
use api_whats_app.Base.{
  ◌+◌, ◌≡◌, ◌∙◌, Bool, true, false, ◌||◌, not, Option, some, [], ◌∷◌, ◌++◌, ◌==◌, ltb, bit_and, ◌^◌,
  ◌-◌, length, take, drop, if◌then◌else◌, arith, Bool-cases, inl, inr,
}
use api_whats_app.Media.{Bytes, byte, subarray, u32_le, ◌>>◌, require}
use api_whats_app.Media.Checks.{>>=-eq-some, require->>-eq-some}
use api_whats_app.Media.Ogg.Opus.{
  Phase, head, tags, Profile, sum, complete_packet, lace, accept_head, accept_packets, accept_in,
  same_serial, accept_page, limit, granule, is_complete,
}

complete_packet-serial :
    (phase : Phase) (p : Profile) (z : Bool) (rest : Bytes) {q : Profile}
    → complete_packet phase p z rest ≡ some q
    → q.serial ≡ p.serial
unfolding complete_packet
complete_packet-serial tags p z rest h = ground arith
complete_packet-serial _ p z rest h = ground arith

lace-serial :
    (lacing body : Bytes) (z : Bool) (p : Profile) (completed : Bool) {r : Profile × Bool}
    → lace lacing body z p completed ≡ some r
    → r.0.serial ≡ p.serial
unfolding lace
lace-serial [] body z p completed h = ground arith
lace-serial (n ∷ rest) body z p completed h =
    let p' = record p { packet = p.packet ++ take n body } in
    elim (Bool-cases (ltb (limit p.phase) (length p.packet + n))) [
      | inl over ↦ absurd (cc (rw (over, lace) at h))
      | inr room ↦ elim (Bool-cases (n == 255)) [
        | inl more ↦ lace-serial rest (drop n body) z p' completed (rw (room, more, lace) at h)
        | inr last ↦
            let (q, done, h1) =
              >>=-eq-some (complete_packet p.phase p' z rest) _ (rw (room, last, lace) at h) in
            lace-serial rest (drop n body) z q true h1
            ∙ complete_packet-serial p.phase p' z rest done
      ]
    ]

accept_head-serial :
    (p : Profile) (page lacing body : Bytes) {q : Profile}
    → accept_head p page lacing body ≡ some q
    → q.serial ≡ p.serial
unfolding accept_head
accept_head-serial p page lacing body h = ground arith

-- What the end of a page does to the profile.
abbrev page_end : Bytes → Profile × Bool → Option Profile
page_end page (q, completed) = do
  require (if completed then ltb (granule page) (2 ^ 63) else granule page == 2 ^ 64 - 1)
  let q' = record q { ended = not (bit_and (byte page 5) 4 == 0) }
  require (not q'.ended || is_complete q')
  some q'

page_end-serial :
    (page : Bytes) (r : Profile × Bool) {q : Profile}
    → page_end page r ≡ some q
    → q.serial ≡ r.0.serial
page_end-serial page r h = ground arith

accept_packets-serial :
    (p : Profile) (page lacing body : Bytes) {q : Profile}
    → accept_packets p page lacing body ≡ some q
    → q.serial ≡ p.serial
unfolding accept_packets
accept_packets-serial p page lacing body h =
    let (_, h1) = require->>-eq-some (not (byte page 26 == 0)) _ h in
    let (r, laced, h2) =
      >>=-eq-some (lace lacing body (granule page == 0) p false) (page_end page) h1 in
    page_end-serial page r h2 ∙ lace-serial lacing body (granule page == 0) p false laced

accept_in-serial :
    (phase : Phase) (p : Profile) (page lacing body : Bytes) {q : Profile}
    → accept_in phase p page lacing body ≡ some q
    → q.serial ≡ p.serial
unfolding accept_in
accept_in-serial head p page lacing body h = accept_head-serial p page lacing body h
accept_in-serial _ p page lacing body h = accept_packets-serial p page lacing body h

pub accept_page-serial :
    (p : Profile) (page : Bytes) {q : Profile}
    → accept_page p page ≡ some q
    → (same_serial p.serial (u32_le page 14) ≡ true) × (q.serial ≡ some (u32_le page 14))
unfolding accept_page
accept_page-serial p page h =
    let (_, h1) = require->>-eq-some (not (p.ended || ltb (length page) 27)) _ h in
    let (_, h2) = require->>-eq-some (not (ltb (length page) (27 + byte page 26))) _ h1 in
    let (same, h3) = require->>-eq-some (same_serial p.serial (u32_le page 14)) _ h2 in
    let (_, h4) =
      require->>-eq-some
        (sum (subarray page 27 (27 + byte page 26)) == length (drop (27 + byte page 26) page)) _
        h3 in
    (same, accept_in-serial p.phase (record p { serial = some (u32_le page 14) }) page _ _ h4)
