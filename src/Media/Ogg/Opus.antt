-- ===== src/Media/Ogg/Opus.antt =====
-- src/media/media-ogg-opus-profile.ts: class `OggOpusProfile`, `matchesOpusTags` and
-- `matchesOpusPacketFraming`. The buffer of the packet in progress is a list of its bytes; the granule
-- position is read as the unsigned number of its eight bytes.
pub mod Serial
use api_whats_app.Base.{
  ℕ, zero, suc, ◌+◌, ◌-◌, ◌*◌, ◌/◌, ◌%◌, ◌^◌, bit_and, Bool, true, false, ◌&&◌, ◌||◌, not, Option,
  none, some, List, [], ◌∷◌, ◌++◌, ◌==◌, ltb, leb, if◌then◌else◌, text, length, take, drop,
}
use api_whats_app.Media.{Bytes, byte, equals, subarray, u32_le, ◌>>=◌, ◌>>◌, require, passes}

pub data Phase : Type 0 where
  head tags audio : Phase

pub record Profile : Type 0 where
  pub serial : Option ℕ
  pub phase : Phase
  pub packet : Bytes
  pub audio_packets : ℕ
  pub ended : Bool

abbrev pub new_profile : Profile
new_profile = record { serial = none; phase = head; packet = []; audio_packets = 0; ended = false }

abbrev max_tag_bytes : ℕ
max_tag_bytes = 65536

abbrev max_audio_packet_bytes : ℕ
max_audio_packet_bytes = 61440

abbrev max_audio_packets : ℕ
max_audio_packets = 100000

abbrev max_frame_bytes : ℕ
max_frame_bytes = 1275

-- `lacing.reduce((sum, value) => sum + value, 0)`
abbrev pub sum : Bytes → ℕ
sum [] = 0
sum (value ∷ values) = value + sum values

-- The comments behind the vendor string; the padding behind them is not looked at.
tag_comments : Bytes → ℕ → ℕ → Bool
tag_comments packet zero offset = true
tag_comments packet (suc more) offset =
    let comment = u32_le packet offset in
    let rest = tag_comments packet more (offset + 4 + comment) in
    if ltb (length packet) (offset + 4)
    then false
    else if ltb (length packet - (offset + 4)) comment
    then false
    else rest

unfoldable pub matches_opus_tags : Bytes → Bool
unfolding tag_comments
matches_opus_tags packet =
    let vendor = u32_le packet 8 in
    let count = u32_le packet (12 + vendor) in
    if ltb (length packet) 16 || not (equals (subarray packet 0 8) (text "OpusTags"))
    then false
    else if ltb (length packet - 16) vendor
    then false
    else if ltb ((length packet - (16 + vendor)) / 4) count
    then false
    else tag_comments packet count (16 + vendor)

samples_per_frame : ℕ → ℕ
samples_per_frame config =
    if leb 16 config
    then 120 * 2 ^ (config % 4)
    else if leb 12 config
    then 480 * 2 ^ (config % 2)
    else if config % 4 == 3
    then 2880
    else 480 * 2 ^ (config % 4)

-- The padding bytes from `offset` on, which `rest` holds: the offset and the end after them.
padding : Bytes → ℕ → ℕ → Option (ℕ × ℕ)
padding [] offset end = none
padding (byte ∷ rest) offset end =
    let end' = end - (if byte == 255 then 254 else byte) in
    let more = padding rest (offset + 1) end' in
    if leb end offset
    then none
    else if ltb end' (offset + 1)
    then none
    else if byte == 255
    then more
    else some (offset + 1, end')

-- The declared lengths of all frames but the last.
declared : Bytes → ℕ → ℕ → ℕ → ℕ → Option (ℕ × ℕ)
declared packet end zero offset total = some (offset, total)
declared packet end (suc more) offset total =
    let length = byte packet offset in
    let after = if leb 252 length then offset + 2 else offset + 1 in
    let total' =
      total + (if leb 252 length then length + 4 * byte packet (offset + 1) else length) in
    let rest = declared packet end more after total' in
    if leb end offset || (leb 252 length && leb end (offset + 1))
    then none
    else if ltb (end - after) total'
    then none
    else rest

last_frame_fits : ℕ → Option (ℕ × ℕ) → Bool
last_frame_fits end none = false
last_frame_fits end (some (offset, total)) = leb (end - offset - total) max_frame_bytes

-- The frames of an arbitrary number behind a control byte (code 3).
arbitrary_frames : Bytes → ℕ → Bool
unfolding samples_per_frame padding declared last_frame_fits
arbitrary_frames packet config =
    let control = byte packet 1 in
    let frames = control % 64 in
    let padded =
      if bit_and control 0x40 == 0
      then some (2, length packet)
      else padding (drop 2 packet) 2 (length packet) in
    if leb (length packet) 1 || (frames == 0 || ltb 5760 (samples_per_frame config * frames))
    then false
    else elim padded [
      | none ↦ false
      | some (offset, end) ↦
          if bit_and control 0x80 == 0
          then (end - offset) % frames == 0 && leb ((end - offset) / frames) max_frame_bytes
          else last_frame_fits end (declared packet end (frames - 1) offset 0)
    ]

unfoldable pub matches_opus_packet_framing : Bytes → Bool
unfolding arbitrary_frames declared last_frame_fits
matches_opus_packet_framing packet =
    let code = byte packet 0 % 4 in
    if length packet == 0 || ltb max_audio_packet_bytes (length packet)
    then false
    else if code == 0
    then leb (length packet - 1) max_frame_bytes
    else if code == 1
    then (length packet - 1) % 2 == 0 && leb ((length packet - 1) / 2) max_frame_bytes
    else if code == 2
    then last_frame_fits (length packet) (declared packet (length packet) 1 1 0)
    else arbitrary_frames packet (byte packet 0 / 8)

-- `this.ended && this.phase === "audio" && this.audioPackets > 0 && this.packetBytes === 0`
abbrev in_audio : Phase → Bool
in_audio audio = true
in_audio _ = false

abbrev pub is_complete : Profile → Bool
is_complete p = p.ended && (in_audio p.phase && (ltb 0 p.audio_packets && length p.packet == 0))

abbrev pub limit : Phase → ℕ
limit tags = max_tag_bytes
limit _ = max_audio_packet_bytes

-- A packet is complete: `rest` is what is left of the lacing.
pub complete_packet : Phase → Profile → Bool → Bytes → Option Profile
complete_packet tags p granule_zero rest = do
  require (length rest == 0 && (granule_zero && matches_opus_tags p.packet))
  some (record p { phase = audio; packet = [] })
complete_packet _ p granule_zero rest = do
  require (ltb p.audio_packets max_audio_packets && matches_opus_packet_framing p.packet)
  some (record p { packet = []; audio_packets = p.audio_packets + 1 })

-- The loop over the lacing: the profile after it, and whether a packet was completed.
pub lace : Bytes → Bytes → Bool → Profile → Bool → Option (Profile × Bool)
unfolding complete_packet
lace [] body granule_zero p completed = some (p, completed)
lace (n ∷ rest) body granule_zero p completed =
    let p' = record p { packet = p.packet ++ take n body } in
    elim (ltb (limit p.phase) (length p.packet + n)) [
      | true ↦ none
      | false ↦ elim (n == 255) [
        | true ↦ lace rest (drop n body) granule_zero p' completed
        | false ↦
            complete_packet p'.phase p' granule_zero rest
            >>= (λ q. lace rest (drop n body) granule_zero q true)
      ]
    ]

abbrev pub granule : Bytes → ℕ
granule page = u32_le page 6 + 4294967296 * u32_le page 10

-- The first page: one identification packet of 19 bytes.
pub accept_head : Profile → Bytes → Bytes → Bytes → Option Profile
accept_head p page lacing body = do
  require (byte page 5 == 2 && (granule page == 0 && (byte page 26 == 1 && byte lacing 0 == 19)))
  require (equals (subarray body 0 8) (text "OpusHead"))
  require (byte body 8 == 1 && (byte body 9 == 1 && byte body 18 == 0))
  some (record p { phase = tags })

-- A page of packets.
pub accept_packets : Profile → Bytes → Bytes → Bytes → Option Profile
unfolding lace
accept_packets p page lacing body = do
  require (not (byte page 26 == 0))
  (q, completed) ← lace lacing body (granule page == 0) p false
  require (if completed then ltb (granule page) (2 ^ 63) else granule page == 2 ^ 64 - 1)
  let q' = record q { ended = not (bit_and (byte page 5) 4 == 0) }
  require (not q'.ended || is_complete q')
  some q'

pub accept_in : Phase → Profile → Bytes → Bytes → Bytes → Option Profile
unfolding accept_head accept_packets
accept_in head = accept_head
accept_in _ = accept_packets

abbrev pub same_serial : Option ℕ → ℕ → Bool
same_serial none serial = true
same_serial (some known) serial = serial == known

unfoldable pub accept_page : Profile → Bytes → Option Profile
unfolding accept_in
accept_page p page = do
  require (not (p.ended || ltb (length page) 27))
  let segment_count = byte page 26
  require (not (ltb (length page) (27 + segment_count)))
  let serial = u32_le page 14
  require (same_serial p.serial serial)
  let lacing = subarray page 27 (27 + segment_count)
  let body = drop (27 + segment_count) page
  require (sum lacing == length body)
  accept_in p.phase (record p { serial = some serial }) page lacing body
