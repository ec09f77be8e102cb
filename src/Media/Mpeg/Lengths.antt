-- ===== src/Media/Mpeg/Lengths.antt =====
-- `mpegAudioFrameLength` and `mpegBitrateKbps` of src/media/media-audio-structure.ts, and how short
-- a frame can be.
use api_whats_app.Base.{
  ℕ, zero, suc, ◌+◌, ◌-◌, ◌*◌, ◌/◌, ◌%◌, ◌≤◌, ◌<◌, ◌≡◌, refl, bit_and, Bool, true, false, ◌&&◌,
  ◌||◌, not, Option, none, some, List, [], ◌∷◌, ◌==◌, ltb, leb, if◌then◌else◌, length, arith,
}
use api_whats_app.Media.{Bytes, byte, ◌>>◌, require}
use api_whats_app.Media.Checks.{require->>-eq-some}

abbrev mpeg1_layer1 : List ℕ
mpeg1_layer1 =
    0 ∷ 32 ∷ 64 ∷ 96 ∷ 128 ∷ 160 ∷ 192 ∷ 224 ∷ 256 ∷ 288 ∷ 320 ∷ 352 ∷ 384 ∷ 416 ∷ 448 ∷ 0 ∷ []

abbrev mpeg1_layer2 : List ℕ
mpeg1_layer2 =
    0 ∷ 32 ∷ 48 ∷ 56 ∷ 64 ∷ 80 ∷ 96 ∷ 112 ∷ 128 ∷ 160 ∷ 192 ∷ 224 ∷ 256 ∷ 320 ∷ 384 ∷ 0 ∷ []

abbrev mpeg1_layer3 : List ℕ
mpeg1_layer3 =
    0 ∷ 32 ∷ 40 ∷ 48 ∷ 56 ∷ 64 ∷ 80 ∷ 96 ∷ 112 ∷ 128 ∷ 160 ∷ 192 ∷ 224 ∷ 256 ∷ 320 ∷ 0 ∷ []

abbrev mpeg2_layer1 : List ℕ
mpeg2_layer1 =
    0 ∷ 32 ∷ 48 ∷ 56 ∷ 64 ∷ 80 ∷ 96 ∷ 112 ∷ 128 ∷ 144 ∷ 160 ∷ 176 ∷ 192 ∷ 224 ∷ 256 ∷ 0 ∷ []

abbrev mpeg2_layer23 : List ℕ
mpeg2_layer23 = 0 ∷ 8 ∷ 16 ∷ 24 ∷ 32 ∷ 40 ∷ 48 ∷ 56 ∷ 64 ∷ 80 ∷ 96 ∷ 112 ∷ 128 ∷ 144 ∷ 160 ∷ 0 ∷ []

abbrev sample_rates : List ℕ
sample_rates = 44100 ∷ 48000 ∷ 32000 ∷ []

pub mpeg_bitrate_kbps : Bool → ℕ → ℕ → ℕ
mpeg_bitrate_kbps true layer index =
    if layer == 1
    then byte mpeg1_layer1 index
    else if layer == 2
    then byte mpeg1_layer2 index
    else byte mpeg1_layer3 index
mpeg_bitrate_kbps false layer index =
    if layer == 1 then byte mpeg2_layer1 index else byte mpeg2_layer23 index

-- The length from the version, the bitrate, the sample rate and the padding.
pub length_of : ℕ → ℕ → ℕ → ℕ → ℕ → ℕ
length_of version_bits layer bitrate sample_rate padding =
    if layer == 1
    then (12 * bitrate / sample_rate + padding) * 4
    else if layer == 3 && not (version_bits == 3)
    then 72 * bitrate / sample_rate + padding
    else 144 * bitrate / sample_rate + padding

abbrev sample_rate_of : ℕ → ℕ → ℕ
sample_rate_of version_bits base =
    if version_bits == 3 then base else if version_bits == 2 then base / 2 else base / 4

-- The length that the five fields of a header give.
pub field_length : ℕ → ℕ → ℕ → ℕ → ℕ → Option ℕ
unfolding mpeg_bitrate_kbps length_of
field_length version_bits layer_bits bitrate_index sample_rate_index padding = do
  require (
      not (
        version_bits == 1
        || layer_bits == 0
        || bitrate_index == 0
        || bitrate_index == 0x0f
        || sample_rate_index == 3))
  let layer = 4 - layer_bits
  let kbps = mpeg_bitrate_kbps (version_bits == 3) layer bitrate_index
  let base = byte sample_rates sample_rate_index
  require (not (kbps == 0 || base == 0))
  some (length_of version_bits layer (kbps * 1000) (sample_rate_of version_bits base) padding)

unfoldable pub mpeg_audio_frame_length : Bytes → Option ℕ
unfolding field_length
mpeg_audio_frame_length h = do
  require
      (not (ltb (length h) 4 || not (byte h 0 == 0xff) || not (bit_and (byte h 1) 0xe0 == 0xe0)))
  require (not (byte h 3 % 4 == 2))
  field_length (byte h 1 / 8 % 4) (byte h 1 / 2 % 4) (byte h 2 / 16 % 16) (byte h 2 / 4 % 4)
      (byte h 2 / 2 % 2)

-- Over the small ranges of the fields, every value is looked at.
all_below : ℕ → (ℕ → Bool) → Bool
all_below zero p = true
all_below (suc n) p = p n && all_below n p

all_below-at : (n : ℕ) (p : ℕ → Bool) (x : ℕ) → all_below n p ≡ true → x < n → p x ≡ true
unfolding all_below
all_below-at zero p x h lt = absurd (omega arith)
all_below-at (suc n) p x h lt = ground (arith, all_below-at n p x)

abbrev at_least : ℕ → Option ℕ → Bool
at_least least none = true
at_least least (some n) = leb least n

abbrev long_padding : ℕ → ℕ → ℕ → ℕ → Bool
long_padding version_bits layer_bits bitrate_index sample_rate_index = all_below 2 (λ padding.
    at_least 24 (field_length version_bits layer_bits bitrate_index sample_rate_index padding))

abbrev long_rate : ℕ → ℕ → ℕ → Bool
long_rate version_bits layer_bits bitrate_index =
    all_below 4 (long_padding version_bits layer_bits bitrate_index)

abbrev long_bitrate : ℕ → ℕ → Bool
long_bitrate version_bits layer_bits = all_below 16 (long_rate version_bits layer_bits)

abbrev long_layer : ℕ → Bool
long_layer version_bits = all_below 4 (long_bitrate version_bits)

all_long : all_below 4 long_layer ≡ true
unfolding all_below field_length
all_long = refl

at_least-le : (least : ℕ) (o : Option ℕ) (n : ℕ) → at_least least o ≡ true → o ≡ some n → least ≤ n
at_least-le least none n h e = absurd (cc)
at_least-le least (some m) n h e = ground arith

field_length-ge :
    (v l b r p n : ℕ)
    → v < 4
    → l < 4
    → b < 16
    → r < 4
    → p < 2
    → field_length v l b r p ≡ some n
    → 24 ≤ n
field_length-ge v l b r p n hv hl hb hr hp e =
    let h1 = all_below-at 4 long_layer v all_long hv in
    let h2 = all_below-at 4 (long_bitrate v) l h1 hl in
    let h3 = all_below-at 16 (long_rate v l) b h2 hb in
    let h4 = all_below-at 4 (long_padding v l b) r h3 hr in
    at_least-le 24 (field_length v l b r p) n
      (all_below-at 2 (λ padding. at_least 24 (field_length v l b r padding)) p h4 hp) e

-- No frame is shorter than 24 bytes, for all fields of a header.
pub mpeg_audio_frame_length-ge :
    (header : Bytes) (n : ℕ) → mpeg_audio_frame_length header ≡ some n → 24 ≤ n
unfolding mpeg_audio_frame_length
mpeg_audio_frame_length-ge h n e =
    let v : byte h 1 / 8 % 4 < 4 = omega arith in
    let l : byte h 1 / 2 % 4 < 4 = omega arith in
    let b : byte h 2 / 16 % 16 < 16 = omega arith in
    let r : byte h 2 / 4 % 4 < 4 = omega arith in
    let p : byte h 2 / 2 % 2 < 2 = omega arith in
    let (_, e1) = require->>-eq-some _ _ e in
    let (_, e2) = require->>-eq-some _ _ e1 in field_length-ge _ _ _ _ _ n v l b r p e2
