-- ===== src/Media.antt =====
-- Uploaded media files as src/media reads them (media-audio-structure.ts, media-image-structure.ts,
-- media-isobmff-structure.ts, media-content-signature.ts): the bytes of a file, `readExactly`, the
-- numbers of a `Buffer`, and texts in ASCII or Latin-1, which are lists of the same numbers.
pub mod Reads
pub mod Checks
pub mod Walk
pub mod Local
pub mod Frames
pub mod Aac
pub mod Amr
pub mod Mpeg
pub mod Ogg
pub mod Png
pub mod Jpeg
pub mod IsoBmff
pub mod Ooxml
pub mod Pdf
pub mod Signature
pub mod Policy
pub mod Upload
mod Examples
use api_whats_app.Base.{
  ℕ, zero, suc, ◌+◌, ◌*◌, ◌≤◌, ◌≡◌, Bool, true, false, ◌&&◌, ◌||◌, Option, none, some, List, [],
  ◌∷◌, ◌==◌, leb, if◌then◌else◌, length, take, drop, get_elem?, text_eq,
}

abbrev pub Bytes : Type 0
Bytes = List ℕ

-- A path, as `open`, `stat` and `read` see it.
pub record File : Type 0 where
  pub is_file : Bool
  pub bytes : Bytes

-- `stat.size`
abbrev pub size : File → ℕ
size file = length file.bytes

-- `buffer[i] ?? fallback`
abbrev pub byte_or : ℕ → Bytes → ℕ → ℕ
byte_or fallback bytes i = elim (get_elem? bytes i) [ none ↦ fallback | some byte ↦ byte ]

-- `buffer[i]!`; the bitwise operators read `undefined` as 0
abbrev pub byte : Bytes → ℕ → ℕ
byte = byte_or 0

-- `buffer.subarray(first, last)`
abbrev pub subarray : Bytes → ℕ → ℕ → Bytes
subarray bytes first last = drop first (take last bytes)

-- `a.equals(b)`
abbrev pub equals : Bytes → Bytes → Bool
equals = text_eq

abbrev pub starts_with : Bytes → Bytes → Bool
starts_with [] bytes = true
starts_with (p ∷ ps) [] = false
starts_with (p ∷ ps) (b ∷ bs) = b == p && starts_with ps bs

-- `readUInt16BE`, `readUInt32BE`, `readUInt16LE`, `readUInt32LE`
abbrev pub u16_be : Bytes → ℕ → ℕ
u16_be bytes i = 256 * byte bytes i + byte bytes (i + 1)

abbrev pub u32_be : Bytes → ℕ → ℕ
u32_be bytes i = 65536 * u16_be bytes i + u16_be bytes (i + 2)

abbrev pub u16_le : Bytes → ℕ → ℕ
u16_le bytes i = byte bytes i + 256 * byte bytes (i + 1)

abbrev pub u32_le : Bytes → ℕ → ℕ
u32_le bytes i = u16_le bytes i + 65536 * u16_le bytes (i + 2)

-- A check that gives up: `if (!found) return false`.
abbrev pub ◌>>=◌ {ℓ κ} : {A : Type ℓ} {B : Type κ} → Option A → (A → Option B) → Option B
none >>= rest = none
some found >>= rest = rest found

infixl 5 ◌>>=◌
abbrev pub ◌>>◌ {ℓ} : {B : Type ℓ} → Option (Unit {0}) → Option B → Option B
first >> rest = first >>= λ _. rest

infixl 5 ◌>>◌
-- `if (!test) return false`
abbrev pub require : Bool → Option (Unit {0})
require false = none
require true = some tt

-- The verdict of a check that has not given up.
abbrev pub passes {ℓ} : {A : Type ℓ} → Option A → Bool
passes none = false
passes (some a) = true

-- What `readExactly` answers: the `count` bytes from `position` on, or null where the file ends
-- before; no byte is always there.
unfoldable pub read_exactly : Bytes → ℕ → ℕ → Option Bytes
read_exactly bytes count position =
    if count == 0 || leb (position + count) (length bytes)
    then some (take count (drop position bytes))
    else none
