-- ===== src/Media/Ooxml/Ending.antt =====
-- The end record that `parseEndOfCentralDirectory` finds (src/media/media-content-signature.ts).
use api_whats_app.Base.{
  ℕ, zero, suc, ◌+◌, ◌-◌, ◌≡◌, refl, true, ◌&&◌, ◌||◌, not, some, ◌==◌, min, take, drop, length,
  Bool-cases, inl, inr,
}
use mathlib.Core.Path.{subst}
use mathlib.Core.Option.{some-injective}
use api_whats_app.Media.{Bytes, u16_le, u32_le}
use api_whats_app.Media.Checks.{require->>-eq-some}
use api_whats_app.Media.Ooxml.{
  EndRecord, end_record, is_end_record, end_record_below, zip16_max, zip32_max,
}

-- The last bytes of a file, in which the end record is looked for.
abbrev pub tail_of : Bytes → Bytes
tail_of bytes = let n = min (length bytes) 65557 in take n (drop (length bytes - n) bytes)

-- The end record stands in the last 65,557 bytes of the file, its comment ends the file, and its fields
-- are those that are read there.
pub record IsEndRecord (bytes : Bytes) (eocd : EndRecord) : Type 0 where
  pub offset : ℕ
  pub located : eocd.absolute_offset ≡ length bytes - min (length bytes) 65557 + offset
  pub signed : is_end_record (tail_of bytes) offset ≡ true
  pub directory_offset_eq : eocd.directory_offset ≡ u32_le (tail_of bytes) (offset + 16)
  pub directory_size_eq : eocd.directory_size ≡ u32_le (tail_of bytes) (offset + 12)
  pub total_entries_eq : eocd.total_entries ≡ u16_le (tail_of bytes) (offset + 10)

end_record-IsEndRecord :
    (bytes : Bytes) (offset : ℕ) {eocd : EndRecord}
    → is_end_record (tail_of bytes) offset ≡ true
    → end_record (tail_of bytes) (length bytes - min (length bytes) 65557) offset ≡ some eocd
    → IsEndRecord bytes eocd
end_record-IsEndRecord bytes offset {eocd} signed h =
    let tail = tail_of bytes in
    let (_, h1) =
      require->>-eq-some (u16_le tail (offset + 4) == 0 && u16_le tail (offset + 6) == 0) _ h in
    let (_, h2) = require->>-eq-some (u16_le tail (offset + 8) == u16_le tail (offset + 10)) _ h1 in
    let (_, h3) =
      require->>-eq-some
        (not (
          u16_le tail (offset + 10) == zip16_max
          || u32_le tail (offset + 12) == zip32_max
          || u32_le tail (offset + 16) == zip32_max))
        _ h2 in
    subst (IsEndRecord bytes) (some-injective _ _ h3) (record {
      offset = offset;
      located = refl;
      signed = signed;
      directory_offset_eq = refl;
      directory_size_eq = refl;
      total_entries_eq = refl;
    })

pub end_record_below-IsEndRecord :
    (bytes : Bytes) (rounds : ℕ) {eocd : EndRecord}
    → end_record_below (tail_of bytes) (length bytes - min (length bytes) 65557) rounds ≡ some eocd
    → IsEndRecord bytes eocd
unfolding end_record_below
end_record_below-IsEndRecord bytes zero h = absurd (cc)
end_record_below-IsEndRecord bytes (suc offset) h =
    elim (Bool-cases (is_end_record (tail_of bytes) offset)) [
      | inl signed ↦ end_record-IsEndRecord bytes offset signed (rw (signed, end_record_below) at h)
      | inr other ↦ end_record_below-IsEndRecord bytes offset (rw (other, end_record_below) at h)
    ]
