-- ===== src/Media/Ooxml/Directory.antt =====
-- What `matchesOoxmlPackageIdentity` accepts (src/media/media-content-signature.ts).
use api_whats_app.Base.{
  ℕ, zero, suc, ◌+◌, ◌-◌, ◌≡◌, ◌≢◌, refl, sym, ap, ◌∙◌, Bool, true, false, ◌&&◌, ◌||◌, not, Option,
  none, some, [], ◌∷◌, ◌++◌, ◌==◌, ltb, min, Text, text_eq, text_eq_iff, ==_iff, arith, take, drop,
  length, All, Bool-cases, inl, inr, all,
}
use mathlib.Core.Path.{subst}
use mathlib.Core.Option.{some-injective}
use api_whats_app.Media.{Bytes, File, size, subarray, read_exactly, u16_le, u32_le, require, passes}
use api_whats_app.Media.Local.{read_exactly-take}
use api_whats_app.Media.Checks.{>>=-eq-some, require->>-eq-some, opened-eq_true, passes-eq_true}
use api_whats_app.Media.Ooxml.Ending.{IsEndRecord, end_record_below-IsEndRecord}
use api_whats_app.Media.Ooxml.{
  EndRecord, end_record_below, Entry, Entries, get, has, content_types_entry, Family, word,
  spreadsheet, presentation, family_entry, entry_at, directory_loop, parse_central_directory,
  matches_local_header, alone, check_entries, check_package, matches_ooxml, record_length,
  is_record, has_zero, end_is_plausible,
}

-- No two entries have the same name.
abbrev pub HasDistinctNames : Entries → Type 0
HasDistinctNames [] = Unit
HasDistinctNames (e ∷ rest) = All (λ other. other.name ≢ e.name) rest × HasDistinctNames rest

has-false :
    (name : Text) (entries : Entries) → has name entries ≡ false → All (λ e. e.name ≢ name) entries
has-false name [] h = tt
has-false name (e ∷ rest) h = elim (Bool-cases (text_eq e.name name)) [
  | inl same ↦ absurd (cc (rw same at h))
  | inr other ↦ (
    λ eq. absurd (cc (other, (text_eq_iff e.name name).1 eq)),
    has-false name rest (rw other at h),
  )
]

All-append_last :
    (P : Entry → Type 0) (xs : Entries) (e : Entry) → All P xs → P e → All P (xs ++ e ∷ [])
All-append_last P [] e all p = (p, tt)
All-append_last P (x ∷ xs) e (q, all) p = (q, All-append_last P xs e all p)

distinct-append :
    (entries : Entries) (e : Entry)
    → HasDistinctNames entries
    → All (λ other. other.name ≢ e.name) entries
    → HasDistinctNames (entries ++ e ∷ [])
distinct-append [] e d all = (tt, tt)
distinct-append (x ∷ xs) e (fresh, d) (ne, all) = (
  All-append_last (λ other. other.name ≢ x.name) xs e fresh (λ eq. ne (sym eq)),
  distinct-append xs e d all,
)

append_nil : (xs : Entries) → xs ++ [] ≡ xs
append_nil [] = refl
append_nil (x ∷ xs) = ap (λ r. x ∷ r) (append_nil xs)

append_assoc : (xs : Entries) (e : Entry) (ys : Entries) → (xs ++ e ∷ []) ++ ys ≡ xs ++ e ∷ ys
append_assoc [] e ys = refl
append_assoc (x ∷ xs) e ys = ap (λ r. x ∷ r) (append_assoc xs e ys)

require-true : (test : Bool) {u : Unit {0}} → require test ≡ some u → test ≡ true
require-true true h = refl
require-true false h = absurd (cc)

and-split : (a b : Bool) → (a && b) ≡ true → (a ≡ true) × (b ≡ true)
and-split true b h = (refl, h)
and-split false b h = absurd (cc)

not-passes : (o : Option Entry) → not (passes o) ≡ true → o ≡ none
not-passes none h = refl
not-passes (some e) h = absurd (cc)

module _ (utf8 : Bytes → Text) where
  entry_at-fresh :
      (directory : Bytes) (offset : ℕ) (entries : Entries) {e : Entry}
      → entry_at utf8 directory offset entries ≡ some e
      → has e.name entries ≡ false
  unfolding entry_at
  entry_at-fresh directory offset entries h =
      let name_bytes =
        subarray directory (offset + 46) (offset + 46 + u16_le directory (offset + 28)) in
      let (_, h1) = require->>-eq-some (not (ltb (length directory) (offset + 46))) _ h in
      let (_, h2) = require->>-eq-some (u32_le directory offset == 0x02014b50) _ h1 in
      let (_, h3) = require->>-eq-some (is_record directory offset) _ h2 in
      let (_, h4) = require->>-eq-some (not (has_zero name_bytes)) _ h3 in
      let (fresh, h5) = require->>-eq-some (not (has (utf8 name_bytes) entries)) _ h4 in
      ap (λ n. has n entries) (sym (ap Entry.name (some-injective _ _ h5))) ∙ not-true _ fresh
    where
      not-true : (b : Bool) → not b ≡ true → b ≡ false
      not-true true h = sym h
      not-true false h = refl

  directory_loop-distinct :
      (directory : Bytes) (more offset : ℕ) (entries : Entries) {found : Entries}
      → HasDistinctNames entries
      → directory_loop utf8 directory more offset entries ≡ some found
      → HasDistinctNames found
  unfolding directory_loop
  directory_loop-distinct directory zero offset entries d h =
      let (_, e) = require->>-eq-some (offset == length directory) _ h in
      subst HasDistinctNames (some-injective _ _ e) d
  directory_loop-distinct directory (suc more) offset entries d h =
      let (e, read, h1) = >>=-eq-some (entry_at utf8 directory offset entries) _ h in
      directory_loop-distinct directory more (offset + record_length directory offset)
        (entries ++ e ∷ [])
        (distinct-append entries e d
          (has-false e.name entries (entry_at-fresh directory offset entries read)))
        h1

  entry_at-fields :
      (directory : Bytes) (offset : ℕ) (entries : Entries) {e : Entry}
      → entry_at utf8 directory offset entries ≡ some e
      → (u32_le directory offset ≡ 0x02014b50)
        × (e.name
            ≡ utf8
                (subarray directory (offset + 46) (offset + 46 + u16_le directory (offset + 28))))
        × (e.local_header_offset ≡ u32_le directory (offset + 42))
  unfolding entry_at
  entry_at-fields directory offset entries h =
      let name_bytes =
        subarray directory (offset + 46) (offset + 46 + u16_le directory (offset + 28)) in
      let (_, h1) = require->>-eq-some (not (ltb (length directory) (offset + 46))) _ h in
      let (signed, h2) = require->>-eq-some (u32_le directory offset == 0x02014b50) _ h1 in
      let (_, h3) = require->>-eq-some (is_record directory offset) _ h2 in
      let (_, h4) = require->>-eq-some (not (has_zero name_bytes)) _ h3 in
      let (_, h5) = require->>-eq-some (not (has (utf8 name_bytes) entries)) _ h4 in
      let e = some-injective _ _ h5 in
      (
        (==_iff (u32_le directory offset) 0x02014b50).0 signed,
        sym (ap Entry.name e),
        sym (ap Entry.local_header_offset e),
      )

  -- The entries are those of the records that fill the directory from an offset on: each record has the
  -- signature, and gives the name and the offset of the local header; the next one stands behind its
  -- name, its extra field and its comment.
  abbrev pub IsListed : Bytes → ℕ → Entries → Type 0
  IsListed directory offset [] = offset ≡ length directory
  IsListed directory offset (e ∷ rest) =
      (u32_le directory offset ≡ 0x02014b50)
      × (e.name
          ≡ utf8 (subarray directory (offset + 46) (offset + 46 + u16_le directory (offset + 28))))
      × (e.local_header_offset ≡ u32_le directory (offset + 42))
      × IsListed directory (offset + record_length directory offset) rest

  -- What the loop has read behind the entries that it started with.
  directory_loop-IsListed :
      (directory : Bytes) (more offset : ℕ) (entries : Entries) {found : Entries}
      → directory_loop utf8 directory more offset entries ≡ some found
      → (rest : Entries) × (found ≡ entries ++ rest)
        × (length rest ≡ more)
        × IsListed directory offset rest
  unfolding directory_loop
  directory_loop-IsListed directory zero offset entries h =
      let (at_end, e) = require->>-eq-some (offset == length directory) _ h in
      (
        [],
        sym (some-injective _ _ e) ∙ sym (append_nil entries),
        refl,
        (==_iff offset (length directory)).0 at_end,
      )
  directory_loop-IsListed directory (suc more) offset entries h =
      let (e, read, h1) = >>=-eq-some (entry_at utf8 directory offset entries) _ h in
      let (signed, named, located) = entry_at-fields directory offset entries read in
      let (rest, joined, counted, listed) =
        directory_loop-IsListed directory more (offset + record_length directory offset)
          (entries ++ e ∷ []) h1 in
      (
        e ∷ rest,
        joined ∙ append_assoc entries e rest,
        ap suc counted,
        (signed, named, located, listed),
      )

  -- An entry of the directory whose local header, before the directory, has the same name.
  abbrev pub IsVerified : Bytes → ℕ → Entries → Text → Type 0
  IsVerified bytes directory_offset entries name =
      (e : Entry) × (get name entries ≡ some e)
      × (matches_local_header utf8 bytes e directory_offset ≡ true)

  -- What a package shows: the end record, the directory before it that the end record points to, and
  -- the entries of that directory.
  pub record IsPackage (bytes : Bytes) (family : Family) : Type 0 where
    pub eocd : EndRecord
    pub ending : IsEndRecord bytes eocd
    pub adjacent : eocd.directory_offset + eocd.directory_size ≡ eocd.absolute_offset
    pub entries : Entries
    pub counted : length entries ≡ eocd.total_entries
    pub listed : IsListed (take eocd.directory_size (drop eocd.directory_offset bytes)) 0 entries
    pub distinct : HasDistinctNames entries
    pub content_types : IsVerified bytes eocd.directory_offset entries content_types_entry
    pub document : IsVerified bytes eocd.directory_offset entries (family_entry family)
    pub no_other : (other : Family) → other ≢ family → get (family_entry other) entries ≡ none

  checked :
      (bytes : Bytes) (offset : ℕ) (family : Family) (entries : Entries)
      → check_entries utf8 bytes offset family entries ≡ true
      → IsVerified bytes offset entries content_types_entry
        × IsVerified bytes offset entries (family_entry family)
        × (alone utf8 family entries ≡ true)
  unfolding check_entries
  checked bytes offset family entries h =
      let (_, h0) = passes-eq_true _ h in
      let (content_types, first, h1) = >>=-eq-some (get content_types_entry entries) _ h0 in
      let (document, second, h2) = >>=-eq-some (get (family_entry family) entries) _ h1 in
      let (single, h3) = require->>-eq-some (alone utf8 family entries) _ h2 in
      let (header, h4) =
        require->>-eq-some (matches_local_header utf8 bytes content_types offset) _ h3 in
      ((content_types, first, header), (document, second, require-true _ h4), single)

  -- The three tests of `alone`, one for each family.
  alone-split :
      (family : Family) (entries : Entries)
      → alone utf8 family entries ≡ true
      → (other : Family)
      → (text_eq (family_entry other) (family_entry family)
          || not (has (family_entry other) entries))
        ≡ true
  alone-split family entries h word = (and-split _ _ h).0
  alone-split family entries h spreadsheet = (and-split _ _ (and-split _ _ h).1).0
  alone-split family entries h presentation =
      (and-split _ _ (and-split _ _ (and-split _ _ h).1).1).0

  alone-none :
      (family other : Family) (entries : Entries)
      → alone utf8 family entries ≡ true
      → other ≢ family
      → get (family_entry other) entries ≡ none
  alone-none word word entries h ne = absurd (ne refl)
  alone-none word spreadsheet entries h ne = not-passes _ (alone-split word entries h spreadsheet)
  alone-none word presentation entries h ne = not-passes _ (alone-split word entries h presentation)
  alone-none spreadsheet word entries h ne = not-passes _ (alone-split spreadsheet entries h word)
  alone-none spreadsheet spreadsheet entries h ne = absurd (ne refl)
  alone-none spreadsheet presentation entries h ne =
      not-passes _ (alone-split spreadsheet entries h presentation)
  alone-none presentation word entries h ne = not-passes _ (alone-split presentation entries h word)
  alone-none presentation spreadsheet entries h ne =
      not-passes _ (alone-split presentation entries h spreadsheet)
  alone-none presentation presentation entries h ne = absurd (ne refl)

  adjacent-eq :
      (eocd : EndRecord)
      → end_is_plausible utf8 eocd ≡ true
      → eocd.directory_offset + eocd.directory_size ≡ eocd.absolute_offset
  adjacent-eq eocd h = ground arith

  packed :
      (family : Family) (bytes : Bytes) {found : Entries}
      → check_package utf8 bytes family ≡ some found
      → IsPackage bytes family
  unfolding check_package parse_central_directory
  packed family bytes h =
      let tail_length = min (length bytes) 65557 in
      let (tail, read_tail, h1) =
        >>=-eq-some (read_exactly bytes tail_length (length bytes - tail_length)) _ h in
      let (eocd, found_end, h2) =
        >>=-eq-some (end_record_below tail (length bytes - tail_length) (tail_length - 21)) _ h1 in
      let (plausible, h3) = require->>-eq-some (end_is_plausible utf8 eocd) _ h2 in
      let (directory, read_directory, h4) =
        >>=-eq-some (read_exactly bytes eocd.directory_size eocd.directory_offset) _ h3 in
      let (entries, parsed, h5) =
        >>=-eq-some (parse_central_directory utf8 directory eocd.total_entries) _ h4 in
      let tail_eq = read_exactly-take bytes tail_length (length bytes - tail_length) read_tail in
      let directory_eq =
        read_exactly-take bytes eocd.directory_size eocd.directory_offset read_directory in
      let (rest, joined, counted, listed) =
        directory_loop-IsListed directory eocd.total_entries 0 [] parsed in
      let (right, _) =
        require->>-eq-some (check_entries utf8 bytes eocd.directory_offset family entries) _ h5 in
      let (content_types, document, single) =
        checked bytes eocd.directory_offset family entries right in
      record {
        eocd = eocd;
        ending = end_record_below-IsEndRecord bytes (tail_length - 21) (
            subst
              (λ t. end_record_below t (length bytes - tail_length) (tail_length - 21) ≡ some eocd)
              tail_eq found_end);
        adjacent = adjacent-eq eocd plausible;
        entries = entries;
        counted = ap length joined ∙ counted;
        listed =
            subst (λ d. IsListed d 0 entries) directory_eq
              (subst (IsListed directory 0) (sym joined) listed);
        distinct = directory_loop-distinct directory eocd.total_entries 0 [] tt parsed;
        content_types = content_types;
        document = document;
        no_other = λ other ne. alone-none family other entries single ne;
      }

  -- A package is accepted only if an end record closes the file and the directory right before it, of
  -- the place and the count of entries that the end record gives, is filled by its records; and then
  -- the names of these entries are different, both the content types and the main document of the
  -- declared family are among them, each with a local header of the same name before the directory,
  -- and the main document of no other family is.
  pub matches_ooxml-IsPackage :
      (family : Family) (file : File)
      → matches_ooxml utf8 family file ≡ true
      → IsPackage file.bytes family
  unfolding matches_ooxml
  matches_ooxml-IsPackage family file h =
      let (_, _, body) = opened-eq_true file.is_file 22 (size file) _ h in
      let (_, h0) = passes-eq_true (check_package utf8 file.bytes family) body in
      packed family file.bytes h0
