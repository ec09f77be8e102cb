-- ===== src/Media/Png/Chunks.antt =====
-- The order of the chunks of a file that `matchesPngStructure` accepts
-- (src/media/media-image-structure.ts).
use api_whats_app.Base.{
  ℕ, zero, suc, ◌+◌, ◌≡◌, refl, sym, ap, ◌∙◌, inl, inr, Bool, true, false, ◌&&◌, ◌||◌, not, some,
  List, [], ◌∷◌, arith, ◌==◌, ltb, leb, text, length, take, any, Bool-cases, Option-cases,
  text_eq_iff,
}
use mathlib.Core.Path.{subst}
use api_whats_app.Media.{Bytes, File, size, equals, read_exactly}
use api_whats_app.Media.Checks.{opened-eq_true}
use api_whats_app.Media.Png.{
  PngState, Progress, stop, go, png_chunk, png_loop, png_start, png_signature, max_chunks,
  matches_png,
}
use api_whats_app.Media.Png.Steps.{
  ChunkAt, Step, png_chunk-Step, Keeps, after_plte-Keeps, after_ihdr-later, after_ihdr-first,
  IsAfter, after_idat-IsAfter, IsAfter-Keeps,
}

-- The order of the chunks behind the header: data chunks stand in a row, at least one of them, the end
-- chunk is empty and stands at the end of the file, and no chunk is a header again. The indices tell
-- whether a data chunk was seen, and whether the row of them is over.
pub data Chunks (bytes : Bytes) : Bool → Bool → ℕ → List Bytes → Type 0 where
  final :
      {closed : Bool} {offset : ℕ} {kind : Bytes}
      → ChunkAt bytes offset kind 0
      → equals kind (text "IEND") ≡ true
      → offset + 12 ≡ length bytes
      → Chunks bytes true closed offset (kind ∷ [])
  datum :
      {seen : Bool} {offset n : ℕ} {kind : Bytes} {rest : List Bytes}
      → ChunkAt bytes offset kind n
      → equals kind (text "IDAT") ≡ true
      → Chunks bytes true false (offset + 8 + n + 4) rest
      → Chunks bytes seen false offset (kind ∷ rest)
  other :
      {seen closed : Bool} {offset n : ℕ} {kind : Bytes} {rest : List Bytes}
      → ChunkAt bytes offset kind n
      → any (equals kind) (text "IHDR" ∷ text "IDAT" ∷ text "IEND" ∷ []) ≡ false
      → Chunks bytes seen (closed || seen) (offset + 8 + n + 4) rest
      → Chunks bytes seen closed offset (kind ∷ rest)

-- What a chunk answers to a loop that goes on by `next`.
abbrev run : Progress → (ℕ → PngState → Bool) → Bool
run (stop verdict) next = verdict
run (go offset s) next = next offset s

module _ (bytes : Bytes) where
  png_loop-run :
      (rounds offset count : ℕ) (s : PngState) (p : Progress)
      → ltb offset (length bytes) ≡ true
      → png_chunk bytes offset count s ≡ some p
      → png_loop bytes (suc rounds) offset count s
        ≡ run p (λ next s'. png_loop bytes rounds next (count + 1) s')
  unfolding png_loop
  png_loop-run rounds offset count s (stop verdict) inside read = rw (inside, read, png_loop) refl
  png_loop-run rounds offset count s (go next s') inside read = rw (inside, read, png_loop) refl

  png_loop-Step :
      (rounds offset count : ℕ) (s : PngState)
      → png_loop bytes (suc rounds) offset count s ≡ true
      → (p : Progress) × Step bytes offset count s p
        × (run p (λ next s'. png_loop bytes rounds next (count + 1) s') ≡ true)
  unfolding png_loop
  png_loop-Step rounds offset count s h = elim (Bool-cases (ltb offset (length bytes))) [
    | inr past ↦ absurd (cc (rw (past, png_loop) at h))
    | inl inside ↦ elim (Option-cases (png_chunk bytes offset count s)) [
      | inl refused ↦ absurd (cc (rw (inside, refused, png_loop) at h))
      | inr (p, read) ↦ (
        p,
        png_chunk-Step bytes offset count s read,
        sym (png_loop-run rounds offset count s p inside read) ∙ h,
      )
    ]
  ]

  stop-true :
      (n offset : ℕ) (seen : Bool)
      → (n == 0 && (seen && offset + 8 + n + 4 == length bytes)) ≡ true
      → (n ≡ 0) × (seen ≡ true) × (offset + 12 ≡ length bytes)
  stop-true n offset seen h = ground arith

  not_iend : (kind : Bytes) → equals kind (text "IDAT") ≡ true → equals kind (text "IEND") ≡ false
  not_iend kind same =
      subst (λ k. equals k (text "IEND") ≡ false) (sym ((text_eq_iff kind (text "IDAT")).0 same))
        refl

  not_idat : (kind : Bytes) → equals kind (text "IEND") ≡ true → equals kind (text "IDAT") ≡ false
  not_idat kind same =
      subst (λ k. equals k (text "IDAT") ≡ false) (sym ((text_eq_iff kind (text "IEND")).0 same))
        refl

  header_only :
      (kind : Bytes)
      → equals kind (text "IHDR") ≡ true
      → (equals kind (text "IDAT") ≡ false) × (equals kind (text "IEND") ≡ false)
  header_only kind same =
      subst (λ k. (equals k (text "IDAT") ≡ false) × (equals k (text "IEND") ≡ false))
        (sym ((text_eq_iff kind (text "IHDR")).0 same)) (refl, refl)

  -- One chunk that is no end chunk, before the chunks behind it.
  cons-Chunks :
      (offset n : ℕ) (kind : Bytes) (s s3 : PngState) {rest : List Bytes}
      → ChunkAt bytes offset kind n
      → equals kind (text "IHDR") ≡ false
      → equals kind (text "IEND") ≡ false
      → IsAfter kind s s3
      → Chunks bytes s3.seen_idat s3.idat_closed (offset + 8 + n + 4) rest
      → Chunks bytes s.seen_idat s.idat_closed offset (kind ∷ rest)
  cons-Chunks offset n kind s s3 {rest} chunk ihdr iend (_, inl (idat, open_row, seen, closed)) c =
      subst (λ b. Chunks bytes s.seen_idat b offset (kind ∷ rest)) (sym open_row)
        (datum chunk idat (rw (seen, closed) at c))
  cons-Chunks offset n kind s s3 {rest} chunk ihdr iend (_, inr (idat, seen, closed)) c =
      other chunk (rw (ihdr, idat, iend) refl) (
        subst (λ b. Chunks bytes s.seen_idat b (offset + 8 + n + 4) rest)
          (closed ∙ rw iend (ap (λ b. s.idat_closed || b) (and_true s.seen_idat))) (rw seen at c))
    where
      and_true : (b : Bool) → (b && true) ≡ b
      and_true true = refl
      and_true false = refl

  png_loop-Chunks :
      (rounds offset count : ℕ) (s : PngState)
      → s.seen_ihdr ≡ true
      → png_loop bytes rounds offset count s ≡ true
      → (kinds : List Bytes) × Chunks bytes s.seen_idat s.idat_closed offset kinds
  unfolding png_loop
  png_loop-Chunks zero offset count s seen h = absurd (cc)
  png_loop-Chunks (suc rounds) offset count s seen h =
      let (p, step, h1) = png_loop-Step rounds offset count s h in
      let (ihdr, same) = after_ihdr-later bytes step.kind (offset + 8) step.n s seen step.ihdr in
      let keeps =
        subst (λ t. Keeps t step.s2) same (after_plte-Keeps step.kind step.n step.s1 step.plte) in
      let after =
        IsAfter-Keeps step.kind s step.s2 step.s3 keeps
          (after_idat-IsAfter step.kind step.s2 step.idat) in
      let h2 =
        subst (λ q. run q (λ next s'. png_loop bytes rounds next (count + 1) s') ≡ true)
          (sym step.outcome) h1 in
      elim (Bool-cases (equals step.kind (text "IEND"))) [
        | inl iend ↦
            let (empty, seen', at_end) =
              stop-true step.n offset step.s3.seen_idat (rw iend at h2) in
            (step.kind ∷ [], last_chunk step.s3 step.chunk iend after empty seen' at_end)
        | inr going ↦
            let h3 = rw going at h2 in
            let (kinds, rest) =
              png_loop-Chunks rounds (offset + 8 + step.n + 4) (count + 1) step.s3 (after.0 ∙ seen)
                h3 in
            (
              step.kind ∷ kinds,
              cons-Chunks offset step.n step.kind s step.s3 step.chunk ihdr going after rest,
            )
      ]
    where
      last_chunk :
          {kind : Bytes} {n : ℕ} (s3 : PngState)
          → ChunkAt bytes offset kind n
          → equals kind (text "IEND") ≡ true
          → IsAfter kind s s3
          → n ≡ 0
          → s3.seen_idat ≡ true
          → offset + 12 ≡ length bytes
          → Chunks bytes s.seen_idat s.idat_closed offset (kind ∷ [])
      last_chunk {kind} s3 chunk iend (_, inl (idat, _, _, _)) empty seen' at_end =
          absurd (cc (idat, not_idat kind iend))
      last_chunk {kind} s3 chunk iend (_, inr (_, seen_eq, _)) empty seen' at_end =
          subst (λ b. Chunks bytes b s.idat_closed offset (kind ∷ [])) (sym seen' ∙ seen_eq)
            (final (subst (ChunkAt bytes offset kind) empty chunk) iend at_end)

  png_loop-start :
      (rounds : ℕ)
      → png_loop bytes rounds 8 0 png_start ≡ true
      → (kind : Bytes) × (kinds : List Bytes) × ChunkAt bytes 8 kind 13
        × (equals kind (text "IHDR") ≡ true)
        × Chunks bytes false false 33 kinds
  unfolding png_loop
  png_loop-start zero h = absurd (cc)
  png_loop-start (suc rounds) h =
      let (p, step, h1) = png_loop-Step rounds 8 0 png_start h in
      let header = is_header (equals step.kind (text "IHDR")) step.first in
      let (thirteen, seen, idat, closed) =
        after_ihdr-first bytes step.kind 16 step.n png_start header step.ihdr in
      let (seen2, idat2, closed2) = after_plte-Keeps step.kind step.n step.s1 step.plte in
      let after = after_idat-IsAfter step.kind step.s2 step.idat in
      let (no_idat, no_iend) = header_only step.kind header in
      let h2 = rw no_iend at (rw (← step.outcome) at h1) in
      let (kinds, rest) =
        png_loop-Chunks rounds (16 + step.n + 4) 1 step.s3 (after.0 ∙ seen2 ∙ seen) h2 in
      (
        step.kind,
        kinds,
        subst (ChunkAt bytes 8 step.kind) thirteen step.chunk,
        header,
        start_row step.kind step.n step.s2 step.s3 thirteen no_idat after (idat2 ∙ idat)
            (closed2 ∙ closed) rest,
      )
    where
      is_header : (b : Bool) → (true && not b) ≡ false → b ≡ true
      is_header true h = refl
      is_header false h = sym h

      start_row :
          (kind : Bytes) (n : ℕ) (s2 s3 : PngState) {kinds : List Bytes}
          → n ≡ 13
          → equals kind (text "IDAT") ≡ false
          → IsAfter kind s2 s3
          → s2.seen_idat ≡ false
          → s2.idat_closed ≡ false
          → Chunks bytes s3.seen_idat s3.idat_closed (16 + n + 4) kinds
          → Chunks bytes false false 33 kinds
      start_row kind n s2 s3 thirteen no_idat (_, inl (idat, _, _, _)) seen closed c =
          absurd (cc (idat, no_idat))
      start_row kind n s2 s3 thirteen no_idat (_, inr (_, seen', closed')) seen closed c =
          rw (seen', closed', seen, closed, thirteen) at c

-- A PNG file is accepted only if it is its signature, a header chunk of 13 bytes and a row of chunks
-- up to the end of the file, each with a right checksum: data chunks stand together and there is one at
-- least, an empty end chunk is the last, and no header, end or unknown critical chunk stands elsewhere.
pub matches_png-Chunks :
    (file : File)
    → matches_png file ≡ true
    → (take 8 file.bytes ≡ png_signature)
      × ((kind : Bytes) × (kinds : List Bytes) × ChunkAt file.bytes 8 kind 13
          × (equals kind (text "IHDR") ≡ true)
          × Chunks file.bytes false false 33 kinds)
unfolding matches_png read_exactly
matches_png-Chunks file h =
    let (_, long, body) = opened-eq_true file.is_file 20 (size file) _ h in
    let eight : leb 8 (size file) ≡ true = ground arith in
    let h1 = rw eight at body in
    elim (Bool-cases (equals (take 8 file.bytes) png_signature)) [
      | inl same ↦ (
        (text_eq_iff (take 8 file.bytes) png_signature).0 same,
        png_loop-start file.bytes max_chunks (rw same at h1),
      )
      | inr differs ↦ absurd (cc (rw differs at h1))
    ]
