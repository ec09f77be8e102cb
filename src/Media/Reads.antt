-- ===== src/Media/Reads.antt =====
-- `readExactly` of the parsers in src/media: a loop of `handle.read` calls, each of which may return
-- fewer bytes than asked for. The handle is not code of the repository: it is a parameter.
use api_whats_app.Base.{
  ℕ, zero, suc, ◌+◌, ◌-◌, ◌≤◌, ◌<◌, ◌≡◌, refl, sym, ap, ◌∙◌, true, false, Option, none, some, [],
  ◌∷◌, ◌++◌, arith, ltb, length, take, drop, length-drop, length-append, length-take, Bool-cases,
  ltb→lt, inl, inr, ◌⊎◌, min,
}
use api_whats_app.Media.{Bytes, read_exactly}
use api_whats_app.Media.Walk.{drop-add}

-- `handle.read(buffer, offset, length, position)`: the bytes that it puts in the buffer.
abbrev pub Handle : Type 0
Handle = ℕ → ℕ → Bytes

-- `while (offset < length) { ... }`; `got` is what the buffer holds up to `offset`. A call with
-- one round for each byte asked for never runs out of them.
pub read_loop : ℕ → Handle → ℕ → ℕ → Bytes → Option Bytes
read_loop zero read count position got = none
read_loop (suc rounds) read count position got = elim (ltb (length got) count) [
  | false ↦ some got
  | true ↦ elim (length (read (count - length got) (position + length got))) [
    | zero ↦ none
    | suc more ↦
        read_loop rounds read count position
          (got ++ read (count - length got) (position + length got))
  ]
]

unfoldable pub read_all : Handle → ℕ → ℕ → Option Bytes
unfolding read_loop
read_all read count position = read_loop (suc count) read count position []

-- What `read` documents: a prefix of the bytes from the position on, no longer than asked for, and
-- empty only at the end of the file or where nothing is asked for.
pub record Reads (bytes : Bytes) (read : Handle) : Type 0 where
  pub prefix :
      (count position : ℕ)
      → read count position ≡ take (length (read count position)) (drop position bytes)
  pub short : (count position : ℕ) → length (read count position) ≤ count
  pub progress :
      (count position : ℕ) → 0 < count → position < length bytes → 0 < length (read count position)

take-nil : (n : ℕ) → take {A = ℕ} n [] ≡ []
take-nil zero = refl
take-nil (suc n) = refl

take-add : (n m : ℕ) (xs : Bytes) → take (n + m) xs ≡ take n xs ++ take m (drop n xs)
take-add zero m xs = let e : 0 + m ≡ m = omega arith in rw e refl
take-add (suc n) m [] = rw (take-nil (suc n + m), take-nil m) refl
take-add (suc n) m (x ∷ xs) =
    let e : suc n + m ≡ suc (n + m) = omega arith in rw e (ap (λ r. x ∷ r) (take-add n m xs))

Nat-cases : (n : ℕ) → (n ≡ 0) ⊎ ((m : ℕ) × (n ≡ suc m))
Nat-cases zero = inl refl
Nat-cases (suc m) = inr (m, refl)

pub read_exactly-fits :
    (bytes : Bytes) (count position : ℕ)
    → position + count ≤ length bytes
    → read_exactly bytes count position ≡ some (take count (drop position bytes))
unfolding read_exactly
read_exactly-fits bytes count position h = ground arith

pub read_exactly-eq_some :
    (bytes : Bytes) (count position : ℕ) {found : Bytes}
    → 0 < count
    → read_exactly bytes count position ≡ some found
    → (position + count ≤ length bytes) × (found ≡ take count (drop position bytes))
unfolding read_exactly
read_exactly-eq_some bytes count position pos h = ground arith

module _ (bytes : Bytes) {read : Handle} (reads : Reads bytes read) (count position : ℕ) where
  abbrev IsFilled : Bytes → Type 0
  IsFilled got = (got ≡ take (length got) (drop position bytes)) × (length got ≤ count)

  full :
      (got : Bytes)
      → IsFilled got
      → count ≤ length got
      → some got ≡ read_exactly bytes count position
  unfolding read_exactly
  full got (same, le) ge =
      let whole : length got ≡ count = omega arith in
      let held : length got ≡ min (length got) (length bytes - position) =
        ap length same
        ∙ length-take (length got) (drop position bytes)
        ∙ ap (min (length got)) (length-drop position bytes) in
      rw (← whole) (ground (arith, same, held))

  stuck :
      (got : Bytes)
      → length got < count
      → length (read (count - length got) (position + length got)) ≡ 0
      → none ≡ read_exactly bytes count position
  unfolding read_exactly
  stuck got lt nothing = elim (Bool-cases (ltb (position + length got) (length bytes))) [
    | inl inside ↦
        absurd
          (ground (arith, nothing, reads.progress (count - length got) (position + length got)))
    | inr past ↦ ground arith
  ]

  grown :
      (got : Bytes)
      → IsFilled got
      → length got < count
      → IsFilled (got ++ read (count - length got) (position + length got))
  grown got (same, le) lt =
      let chunk = read (count - length got) (position + length got) in
      let at_end = drop position bytes in
      (
        ap (λ r. r ++ chunk) same
            ∙ ap (λ r. take (length got) at_end ++ r)
                (reads.prefix (count - length got) (position + length got)
                  ∙ ap (take (length chunk)) (drop-add position (length got) bytes))
            ∙ sym (take-add (length got) (length chunk) at_end)
            ∙ ap (λ n. take n at_end) (sym (length-append got chunk)),
        omega (
          arith,
          length-append got chunk,
          reads.short (count - length got) (position + length got),
        ),
      )

  read_loop-eq :
      (rounds : ℕ) (got : Bytes)
      → IsFilled got
      → count < rounds + length got
      → read_loop rounds read count position got ≡ read_exactly bytes count position
  unfolding read_loop
  read_loop-eq zero got filled enough = absurd (omega arith)
  read_loop-eq (suc rounds) got filled enough = elim (Bool-cases (ltb (length got) count)) [
    | inr done ↦ rw (done, read_loop) (full got filled (ground arith))
    | inl short ↦
        let chunk = read (count - length got) (position + length got) in
        let lt : length got < count = ltb→lt _ _ short in
        elim (Nat-cases (length chunk)) [
          | inl nothing ↦ rw (short, nothing, read_loop) (stuck got lt nothing)
          | inr (more, some_bytes) ↦
              rw (short, some_bytes, read_loop)
                (read_loop-eq rounds (got ++ chunk) (grown got filled lt)
                  (omega (arith, length-append got chunk)))
        ]
  ]

-- However the handle splits its answers, `readExactly` returns exactly the bytes asked for, or null
-- if and only if the file ends before them: the loop ends, and its result is `read_exactly`.
pub read_all-eq :
    (bytes : Bytes) (read : Handle)
    → Reads bytes read
    → (count position : ℕ) → read_all read count position ≡ read_exactly bytes count position
unfolding read_all
read_all-eq bytes read reads count position =
    read_loop-eq bytes reads count position (suc count) [] (refl, omega arith) (omega arith)
