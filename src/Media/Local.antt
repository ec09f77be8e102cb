-- ===== src/Media/Local.antt =====
-- Reading inside a unit of a file: the bytes that `readExactly` returns there are those of the unit,
-- wherever the unit stands in the file.
use api_whats_app.Base.{
  ℕ, zero, suc, ◌||◌, ◌==◌, leb, Bool-cases, inl, inr, ◌+◌, ◌-◌, ◌≤◌, ◌<◌, ◌≡◌, refl, sym, ap, ◌∙◌,
  some, [], ◌∷◌, ◌++◌, arith, length, take, drop, length-drop, length-append, length-take, min,
}
use mathlib.Core.Option.{some-injective}
use api_whats_app.Media.{Bytes, read_exactly}
use api_whats_app.Media.Walk.{drop-add, take-append-drop}
use api_whats_app.Media.Reads.{read_exactly-fits}

pub take-append_le : (n : ℕ) (xs ys : Bytes) → n ≤ length xs → take n (xs ++ ys) ≡ take n xs
take-append_le zero xs ys h = refl
take-append_le (suc n) [] ys h = absurd (omega arith)
take-append_le (suc n) (x ∷ xs) ys h = ap (λ r. x ∷ r) (take-append_le n xs ys (omega arith))

pub drop-append_le : (n : ℕ) (xs ys : Bytes) → n ≤ length xs → drop n (xs ++ ys) ≡ drop n xs ++ ys
drop-append_le zero xs ys h = refl
drop-append_le (suc n) [] ys h = absurd (omega arith)
drop-append_le (suc n) (x ∷ xs) ys h = drop-append_le n xs ys (omega arith)

pub length-stands :
    (bytes : Bytes) (offset : ℕ) (unit rest : Bytes)
    → drop offset bytes ≡ unit ++ rest
    → length bytes - offset ≡ length unit + length rest
length-stands bytes offset unit rest there =
    sym (length-drop offset bytes) ∙ ap length there ∙ length-append unit rest

pub read_exactly-inside :
    (bytes : Bytes) (offset : ℕ) (unit rest : Bytes) (first count : ℕ)
    → drop offset bytes ≡ unit ++ rest
    → 0 < length unit
    → first + count ≤ length unit
    → read_exactly bytes count (offset + first) ≡ some (take count (drop first unit))
read_exactly-inside bytes offset unit rest first count there some_byte fits =
    read_exactly-fits bytes count (offset + first)
      (omega (arith, length-stands bytes offset unit rest there))
    ∙ ap (λ r. some (take count r))
        (drop-add offset first bytes
          ∙ ap (drop first) there
          ∙ drop-append_le first unit rest (omega arith))
    ∙ ap some (take-append_le count (drop first unit) rest (omega (arith, length-drop first unit)))

pub read_exactly-start :
    (bytes : Bytes) (offset : ℕ) (unit rest : Bytes) (count : ℕ)
    → drop offset bytes ≡ unit ++ rest
    → 0 < length unit
    → count ≤ length unit
    → read_exactly bytes count offset ≡ some (take count unit)
read_exactly-start bytes offset unit rest count there some_byte fits =
    let same : offset + 0 ≡ offset = omega arith in
    rw (← same) (read_exactly-inside bytes offset unit rest 0 count there some_byte (omega arith))

-- The bytes from `offset` on that a length gives.
pub cut :
    (bytes : Bytes) (offset n : ℕ)
    → drop offset bytes ≡ take n (drop offset bytes) ++ drop n (drop offset bytes)
cut bytes offset n = sym (take-append-drop n (drop offset bytes))

pub length-cut :
    (bytes : Bytes) (offset n : ℕ)
    → offset + n ≤ length bytes
    → length (take n (drop offset bytes)) ≡ n
length-cut bytes offset n h =
    omega (arith, length-take n (drop offset bytes), length-drop offset bytes)

pub take-take : (n m : ℕ) (xs : Bytes) → n ≤ m → take n (take m xs) ≡ take n xs
take-take zero m xs h = refl
take-take (suc n) zero xs h = absurd (omega arith)
take-take (suc n) (suc m) [] h = refl
take-take (suc n) (suc m) (x ∷ xs) h = ap (λ r. x ∷ r) (take-take n m xs (omega arith))

pub take-min : (n : ℕ) (xs : Bytes) → take (min n (length xs)) xs ≡ take n xs
take-min zero xs = let e : min 0 (length xs) ≡ 0 = omega arith in rw e refl
take-min (suc n) [] = let e : min (suc n) 0 ≡ 0 = omega arith in rw e refl
take-min (suc n) (x ∷ xs) =
    let e : min (suc n) (suc (length xs)) ≡ suc (min n (length xs)) = omega arith in
    rw e (ap (λ r. x ∷ r) (take-min n xs))

pub read_exactly-take :
    (bytes : Bytes) (count offset : ℕ) {found : Bytes}
    → read_exactly bytes count offset ≡ some found
    → found ≡ take count (drop offset bytes)
unfolding read_exactly
read_exactly-take bytes count offset h =
    elim (Bool-cases (count == 0 || leb (offset + count) (length bytes))) [
      | inl there ↦ sym (some-injective _ _ (rw there at h))
      | inr ends ↦ absurd (cc (rw ends at h))
    ]
