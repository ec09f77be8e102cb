-- ===== src/Media/Walk.antt =====
-- The loop that src/media/media-audio-structure.ts runs over the frames of a file, once per format:
-- `while (offset < end && frames < MAX) { ... }`, which ends early where a frame is refused. The
-- state is what the loop keeps besides the offset and the count.
use api_whats_app.Base.{
  ℕ, zero, suc, ◌+◌, ◌-◌, ◌≤◌, ◌<◌, ◌≡◌, refl, sym, ap, ◌∙◌, Bool, true, false, ◌&&◌, Option, none,
  some, List, [], ◌∷◌, ◌++◌, arith, ◌==◌, ltb, length, take, drop, length-drop, length-append,
  Bool-cases, Option-cases, inl, inr,
}
use api_whats_app.Media.{Bytes}
use mathlib.Core.Path.{subst}
use mathlib.Core.Option.{some-injective}

pub record Cursor (State : Type 0) : Type 0 where
  pub offset : ℕ
  pub count : ℕ
  pub state : State

-- All units in a row.
abbrev pub join : List Bytes → Bytes
join [] = []
join (unit ∷ units) = unit ++ join units

module _ {ℓ} {A : Type ℓ} where
  drop-nil : (n : ℕ) → drop {A = A} n [] ≡ []
  drop-nil zero = refl
  drop-nil (suc n) = refl

  pub drop-add : (n m : ℕ) (xs : List A) → drop (n + m) xs ≡ drop m (drop n xs)
  drop-add zero m xs = let e : 0 + m ≡ m = omega arith in rw e refl
  drop-add (suc n) m [] = rw (drop-nil (suc n + m), drop-nil m) refl
  drop-add (suc n) m (x ∷ xs) =
      let e : suc n + m ≡ suc (n + m) = omega arith in rw e (drop-add n m xs)

  pub take-append-drop : (n : ℕ) (xs : List A) → take n xs ++ drop n xs ≡ xs
  take-append-drop zero xs = refl
  take-append-drop (suc n) [] = refl
  take-append-drop (suc n) (x ∷ xs) = ap (λ r. x ∷ r) (take-append-drop n xs)

  pub take-append_self : (xs ys : List A) → take (length xs) (xs ++ ys) ≡ xs
  take-append_self [] ys = refl
  take-append_self (x ∷ xs) ys = ap (λ r. x ∷ r) (take-append_self xs ys)

  pub drop-append_self : (xs ys : List A) → drop (length xs) (xs ++ ys) ≡ ys
  drop-append_self [] ys = refl
  drop-append_self (x ∷ xs) ys = drop-append_self xs ys

  pub drop-length : (n : ℕ) (xs : List A) → length xs ≤ n → drop n xs ≡ []
  drop-length zero [] h = refl
  drop-length zero (x ∷ xs) h = absurd (omega arith)
  drop-length (suc n) [] h = refl
  drop-length (suc n) (x ∷ xs) h = drop-length n xs (omega arith)

module _ {State : Type 0} (next : ℕ → State → Option (ℕ × State)) (stop : ℕ) where
  -- The rounds are those that MAX leaves, so that running out of them is the test on `frames`.
  unfoldable pub walk : ℕ → ℕ → ℕ → State → Option (Cursor State)
  walk zero offset count state = some (record { offset = offset; count = count; state = state })
  walk (suc rounds) offset count state = elim (ltb offset stop) [
    | true ↦ elim (next offset state) [
      | none ↦ none
      | some (unit, state') ↦ walk rounds (offset + unit) (count + 1) state'
    ]
    | false ↦ some (record { offset = offset; count = count; state = state })
  ]

-- `return offset === end && frames > 0 && frames < MAX`, after a loop that no frame has ended.
unfoldable pub ends : {State : Type 0} → ℕ → ℕ → Option (Cursor State) → Bool
ends most stop none = false
ends most stop (some c) = c.offset == stop && ltb 0 c.count && ltb c.count most

-- The units in a row, each read in the state that the one before it leaves.
module _ {State : Type 0} (accept : Bytes → State → Option State) where
  unfoldable pub read_units : List Bytes → State → Option State
  read_units [] state = some state
  read_units (unit ∷ units) state = elim (accept unit state) [
    | none ↦ none
    | some state' ↦ read_units units state'
  ]

  pub record Units (region : Bytes) (first last : State) (count : ℕ) : Type 0 where
    pub units : List Bytes
    pub joined : join units ≡ region
    pub accepted : read_units units first ≡ some last
    pub counted : length units ≡ count

-- What a reader of one unit at an offset has in common with a reader of that unit alone.
module _ {State : Type 0} (next : ℕ → State → Option (ℕ × State))
    (accept : Bytes → State → Option State) (region : Bytes) where
  abbrev pub IsSound : Type 0
  IsSound =
      (offset unit : ℕ) (state state' : State)
      → next offset state ≡ some (unit, state')
      → (0 < unit)
        × (offset + unit ≤ length region)
        × (accept (take unit (drop offset region)) state ≡ some state')

  abbrev pub IsComplete : Type 0
  IsComplete =
      (offset : ℕ) (unit rest : Bytes) (state state' : State)
      → drop offset region ≡ unit ++ rest
      → accept unit state ≡ some state'
      → (0 < length unit) × (next offset state ≡ some (length unit, state'))

module _ {State : Type 0} (next : ℕ → State → Option (ℕ × State))
    (accept : Bytes → State → Option State) (region : Bytes) where
  abbrev run : ℕ → ℕ → ℕ → State → Option (Cursor State)
  run = walk next (length region)

  cons-Units :
      (offset unit : ℕ) {state mid last : State} {k : ℕ}
      → accept (take unit (drop offset region)) state ≡ some mid
      → Units accept (drop (offset + unit) region) mid last k
      → Units accept (drop offset region) state last (suc k)
  unfolding read_units
  cons-Units offset unit h u = record {
    units = take unit (drop offset region) ∷ u.units;
    joined =
        ap (λ r. take unit (drop offset region) ++ r) (u.joined ∙ drop-add offset unit region)
        ∙ take-append-drop unit (drop offset region);
    accepted = rw (h, read_units) u.accepted;
    counted = ap suc u.counted;
  }

  nil-Units :
      (offset : ℕ) {state : State}
      → length region ≤ offset
      → Units accept (drop offset region) state state 0
  unfolding read_units
  nil-Units offset h = record {
    units = [];
    joined = sym (drop-length offset region h);
    accepted = refl;
    counted = refl;
  }

  abbrev Rest : ℕ → ℕ → State → Cursor State → Type 0
  Rest offset count state c =
      c.offset ≡ length region
      → (k : ℕ) × (c.count ≡ count + k) × Units accept (drop offset region) state c.state k

  stopped-Units :
      (offset count : ℕ) (state : State) {c : Cursor State}
      → ◌≡◌ {A = Option (Cursor State)}
          (some (record { offset = offset; count = count; state = state }))
          (some c)
      → Rest offset count state c
  stopped-Units offset count state h =
      subst (Rest offset count state) (some-injective _ _ h)
        (λ e. (0, omega arith, nil-Units offset (omega arith)))

  -- A walk that ends at the end has cut the rest of the region in units.
  pub walk-Units :
      IsSound next accept region
      → (rounds offset count : ℕ) (state : State) {c : Cursor State}
      → run rounds offset count state ≡ some c
      → Rest offset count state c
  unfolding walk
  walk-Units sound zero offset count state h e = stopped-Units offset count state h e
  walk-Units sound (suc rounds) offset count state h e =
      elim (Bool-cases (ltb offset (length region))) [
        | inr past ↦ stopped-Units offset count state (rw (past, walk) at h) e
        | inl inside ↦ elim (Option-cases (next offset state)) [
          | inl refused ↦ absurd (cc (rw (inside, refused, walk) at h))
          | inr ((unit, mid), read) ↦
              let (pos, fits, alone) = sound offset unit state mid read in
              let (k, counted, units) =
                walk-Units sound rounds (offset + unit) (count + 1) mid
                  (rw (inside, read, walk) at h) e in
              (suc k, omega arith, cons-Units offset unit alone units)
        ]
      ]

  walk-stop :
      (rounds count : ℕ) (state : State)
      → run rounds (length region) count state
        ≡ some (record { offset = length region; count = count; state = state })
  unfolding walk
  walk-stop zero count state = refl
  walk-stop (suc rounds) count state =
      let past : ltb (length region) (length region) ≡ false = ground arith in rw (past, walk) refl

  -- Whatever cuts the rest of the region in units, no more than the rounds left, is what a walk
  -- finds.
  pub walk_complete :
      IsComplete next accept region
      → (rounds offset count : ℕ) (units : List Bytes) (state last : State)
      → join units ≡ drop offset region
      → offset ≤ length region
      → read_units accept units state ≡ some last
      → length units ≤ rounds
      → run rounds offset count state
        ≡ some (record { offset = length region; count = count + length units; state = last })
  unfolding walk read_units
  walk_complete complete rounds offset count [] state last j le h few =
      let at_end : offset ≡ length region =
        omega (arith, ap length j, length-drop {0} offset region) in
      let same : count + 0 ≡ count = omega arith in
      rw (at_end, same, ← some-injective _ _ h) (walk-stop rounds count state)
  walk_complete complete zero offset count (unit ∷ units) state last j le h few =
      absurd (omega arith)
  walk_complete complete (suc rounds) offset count (unit ∷ units) state last j le h few =
      elim (Option-cases (accept unit state)) [
        | inl refused ↦ absurd (cc (rw (refused, read_units) at h))
        | inr (mid, alone) ↦
            let (pos, read) = complete offset unit (join units) state mid (sym j) alone in
            let total : length unit + length (join units) ≡ length region - offset =
              sym (length-append unit (join units)) ∙ ap length j ∙ length-drop offset region in
            let inside : ltb offset (length region) ≡ true = ground arith in
            let sum : count + suc (length units) ≡ count + 1 + length units = omega arith in
            rw (inside, read, sum, walk)
              (walk_complete complete rounds (offset + length unit) (count + 1) units mid last
                (sym (
                  drop-add offset (length unit) region
                  ∙ ap (drop (length unit)) (sym j)
                  ∙ drop-append_self unit (join units)))
                (omega arith) (rw (alone, read_units) at h) (omega arith))
      ]

  -- The region from `offset` on is a row of units, fewer than `most` and one at least.
  abbrev pub IsRow : ℕ → ℕ → State → Type 0
  IsRow most offset state =
      (last : State) × (k : ℕ) × (0 < k)
      × (k < most)
      × Units accept (drop offset region) state last k

  ends-split :
      (most : ℕ) (w : Option (Cursor State))
      → ends most (length region) w ≡ true
      → (c : Cursor State) × (w ≡ some c)
        × (c.offset ≡ length region)
        × (0 < c.count)
        × (c.count < most)
  unfolding ends
  ends-split most none h = absurd (cc)
  ends-split most (some c) h = (c, refl, ground arith, ground arith, ground arith)

  pub ends-IsRow :
      IsSound next accept region
      → (most offset : ℕ) (state : State)
      → ends most (length region) (run most offset 0 state) ≡ true
      → IsRow most offset state
  ends-IsRow sound most offset state h =
      let (c, walked, at_end, some_unit, few) = ends-split most (run most offset 0 state) h in
      let (k, counted, units) = walk-Units sound most offset 0 state walked at_end in
      (c.state, k, omega arith, omega arith, units)

  pub IsRow-ends :
      IsComplete next accept region
      → (most offset : ℕ) (state : State) → offset ≤ length region
      → IsRow most offset state
      → ends most (length region) (run most offset 0 state) ≡ true
  unfolding ends
  IsRow-ends complete most offset state le (last, k, some_unit, few, u) =
      rw
        (walk_complete complete most offset 0 u.units state last u.joined le u.accepted
          (omega (arith, u.counted)))
        (ground (arith, u.counted))
