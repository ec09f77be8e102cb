-- ===== src/Base/Batch.antt =====
-- `updateMany` by a condition, and the `UPDATE ... FROM candidates` that claims a batch of rows: what
-- they do to each row of a table.
use Prim.Native.Nat.{ℕ, ◌-◌, ◌≤◌}
use mathlib.Core.Path.{◌≡◌, refl}
use mathlib.Core.Bool.{Bool, true, ◌&&◌}
use mathlib.Core.Logic.{◌⊎◌}
use mathlib.Core.List.{List, [], ◌∷◌}
use mathlib.Core.Option
use mathlib.Core.Option.{Option, none, some}
use native.Mathlib.Omega.{arith}
use api_whats_app.Base.Tests.{ltb, if◌then◌else◌}
use api_whats_app.Base.Lists.{count_if, length}
use api_whats_app.Base.Table.{Row, find}

module _ {ℓ} {A : Type ℓ} where
  abbrev pub update_where : (A → Bool) → (A → A) → List A → List A
  update_where test f [] = []
  update_where test f (x ∷ xs) = (if test x then f x else x) ∷ update_where test f xs

  -- The first `n` rows that pass the test are changed, in the order of the list.
  abbrev pub claim_first : ℕ → (A → Bool) → (A → A) → List A → List A
  claim_first n test f [] = []
  claim_first n test f (x ∷ xs) =
      let hit = test x && ltb 0 n in
      (if hit then f x else x) ∷ claim_first (if hit then n - 1 else n) test f xs

  -- The rows that are claimed, as they read then.
  abbrev pub claimed_first : ℕ → (A → Bool) → (A → A) → List A → List A
  claimed_first n test f [] = []
  claimed_first n test f (x ∷ xs) =
      let hit = test x && ltb 0 n in
      let rest = claimed_first (if hit then n - 1 else n) test f xs in
      if hit then f x ∷ rest else rest

  pub length-claimed_first :
      (n : ℕ) (test : A → Bool) (f : A → A) (xs : List A) → length (claimed_first n test f xs) ≤ n
  length-claimed_first n test f [] = omega arith
  length-claimed_first n test f (x ∷ xs) =
      ground (arith, length-claimed_first (n - 1) test f xs, length-claimed_first n test f xs)

  -- A change that makes no row pass keeps a count from growing.
  pub count_if-update_where :
      (p test : A → Bool) (f : A → A) (xs : List A)
      → ((x : A) → test x ≡ true → p (f x) ≡ true → p x ≡ true)
      → count_if p (update_where test f xs) ≤ count_if p xs
  count_if-update_where p test f [] h = omega arith
  count_if-update_where p test f (x ∷ xs) h =
      ground (arith, h x, count_if-update_where p test f xs h)

  pub count_if-claim_first :
      (p test : A → Bool) (f : A → A) (n : ℕ) (xs : List A)
      → ((x : A) → test x ≡ true → p (f x) ≡ true → p x ≡ true)
      → count_if p (claim_first n test f xs) ≤ count_if p xs
  count_if-claim_first p test f n [] h = omega arith
  count_if-claim_first p test f n (x ∷ xs) h =
      ground (
        arith,
        h x,
        count_if-claim_first p test f (n - 1) xs h,
        count_if-claim_first p test f n xs h,
      )

module _ {ℓ} {A : Type ℓ} ⦃r : Row A⦄ where
  pub find-update_where :
      (j : ℕ) (test : A → Bool) (f : A → A) (xs : List A)
      → ((a : A) → r.key (f a) ≡ r.key a)
      → find j (update_where test f xs) ≡ Option.map (λ a. if test a then f a else a) (find j xs)
  find-update_where j test f [] h = refl
  find-update_where j test f (x ∷ xs) h = ground (arith, h x, find-update_where j test f xs h)

  -- A row after a claim: as it was, or claimed, which it must have passed the test for.
  pub find-claim_first :
      (j n : ℕ) (test : A → Bool) (f : A → A) (xs : List A) {a : A}
      → ((x : A) → r.key (f x) ≡ r.key x)
      → find j xs ≡ some a
      → (find j (claim_first n test f xs) ≡ some a)
        ⊎ ((test a ≡ true) × (find j (claim_first n test f xs) ≡ some (f a)))
  find-claim_first j n test f [] h e = absurd (cc)
  find-claim_first j n test f (x ∷ xs) {a} h e = ground (
    arith,
    h x,
    find-claim_first j (n - 1) test f xs {a = a} h,
    find-claim_first j n test f xs {a = a} h,
    e,
  )

  pub find-claim_first-none :
      (j n : ℕ) (test : A → Bool) (f : A → A) (xs : List A)
      → ((x : A) → r.key (f x) ≡ r.key x)
      → find j xs ≡ none
      → find j (claim_first n test f xs) ≡ none
  find-claim_first-none j n test f [] h e = refl
  find-claim_first-none j n test f (x ∷ xs) h e = ground (
    arith,
    h x,
    find-claim_first-none j (n - 1) test f xs h,
    find-claim_first-none j n test f xs h,
    e,
  )
