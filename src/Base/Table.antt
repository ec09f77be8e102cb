-- ===== src/Base/Table.antt =====
-- A table of rows with a numeric key: what `findUnique` and `update` by id do to it. Ids of the
-- source are opaque texts that are only compared; here they are numbers.
use Prim.Native.Nat.{ℕ, ◌+◌}
use mathlib.Core.Path.{◌≡◌, refl, ap, subst}
use mathlib.Core.Logic.{◌≢◌, inl, inr}
use mathlib.Core.Bool.{Bool}
use mathlib.Core.List.{List, [], ◌∷◌, ◌++◌}
use mathlib.Core.Option
use mathlib.Core.Option.{Option, none, some, some-injective}
use native.Mathlib.Omega.{arith}
use api_whats_app.Base.Tests.{◌==◌, if◌then◌else◌, Bool-cases, ==_iff}
use api_whats_app.Base.Lists.{All, count_if}

pub record Row {ℓ} (A : Type ℓ) : Type ℓ where
  pub key : A → ℕ

module _ {ℓ} {A : Type ℓ} ⦃r : Row A⦄ where
  abbrev pub find : ℕ → List A → Option A
  find k [] = none
  find k (x ∷ xs) = let rest = find k xs in if r.key x == k then some x else rest

  -- The row with the key is changed in place; a missing key changes nothing.
  abbrev pub modify : ℕ → (A → A) → List A → List A
  modify k f [] = []
  modify k f (x ∷ xs) = (if r.key x == k then f x else x) ∷ modify k f xs

  -- A change keeps the keys.
  abbrev pub KeepsKey : (A → A) → Type ℓ
  KeepsKey f = (a : A) → r.key (f a) ≡ r.key a

  pub find-modify :
      (k j : ℕ) (f : A → A) (xs : List A)
      → ((a : A) → r.key (f a) ≡ r.key a)
      → find j (modify k f xs) ≡ (if k == j then Option.map f (find j xs) else find j xs)
  find-modify k j f [] h = ground arith
  find-modify k j f (x ∷ xs) h = ground (arith, h x, find-modify k j f xs h)

  pub find-key : (k : ℕ) (xs : List A) {a : A} → find k xs ≡ some a → r.key a ≡ k
  find-key k [] e = ground arith
  find-key k (x ∷ xs) {a} e = ground (arith, find-key k xs {a = a})

  -- New rows at the end hide none.
  pub find-append :
      (k : ℕ) (xs ys : List A) {a : A} → find k xs ≡ some a → find k (xs ++ ys) ≡ some a
  find-append k [] ys e = absurd (cc)
  find-append k (x ∷ xs) ys {a} e = ground (arith, find-append k xs ys {a = a}, e)

  -- No two rows share a key.
  abbrev pub Distinct : List A → Type ℓ
  Distinct [] = Unit
  Distinct (x ∷ xs) = All (λ y. r.key y ≢ r.key x) xs × Distinct xs

  All-key-modify :
      (n k : ℕ) (f : A → A) (xs : List A)
      → ((a : A) → r.key (f a) ≡ r.key a)
      → All (λ y. r.key y ≢ n) xs
      → All (λ y. r.key y ≢ n) (modify k f xs)
  All-key-modify n k f [] h all = tt
  All-key-modify n k f (x ∷ xs) h (p, all) = (ground (arith, h x), All-key-modify n k f xs h all)

  pub Distinct-modify :
      (k : ℕ) (f : A → A) (xs : List A)
      → ((a : A) → r.key (f a) ≡ r.key a)
      → Distinct xs
      → Distinct (modify k f xs)
  Distinct-modify k f [] h d = tt
  Distinct-modify k f (x ∷ xs) h (p, d) = elim (Bool-cases (r.key x == k)) [
    | inl e ↦ rw e (rw (h x) (All-key-modify (r.key x) k f xs h p), Distinct-modify k f xs h d)
    | inr e ↦ rw e (All-key-modify (r.key x) k f xs h p, Distinct-modify k f xs h d)
  ]

  pub All-find {κ} :
      (P : A → Type κ) (k : ℕ) (xs : List A) {a : A} → All P xs → find k xs ≡ some a → P a
  All-find P k [] all e = absurd (cc)
  All-find P k (x ∷ xs) {a} (p, all) e = elim (Bool-cases (r.key x == k)) [
    | inl hit ↦ subst P (some-injective _ _ (rw hit at e)) p
    | inr miss ↦ All-find P k xs all (rw miss at e)
  ]

  -- A row that is not there is not changed.
  pub modify-fresh :
      (k : ℕ) (f : A → A) (xs : List A) → All (λ y. r.key y ≢ k) xs → modify k f xs ≡ xs
  modify-fresh k f [] all = refl
  modify-fresh k f (x ∷ xs) (p, all) = ground (arith, modify-fresh k f xs all)

  -- One row of a table changes: the rows that pass a test are as many as before, but for that row.
  pub count_if-modify :
      (test : A → Bool) (k : ℕ) (f : A → A) (xs : List A) {a : A}
      → Distinct xs
      → find k xs ≡ some a
      → count_if test (modify k f xs) + (if test a then 1 else 0)
        ≡ count_if test xs + (if test (f a) then 1 else 0)
  count_if-modify test k f [] d e = absurd (cc)
  count_if-modify test k f (x ∷ xs) {a} (fresh, d) e = elim (Bool-cases (r.key x == k)) [
    | inl hit ↦
        let same : r.key x ≡ k = (==_iff _ _).0 hit in
        let one : x ≡ a = some-injective _ _ (rw hit at e) in
        let rest : modify k f xs ≡ xs =
          modify-fresh k f xs (subst (λ n. All (λ y. r.key y ≢ n) xs) same fresh) in
        let counted = ap (count_if test) rest in rw hit (rw (← one) (ground (arith, counted)))
    | inr miss ↦
        let ih = count_if-modify test k f xs {a = a} d (rw miss at e) in
        rw miss (ground (arith, ih))
  ]

  -- A change that is undone leaves the table as it was.
  pub modify-modify :
      (k : ℕ) (f g : A → A) (xs : List A) {a : A}
      → ((x : A) → r.key (f x) ≡ r.key x)
      → Distinct xs
      → find k xs ≡ some a
      → g (f a) ≡ a
      → modify k g (modify k f xs) ≡ xs
  modify-modify k f g [] keeps d e undo = refl
  modify-modify k f g (x ∷ xs) {a} keeps (fresh, d) e undo = elim (Bool-cases (r.key x == k)) [
    | inl hit ↦
        let same : r.key x ≡ k = (==_iff _ _).0 hit in
        let one : x ≡ a = some-injective _ _ (rw hit at e) in
        let all = subst (λ n. All (λ y. r.key y ≢ n) xs) same fresh in
        let rest : modify k f xs ≡ xs = modify-fresh k f xs all in
        rw (hit, rest, modify-fresh k g xs all)
          (ground (arith, keeps x, hit, ap g (ap f one), undo, one))
    | inr miss ↦
        let ih = modify-modify k f g xs {a = a} keeps d (rw miss at e) undo in
        rw miss (rw miss (ground (arith, ih)))
  ]
