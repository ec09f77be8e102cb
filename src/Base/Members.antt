-- ===== src/Base/Members.antt =====
-- Membership in a list, and what `map`, `keep` and `any` do to it.
use mathlib.Core.Path.{◌≡◌, refl, sym, ap, subst, ◌∙◌}
use mathlib.Core.Logic.{◌⊎◌, inl, inr}
use mathlib.Core.Bool.{Bool, true, false}
use mathlib.Core.List.{List, [], ◌∷◌, ◌++◌, map}
use native.Mathlib.Omega.{arith}
use api_whats_app.Base.Tests.{Bool-cases}
use api_whats_app.Base.Lists.{keep, any, All}

module _ {A : Type 0} where
  abbrev pub In : A → List A → Type 0
  In x [] = ⊥
  In x (y ∷ ys) = (x ≡ y) ⊎ In x ys

  keep-hit : (p : A → Bool) (y : A) (ys : List A) → p y ≡ true → keep p (y ∷ ys) ≡ y ∷ keep p ys
  keep-hit p y ys h = ground (arith, h)

  keep-miss : (p : A → Bool) (y : A) (ys : List A) → p y ≡ false → keep p (y ∷ ys) ≡ keep p ys
  keep-miss p y ys h = ground (arith, h)

  pub keep-In : (p : A → Bool) (x : A) (xs : List A) → In x xs → p x ≡ true → In x (keep p xs)
  keep-In p x [] i h = i
  keep-In p x (y ∷ ys) (inl e) h = rw (keep-hit p y ys (ap p (sym e) ∙ h)) (inl e)
  keep-In p x (y ∷ ys) (inr i) h = elim (Bool-cases (p y)) [
    | inl hit ↦ rw (keep-hit p y ys hit) (inr (keep-In p x ys i h))
    | inr miss ↦ rw (keep-miss p y ys miss) (keep-In p x ys i h)
  ]

  pub In-keep : (p : A → Bool) (x : A) (xs : List A) → In x (keep p xs) → In x xs × (p x ≡ true)
  In-keep p x [] i = absurd i
  In-keep p x (y ∷ ys) i = elim (Bool-cases (p y)) [
    | inl hit ↦ first hit (In-keep p x ys) (subst (In x) (keep-hit p y ys hit) i)
    | inr miss ↦ let (k, h) = In-keep p x ys (subst (In x) (keep-miss p y ys miss) i) in (inr k, h)
  ]
    where
      first :
          p y ≡ true
          → (In x (keep p ys) → In x ys × (p x ≡ true))
          → In x (y ∷ keep p ys)
          → In x (y ∷ ys) × (p x ≡ true)
      first hit later (inl e) = (inl e, ap p e ∙ hit)
      first hit later (inr j) = let (k, h) = later j in (inr k, h)

  pub any-eq-true :
      (p : A → Bool) (xs : List A) → any p xs ≡ true → (x : A) × In x xs × (p x ≡ true)
  any-eq-true p [] h = absurd (cc)
  any-eq-true p (y ∷ ys) h = elim (Bool-cases (p y)) [
    | inl hit ↦ (y, inl refl, hit)
    | inr miss ↦ let (x, i, e) = any-eq-true p ys (rw miss at h) in (x, inr i, e)
  ]

  pub any-In : (p : A → Bool) (x : A) (xs : List A) → In x xs → p x ≡ true → any p xs ≡ true
  any-In p x [] i h = absurd i
  any-In p x (y ∷ ys) (inl e) h = rw (rw e at h) refl
  any-In p x (y ∷ ys) (inr i) h = ground (arith, any-In p x ys i h)

module _ {A : Type 0} where
  pub In-append : (x : A) (xs ys : List A) → In x xs → In x (xs ++ ys)
  In-append x [] ys i = absurd i
  In-append x (y ∷ xs) ys (inl e) = inl e
  In-append x (y ∷ xs) ys (inr i) = inr (In-append x xs ys i)

  pub In-last : (x : A) (xs : List A) → In x (xs ++ x ∷ [])
  In-last x [] = inl refl
  In-last x (y ∷ xs) = inr (In-last x xs)

module _ {A B : Type 0} (f : A → B) where
  pub map-In : (x : A) (xs : List A) → In x xs → In (f x) (map f xs)
  map-In x [] i = absurd i
  map-In x (y ∷ ys) (inl e) = inl (ap f e)
  map-In x (y ∷ ys) (inr i) = inr (map-In x ys i)

  pub In-map : (b : B) (xs : List A) → In b (map f xs) → (x : A) × In x xs × (b ≡ f x)
  In-map b [] i = absurd i
  In-map b (y ∷ ys) (inl e) = (y, inl refl, e)
  In-map b (y ∷ ys) (inr i) = let (x, j, e) = In-map b ys i in (x, inr j, e)

module _ {κ} {A : Type 0} (P : A → Type κ) where
  pub All-In : (x : A) (xs : List A) → All P xs → In x xs → P x
  All-In x [] all i = absurd i
  All-In x (y ∷ ys) (h, all) (inl e) = subst P (sym e) h
  All-In x (y ∷ ys) (h, all) (inr i) = All-In x ys all i
