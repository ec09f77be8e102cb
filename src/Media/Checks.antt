-- ===== src/Media/Checks.antt =====
-- Checks that pass, step by step.
use api_whats_app.Base.{
  ℕ, ◌≤◌, ◌≡◌, refl, Bool, true, false, ◌||◌, not, Option, none, some, ltb, if◌then◌else◌, arith,
}
use api_whats_app.Media.{◌>>=◌, ◌>>◌, require, passes}

pub >>=-eq-some {ℓ κ} :
    {A : Type ℓ} {B : Type κ} (first : Option A) (rest : A → Option B) {last : B}
    → (first >>= rest) ≡ some last
    → (found : A) × (first ≡ some found) × (rest found ≡ some last)
>>=-eq-some none rest h = absurd (cc)
>>=-eq-some (some found) rest h = (found, refl, h)

pub require->>-eq-some {ℓ} :
    {B : Type ℓ} (test : Bool) (rest : Option B) {last : B}
    → (require test >> rest) ≡ some last
    → (test ≡ true) × (rest ≡ some last)
require->>-eq-some false rest h = absurd (cc)
require->>-eq-some true rest h = (refl, h)

-- `if (!stat.isFile() || stat.size < least) return false`
abbrev pub opened : Bool → ℕ → ℕ → Bool → Bool
opened is_file least size body = if not is_file || ltb size least then false else body

pub opened-eq_true :
    (is_file : Bool) (least size : ℕ) (body : Bool)
    → opened is_file least size body ≡ true
    → (is_file ≡ true) × (least ≤ size) × (body ≡ true)
opened-eq_true is_file least size body h = ground arith

pub opened-regular :
    (is_file : Bool) (least size : ℕ) (body : Bool)
    → is_file ≡ true
    → least ≤ size
    → opened is_file least size body ≡ body
opened-regular is_file least size body regular h = ground arith

pub passes-eq_true {ℓ} :
    {A : Type ℓ} (o : Option A) → passes o ≡ true → (found : A) × (o ≡ some found)
passes-eq_true none h = absurd (cc)
passes-eq_true (some found) h = (found, refl)
