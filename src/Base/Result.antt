-- ===== src/Base/Result.antt =====
-- The exceptions that the services of src throw at their callers, and blocks that may throw one.
use mathlib.Core.Path.{◌≡◌, refl}
use mathlib.Core.Logic.{◌⊎◌, inl, inr}
use mathlib.Core.Bool.{Bool, true, false}
use mathlib.Core.Option.{Option, none, some}
use api_whats_app.Base.Tests.{if◌then◌else◌}
use api_whats_app.Base.Strings.{Text}

-- The exceptions of the services, with their messages.
pub data HttpError : Type 0 where
  bad_request not_found unprocessable conflict : Text → HttpError

-- A value, or the exception that ends the transaction.
pub data Result {ℓ} (Value : Type ℓ) : Type ℓ where
  err : HttpError → Result Value
  ok : Value → Result Value

-- `if (!row) throw`
abbrev pub or_fail {ℓ} : {Row : Type ℓ} → HttpError → Option Row → Result Row
or_fail exception none = err exception
or_fail exception (some row) = ok row

-- `if (!test) throw`
abbrev pub guard : Bool → HttpError → Result (Unit {0})
guard false exception = err exception
guard true _ = ok tt

abbrev pub ◌>>=◌ {ℓ κ} :
    {Value : Type ℓ} → {Next : Type κ} → Result Value → (Value → Result Next) → Result Next
err exception >>= rest = err exception
ok value >>= rest = rest value

abbrev pub ◌>>◌ {ℓ} : {Next : Type ℓ} → Result (Unit {0}) → Result Next → Result Next
first >> rest = first >>= λ _. rest

infixl 5 ◌>>◌ ◌>>=◌
pub ok-injective {ℓ} : {A : Type ℓ} {a b : A} → ok a ≡ ok b → a ≡ b
ok-injective h = cc

-- A block that succeeds: its head succeeds, and so does the rest at its value.
pub >>=-eq-ok {ℓ κ} :
    {Value : Type ℓ} {Next : Type κ} (head : Result Value) (rest : Value → Result Next)
    {last : Next}
    → (head >>= rest) ≡ ok last
    → (value : Value) × (head ≡ ok value) × (rest value ≡ ok last)
>>=-eq-ok (err exception) rest done = absurd (cc)
>>=-eq-ok (ok value) rest done = (value, refl, done)

pub guard-eq-ok : (test : Bool) (e : HttpError) {u : Unit {0}} → guard test e ≡ ok u → test ≡ true
guard-eq-ok true e h = refl
guard-eq-ok false e h = cc

-- A guard at the head of a block.
pub guard->>-eq-ok {ℓ} :
    {B : Type ℓ} (test : Bool) (e : HttpError) (k : Result B) {b : B}
    → (guard test e >> k) ≡ ok b
    → (test ≡ true) × (k ≡ ok b)
guard->>-eq-ok true e k h = (refl, h)
guard->>-eq-ok false e k h = absurd (cc)

pub or_fail-eq-ok {ℓ} :
    {A : Type ℓ} (e : HttpError) (o : Option A) {a : A} → or_fail e o ≡ ok a → o ≡ some a
or_fail-eq-ok e none h = cc
or_fail-eq-ok e (some a) h = cc

-- A test that ends the block early.
pub if_ok-eq-ok {ℓ} :
    {Value : Type ℓ} (test : Bool) {early last : Value} (rest : Result Value)
    → (if test then ok early else rest) ≡ ok last
    → (early ≡ last) ⊎ (rest ≡ ok last)
if_ok-eq-ok true rest done = inl (ok-injective done)
if_ok-eq-ok false rest done = inr done
