-- ===== src/Inbox/Inversion.antt =====
-- What a successful step of a transaction of src/inbox tells of its parts.
use mathlib.Core.Option.{some-injective}
use api_whats_app.Base.{
  ℕ, ◌≡◌, refl, Bool, true, false, Option, none, some, ◌==◌, if◌then◌else◌, sym, ap, ◌∙◌, ==_iff,
}
pub use api_whats_app.Base.Result.{
  ok-injective, >>=-eq-ok, guard-eq-ok, guard->>-eq-ok, or_fail-eq-ok,
}
use api_whats_app.Inbox.{of_tenant}

pub if_some-eq-some {ℓ} :
    {A : Type ℓ} (test : Bool) {x a : A}
    → (if test then some x else none) ≡ some a
    → (test ≡ true) × (x ≡ a)
if_some-eq-some true h = (refl, some-injective _ _ h)
if_some-eq-some false h = absurd (cc)

pub of_tenant-eq-some {ℓ} :
    {A : Type ℓ} (tenant : A → ℕ) (t : ℕ) (o : Option A) {a : A}
    → of_tenant tenant t o ≡ some a
    → (o ≡ some a) × (tenant a ≡ t)
of_tenant-eq-some tenant t none h = absurd (cc)
of_tenant-eq-some tenant t (some x) h =
    let (hit, same) = if_some-eq-some (tenant x == t) h in
    (ap some same, ap tenant (sym same) ∙ (==_iff _ _).0 hit)
