-- ===== src/Queue/Routes.antt =====
-- Where the publications of a delivery go: the queues of `assertTrafficTopology` in
-- src/queue/messaging-queue.service.ts.
use api_whats_app.Base.{
  ℕ, zero, suc, ◌<◌, ◌≡◌, refl, inl, inr, Bool, true, false, ◌||◌, some, List, [], ◌∷◌, ◌++◌, ◌⊎◌,
  sym, length, get_elem?, min, Text, text, text_eq, text_eq_iff, any, arith, Bool-cases, decimal,
}
use mathlib.Core.Path.{subst}
use api_whats_app.Message.{TrafficClass}
use api_whats_app.Queue.{queue_name, dead_queue_name, retry_queue_name}
use api_whats_app.Queue.Delivery.{least, min_delay, leads_back}

module _ (base : Text) (tc : TrafficClass) where
  any-get_elem? :
      (test : ℕ → Bool) (delays : List ℕ) (i : ℕ) {delay : ℕ}
      → get_elem? delays i ≡ some delay
      → test delay ≡ true
      → any test delays ≡ true
  any-get_elem? test [] i found h = ground arith
  any-get_elem? test (d ∷ ds) zero found h = ground arith
  any-get_elem? test (d ∷ ds) (suc i) found h =
      let rest = any-get_elem? test ds i found h in ground (arith, rest)

  text_eq_refl : (t : Text) → text_eq t t ≡ true
  text_eq_refl t = (text_eq_iff t t).1 refl

  or_true : (a b : Bool) → b ≡ true → (a || b) ≡ true
  or_true true b h = refl
  or_true false b h = h

  -- The retry queue of a delay of the schedule leads back.
  pub leads_back-get_elem? :
      (delays : List ℕ) (i : ℕ) {delay : ℕ}
      → get_elem? delays i ≡ some delay
      → leads_back base tc delays (retry_queue_name base tc delay) ≡ true
  unfolding leads_back
  leads_back-get_elem? delays i {delay} found = or_true _ _ (
      any-get_elem? (λ d. text_eq (retry_queue_name base tc delay) (retry_queue_name base tc d))
        delays i found (text_eq_refl (retry_queue_name base tc delay)))

  any-least :
      (test : ℕ → Bool) (d : ℕ) (ds : List ℕ) → test (least d ds) ≡ true → any test (d ∷ ds) ≡ true
  any-least test d [] h = ground arith
  any-least test d (e ∷ es) h = elim (Bool-cases (test (min d e))) [
    | inl here ↦ elim (min-cases d e) [
      | inl first ↦ let hit : test d ≡ true = rw first at here in ground (arith, hit)
      | inr second ↦ let hit : test e ≡ true = rw second at here in ground (arith, hit)
    ]
    | inr miss ↦ let rest = any-least test (min d e) es h in ground (arith, rest, miss)
  ]
    where
      min-cases : (a b : ℕ) → (min a b ≡ a) ⊎ (min a b ≡ b)
      min-cases a b = ground arith

  -- So does that of the least delay.
  pub leads_back-min_delay :
      (delays : List ℕ)
      → 0 < length delays
      → leads_back base tc delays (retry_queue_name base tc (min_delay delays)) ≡ true
  unfolding leads_back
  leads_back-min_delay [] h = absurd (omega arith)
  leads_back-min_delay (d ∷ ds) h = or_true _ _ (
      any-least (λ e. text_eq (retry_queue_name base tc (least d ds)) (retry_queue_name base tc e))
        d ds (text_eq_refl (retry_queue_name base tc (least d ds))))

dead-retry : (q s : Text) → text_eq (q ++ text ".dead") (q ++ text ".retry." ++ s) ≡ false
dead-retry [] s = refl
dead-retry (c ∷ q) s = ground (arith, dead-retry q s)

text_eq-longer : (s : Text) (c : ℕ) (t : Text) → text_eq (s ++ c ∷ t) s ≡ false
text_eq-longer [] c t = refl
text_eq-longer (d ∷ s) c t = ground (arith, text_eq-longer s c t)

abbrev is_dead : Text → TrafficClass → ℕ → Bool
is_dead base tc d = text_eq (dead_queue_name base tc) (retry_queue_name base tc d)

-- The dead-letter queue does not.
pub leads_back-dead :
    (base : Text) (tc : TrafficClass) (delays : List ℕ)
    → leads_back base tc delays (dead_queue_name base tc) ≡ false
unfolding leads_back dead_queue_name retry_queue_name
leads_back-dead base tc delays =
    rw (text_eq-longer (queue_name base tc) b'.' (text "dead")) (none_of delays)
  where
    none_of : (ds : List ℕ) → any (is_dead base tc) ds ≡ false
    none_of [] = refl
    none_of (d ∷ ds) =
        subst (λ b. (b || any (is_dead base tc) ds) ≡ false)
          (sym (dead-retry (queue_name base tc) (decimal d))) (none_of ds)
