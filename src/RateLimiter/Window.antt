-- ===== src/RateLimiter/Window.antt =====
-- The bound that `RESERVE_SLOT_LUA` and `waitForOutboundSlot` of
-- src/worker/distributed-rate-limiter.service.ts enforce on each window of a second.
use mathlib.Core.Path.{subst, sym}
use api_whats_app.Base.{
  ℕ, suc, ◌+◌, ◌*◌, ◌/◌, ◌%◌, ◌≤◌, ◌<◌, ◌≡◌, refl, if◌then◌else◌, leb, Bool, true, false, none,
  some, List, [], ◌∷◌, All, arith, Bool-cases, ◌⊎◌, inl, inr, ◌&&◌,
}
use api_whats_app.Message.{TrafficClass, otp, transactional, marketing, same_class}
use api_whats_app.RateLimiter.{
  Key, total_key, class_key, Entry, Redis, get_count, increment, put, reserve_slot, Config,
  reserved_class_limit, class_limit_at, try_slot, reservation_window_ms,
}

-- One attempt of some worker: the class and the instant.
pub record Attempt : Type 0 where
  pub traffic_class : TrafficClass
  pub now : ℕ

-- How many attempts of a class that passes `chosen` are accepted, in order.
pub accepted : (TrafficClass → Bool) → Config → ℕ → List Attempt → Redis → ℕ
accepted chosen c limit [] redis = 0
accepted chosen c limit (a ∷ attempts) redis =
    let (redis', taken) = try_slot c limit a.traffic_class a.now redis in
    let rest = accepted chosen c limit attempts redis' in
    if taken && chosen a.traffic_class then suc rest else rest

-- The counter with the key reads `n` all through the window: it is not there yet and `n` is 0, or it
-- holds `n` and outlives the window.
abbrev pub Counts : ℕ → Key → ℕ → Redis → Type 0
Counts window k n redis =
    ((redis k ≡ none) × (n ≡ 0))
    ⊎ ((e : Entry) × (redis k ≡ some e) × (e.value ≡ n) × (window * 1000 + 1000 ≤ e.expires_at))

Counts-get :
    (window now : ℕ) (k : Key) (n : ℕ) (redis : Redis)
    → now / 1000 ≡ window
    → Counts window k n redis
    → get_count now k redis ≡ n
Counts-get window now k n redis here (inl (e, z)) = ground (arith, e)
Counts-get window now k n redis here (inr (e, at, holds, late)) = ground (arith, at)

Counts-increment :
    (window now : ℕ) (k : Key) (n : ℕ) (redis : Redis)
    → now / 1000 ≡ window
    → Counts window k n redis
    → ((increment now 2000 (redis k)).value ≡ n + 1)
      × (window * 1000 + 1000 ≤ (increment now 2000 (redis k)).expires_at)
unfolding increment
Counts-increment window now k n redis here (inl (e, z)) = rw (e, increment) (ground arith)
Counts-increment window now k n redis here (inr (e, at, holds, late)) =
    rw (at, increment) (ground arith)

same_class_refl : (c : TrafficClass) → same_class c c ≡ true
same_class_refl otp = refl
same_class_refl transactional = refl
same_class_refl marketing = refl

-- Both counters after an accepted reservation.
abbrev reserved : ℕ → ℕ → TrafficClass → Redis → Redis
reserved window now c redis =
    put (class_key window c) (increment now 2000 (redis (class_key window c)))
      (put (total_key window) (increment now 2000 (redis (total_key window))) redis)

module _ (window now : ℕ) (c : TrafficClass) (limit class_limit : ℕ) (redis : Redis)
    (here : now / 1000 ≡ window) where
  reserve_slot-cases :
      ((reserve_slot now window c limit class_limit 2000 redis) ≡ (redis, false))
      ⊎ ((get_count now (total_key window) redis < limit)
          × (get_count now (class_key window c) redis < class_limit)
          × (reserve_slot now window c limit class_limit 2000 redis
              ≡ (reserved window now c redis, true)))
  unfolding reserve_slot
  reserve_slot-cases = ground arith

  after_total :
      (n : ℕ)
      → Counts window (total_key window) n redis
      → Counts window (total_key window) (n + 1) (reserved window now c redis)
  after_total n counts =
      let (value, late) = Counts-increment window now (total_key window) n redis here counts in
      inr (increment now 2000 (redis (total_key window)), ground arith, value, late)

  after_class :
      (n : ℕ)
      → Counts window (class_key window c) n redis
      → Counts window (class_key window c) (n + 1) (reserved window now c redis)
  after_class n counts =
      let (value, late) = Counts-increment window now (class_key window c) n redis here counts in
      inr (
        increment now 2000 (redis (class_key window c)),
        ground (arith, same_class_refl c),
        value,
        late,
      )

  after_other_class :
      (n : ℕ) (d : TrafficClass)
      → same_class c d ≡ false
      → Counts window (class_key window d) n redis
      → Counts window (class_key window d) n (reserved window now c redis)
  after_other_class n d differs (inl (e, z)) = inl (ground (arith, e, differs), z)
  after_other_class n d differs (inr (e, at, value, late)) =
      inr (e, ground (arith, at, differs), value, late)

abbrev pub everyone : TrafficClass → Bool
everyone c = true

accepted-total :
    (c : Config) (limit window n : ℕ) (attempts : List Attempt) (redis : Redis)
    → All (λ a. a.now / 1000 ≡ window) attempts
    → Counts window (total_key window) n redis
    → n ≤ limit
    → n + accepted everyone c limit attempts redis ≤ limit
unfolding accepted try_slot
accepted-total c limit window n [] redis within counts le = omega arith
accepted-total c limit window n (a ∷ attempts) redis (here, within) counts le =
    elim (reserve_slot-cases window a.now a.traffic_class limit
      (class_limit_at c limit a.traffic_class a.now) redis here) [
        | inl e ↦ rw here (rw e (accepted-total c limit window n attempts redis within counts le))
        | inr (total, class, e) ↦
            let below : n < limit =
              rw (Counts-get window a.now (total_key window) n redis here counts) at total in
            let rest =
              accepted-total c limit window (n + 1) attempts
                (reserved window a.now a.traffic_class redis) within
                (after_total window a.now a.traffic_class limit
                  (class_limit_at c limit a.traffic_class a.now) redis here n counts)
                (omega arith) in
            rw here (rw e (omega (arith, rest)))
      ]

-- However many workers ask, for whatever classes and in whatever order, within one second of the
-- clock a sender with no counter of that second yet gets at most `limit` slots.
pub accepted-le-limit :
    (c : Config) (limit window : ℕ) (attempts : List Attempt) (redis : Redis)
    → redis (total_key window) ≡ none
    → All (λ a. a.now / 1000 ≡ window) attempts
    → accepted everyone c limit attempts redis ≤ limit
accepted-le-limit c limit window attempts redis fresh within =
    omega (
      arith,
      accepted-total c limit window 0 attempts redis within (inl (fresh, refl)) (omega arith),
    )

same_class-eq : (c d : TrafficClass) → same_class c d ≡ true → c ≡ d
same_class-eq c d h = ground arith

class_limit_at-early :
    (c : Config) (limit : ℕ) (tc : TrafficClass) (now : ℕ)
    → now % 1000 < reservation_window_ms c
    → class_limit_at c limit tc now ≡ reserved_class_limit c limit tc
unfolding class_limit_at
class_limit_at-early c limit tc now h =
    ground (arith, h, Bool-cases (leb (reservation_window_ms c) (now % 1000)))

accepted-class :
    (c : Config) (limit window n : ℕ) (tc : TrafficClass) (attempts : List Attempt) (redis : Redis)
    → All (λ a. a.now / 1000 ≡ window) attempts
    → All (λ a. a.now % 1000 < reservation_window_ms c) attempts
    → Counts window (class_key window tc) n redis
    → n ≤ reserved_class_limit c limit tc
    → n + accepted (λ d. same_class d tc) c limit attempts redis ≤ reserved_class_limit c limit tc
unfolding accepted try_slot
accepted-class c limit window n tc [] redis within early counts le = omega arith
accepted-class c limit window n tc (a ∷ attempts) redis (here, within) (soon, early) counts le =
    elim (reserve_slot-cases window a.now a.traffic_class limit
      (class_limit_at c limit a.traffic_class a.now) redis here) [
        | inl e ↦
            rw here
              (rw e (accepted-class c limit window n tc attempts redis within early counts le))
        | inr (total, class, e) ↦ elim (Bool-cases (same_class a.traffic_class tc)) [
          | inl hit ↦
              let same : a.traffic_class ≡ tc = same_class-eq a.traffic_class tc hit in
              let low = class_limit_at c limit a.traffic_class a.now in
              let there =
                subst (λ d. Counts window (class_key window d) n redis) (sym same) counts in
              let next =
                subst
                  (λ d.
                    Counts window (class_key window d) (n + 1)
                      (reserved window a.now a.traffic_class redis))
                  same (after_class window a.now a.traffic_class limit low redis here n there) in
              let below =
                subst
                  (λ d. get_count a.now (class_key window d) redis < class_limit_at c limit d a.now)
                  same class in
              let below' : n < reserved_class_limit c limit tc =
                rw
                  (
                    Counts-get window a.now (class_key window tc) n redis here counts,
                    class_limit_at-early c limit tc a.now soon,
                  )
                  at below in
              let rest =
                accepted-class c limit window (n + 1) tc attempts
                  (reserved window a.now a.traffic_class redis) within early next (omega arith) in
              rw here (rw e (rw hit (omega (arith, rest))))
          | inr miss ↦
              let low = class_limit_at c limit a.traffic_class a.now in
              rw here (
                rw e (
                  rw miss (
                    accepted-class c limit window n tc attempts
                      (reserved window a.now a.traffic_class redis) within early
                      (after_other_class window a.now a.traffic_class limit low redis here n tc miss
                        counts)
                      le)))
        ]
      ]

-- In the reservation phase of a second, a class with no counter of that second yet gets at most
-- its reserved limit.
pub accepted-le-reserved_class_limit :
    (c : Config) (limit window : ℕ) (tc : TrafficClass) (attempts : List Attempt) (redis : Redis)
    → redis (class_key window tc) ≡ none
    → All (λ a. a.now / 1000 ≡ window) attempts
    → All (λ a. a.now % 1000 < reservation_window_ms c) attempts
    → accepted (λ d. same_class d tc) c limit attempts redis ≤ reserved_class_limit c limit tc
accepted-le-reserved_class_limit c limit window tc attempts redis fresh within early = omega (
  arith,
  accepted-class c limit window 0 tc attempts redis within early (inl (fresh, refl)) (omega arith),
)
