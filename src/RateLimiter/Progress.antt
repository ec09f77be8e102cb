-- ===== src/RateLimiter/Progress.antt =====
-- Headroom and progress of src/worker/distributed-rate-limiter.service.ts: what the reserved limits
-- leave for OTP messages, and when a waiting worker gets its slot.
use api_whats_app.Base.{
  ℕ, suc, ◌+◌, ◌*◌, ◌/◌, ◌%◌, ◌≤◌, ◌<◌, ◌≡◌, refl, ltb, max, true, false, none, some, arith,
  Bool-cases, ◌⊎◌, inl, inr,
}
use api_whats_app.Message.{TrafficClass, otp, transactional, marketing}
use api_whats_app.RateLimiter.{
  total_key, class_key, Redis, reserve_slot, Config, reservation_window_ms, reservation_shares,
  reserved_class_limit, class_limit_at, try_slot, delay_ms, wait_for_slot,
}

-- The two shares never add up to more than nine tenths.
shares_bound : (c : Config) → (reservation_shares c).0 + (reservation_shares c).1 ≤ 900
unfolding reservation_shares
shares_bound c = ground arith

scaled : (limit k n : ℕ) → k ≤ n → limit * k ≤ limit * n
scaled limit k n h = grind arith

reserved_sum :
    (limit t m : ℕ)
    → 10 ≤ limit
    → 1 ≤ t
    → 1 ≤ m
    → t + m ≤ 900
    → max 1 (limit * t / 1000) + max 1 (limit * m / 1000) < limit
reserved_sum limit t m h ht hm s = omega (
  arith,
  scaled limit (t + m) 900 s,
  scaled limit t 899 (omega arith),
  scaled limit m 899 (omega arith),
)

shares_positive : (c : Config) → (1 ≤ (reservation_shares c).0) × (1 ≤ (reservation_shares c).1)
unfolding reservation_shares
shares_positive c = ground arith

-- With a limit of at least 10 the reserved limits of the other two classes leave OTP messages a slot
-- of every reservation phase, whatever shares are configured.
pub otp_headroom :
    (c : Config) (limit : ℕ)
    → 10 ≤ limit
    → reserved_class_limit c limit transactional + reserved_class_limit c limit marketing < limit
unfolding reserved_class_limit
otp_headroom c limit h =
    reserved_sum limit (reservation_shares c).0 (reservation_shares c).1 h (shares_positive c).0
      (shares_positive c).1 (shares_bound c)

-- With a limit of at most 2 the reserved limits of TRANSACTIONAL and MARKETING use up the whole
-- limit, whatever shares are configured.
pub otp_headroom_missing :
    (c : Config) (limit : ℕ)
    → limit ≤ 2
    → limit ≤ reserved_class_limit c limit transactional + reserved_class_limit c limit marketing
unfolding reserved_class_limit
otp_headroom_missing c limit h = omega arith

window-le : (c : Config) → reservation_window_ms c ≤ 950
unfolding reservation_window_ms
window-le c = ground arith

-- The pause after a refusal in the reservation phase leads to the second phase of the same window; a
-- later refusal leads to the next window.
pub delay_progress :
    (c : Config) (now : ℕ)
    → ((now % 1000 < reservation_window_ms c)
        × ((now + delay_ms c now) / 1000 ≡ now / 1000)
        × (reservation_window_ms c ≤ (now + delay_ms c now) % 1000))
      ⊎ ((reservation_window_ms c ≤ now % 1000) × ((now + delay_ms c now) / 1000 ≡ now / 1000 + 1))
unfolding delay_ms
delay_progress c now = elim (Bool-cases (ltb (now % 1000) (reservation_window_ms c))) [
  | inl e ↦
      rw (e, delay_ms)
        (inl (ground arith, ground (arith, window-le c), ground (arith, window-le c)))
  | inr e ↦ rw (e, delay_ms) (inr (ground arith, ground (arith, window-le c)))
]

class_limit_at-pos :
    (c : Config) (limit : ℕ) (tc : TrafficClass) (now : ℕ)
    → 1 ≤ limit
    → 1 ≤ class_limit_at c limit tc now
unfolding class_limit_at reserved_class_limit
class_limit_at-pos c limit otp now h = ground arith
class_limit_at-pos c limit transactional now h = ground arith
class_limit_at-pos c limit marketing now h = ground arith

-- A refused round changes nothing; a round in a window with no counters is accepted.
try_slot-fresh :
    (c : Config) (limit : ℕ) (tc : TrafficClass) (now : ℕ) (redis : Redis)
    → 1 ≤ limit
    → redis (total_key (now / 1000)) ≡ none
    → redis (class_key (now / 1000) tc) ≡ none
    → (try_slot c limit tc now redis).1 ≡ true
unfolding try_slot reserve_slot
try_slot-fresh c limit tc now redis h t k =
    ground (arith, t, k, class_limit_at-pos c limit tc now h)

try_slot-refused :
    (c : Config) (limit : ℕ) (tc : TrafficClass) (now : ℕ) (redis : Redis)
    → (try_slot c limit tc now redis).1 ≡ false
    → (try_slot c limit tc now redis).0 ≡ redis
unfolding try_slot reserve_slot
try_slot-refused c limit tc now redis h = ground arith

-- No other worker touches the counters.
abbrev pub alone : ℕ → Redis → Redis
alone now redis = redis

module _ (c : Config) (limit : ℕ) (tc : TrafficClass) (redis : Redis) (pos : 1 ≤ limit) where
  wait_accepted :
      (fuel now : ℕ)
      → (try_slot c limit tc now redis).1 ≡ true
      → (wait_for_slot (suc fuel) c limit tc alone now redis).1 ≡ some now
  unfolding wait_for_slot
  wait_accepted fuel now e = rw e refl

  wait_refused :
      (fuel now : ℕ)
      → (try_slot c limit tc now redis).1 ≡ false
      → wait_for_slot (suc fuel) c limit tc alone now redis
        ≡ wait_for_slot fuel c limit tc alone (now + delay_ms c now) redis
  unfolding wait_for_slot
  wait_refused fuel now e = rw e (rw (try_slot-refused c limit tc now redis e) refl)

  -- A slot is given by the instant, or one round later in the next window.
  wait_late :
      (fuel now : ℕ)
      → redis (total_key (now / 1000 + 1)) ≡ none
      → redis (class_key (now / 1000 + 1) tc) ≡ none
      → reservation_window_ms c ≤ now % 1000
      → (at : ℕ) × ((wait_for_slot (suc (suc fuel)) c limit tc alone now redis).1 ≡ some at)
  wait_late fuel now total class late = elim (Bool-cases (try_slot c limit tc now redis).1) [
    | inl e ↦ (now, wait_accepted (suc fuel) now e)
    | inr e ↦
        let then_ = now + delay_ms c now in
        let next : then_ / 1000 ≡ now / 1000 + 1 = ground (arith, delay_progress c now) in
        (
          then_,
          rw (wait_refused (suc fuel) now e) (
              wait_accepted fuel then_
                (try_slot-fresh c limit tc then_ redis pos (rw next total) (rw next class))),
        )
  ]

-- With a limit of at least one, a worker that waits alone, for a sender whose next window has no
-- counters yet, has its slot after at most three rounds.
pub wait_three_rounds :
    (c : Config) (limit : ℕ) (tc : TrafficClass) (now : ℕ) (redis : Redis)
    → 1 ≤ limit
    → redis (total_key (now / 1000 + 1)) ≡ none
    → redis (class_key (now / 1000 + 1) tc) ≡ none
    → (at : ℕ) × ((wait_for_slot 3 c limit tc alone now redis).1 ≡ some at)
wait_three_rounds c limit tc now redis pos total class =
    elim (Bool-cases (try_slot c limit tc now redis).1) [
      | inl e ↦ (now, wait_accepted c limit tc redis pos 2 now e)
      | inr e ↦ elim (delay_progress c now) [
        | inl (_, same, late) ↦
            let (at, found) =
              wait_late c limit tc redis pos 0 (now + delay_ms c now) (rw same total)
                (rw same class) late in
            (at, rw (wait_refused c limit tc redis pos 2 now e) found)
        | inr (late, _) ↦ wait_late c limit tc redis pos 1 now total class late
      ]
    ]
