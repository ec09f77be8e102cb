-- ===== src/RateLimiter/Examples.antt =====
-- The theorems about src/worker/distributed-rate-limiter.service.ts at the default configuration.
use api_whats_app.Base.{
  ◌%◌, ◌/◌, ◌<◌, ◌⊎◌, ℕ, ◌+◌, ◌≤◌, ◌≡◌, refl, none, some, List, [], ◌∷◌, arith,
}
use api_whats_app.Message.{otp, transactional, marketing, same_class}
use api_whats_app.RateLimiter.{
  Redis, Config, delay_ms, reservation_window_ms, reserved_class_limit, wait_for_slot,
}
use api_whats_app.RateLimiter.Window.{
  Attempt, accepted, everyone, accepted-le-limit, accepted-le-reserved_class_limit,
}
use api_whats_app.RateLimiter.Progress.{
  delay_progress, otp_headroom_missing, alone, wait_three_rounds,
}

abbrev config : Config
config = record {
  default_limit = 75;
  reservation_window = none;
  transactional_share = none;
  marketing_share = none;
}

abbrev empty : Redis
empty k = none

abbrev attempts : List Attempt
attempts =
    record { traffic_class = marketing; now = 5100 }
    ∷ record { traffic_class = otp; now = 5200 }
    ∷ record { traffic_class = marketing; now = 5300 }
    ∷ []

accepted-le-limit_example : accepted everyone config 2 attempts empty ≤ 2
accepted-le-limit_example = accepted-le-limit config 2 5 attempts empty refl (omega arith)

accepted-le-reserved_class_limit_example :
    accepted (λ d. same_class d marketing) config 10 attempts empty
    ≤ reserved_class_limit config 10 marketing
unfolding reservation_window_ms
accepted-le-reserved_class_limit_example =
    accepted-le-reserved_class_limit config 10 5 marketing attempts empty refl (omega arith)
      (omega arith)

otp_headroom_missing_example :
    2 ≤ reserved_class_limit config 2 transactional + reserved_class_limit config 2 marketing
otp_headroom_missing_example = otp_headroom_missing config 2 (omega arith)

wait_three_rounds_example :
    (at : ℕ) × ((wait_for_slot 3 config 75 marketing alone 5100 empty).1 ≡ some at)
wait_three_rounds_example = wait_three_rounds config 75 marketing 5100 empty (omega arith) refl refl

delay_progress_example :
    ((5100 % 1000 < reservation_window_ms config)
      × ((5100 + delay_ms config 5100) / 1000 ≡ 5100 / 1000)
      × (reservation_window_ms config ≤ (5100 + delay_ms config 5100) % 1000))
    ⊎ ((reservation_window_ms config ≤ 5100 % 1000)
        × ((5100 + delay_ms config 5100) / 1000 ≡ 5100 / 1000 + 1))
delay_progress_example = delay_progress config 5100
