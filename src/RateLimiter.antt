-- ===== src/RateLimiter.antt =====
-- src/worker/distributed-rate-limiter.service.ts: the Redis counters of one sender, the Lua script
-- that reserves a slot, and the loop that waits for one. Shares are thousandths, and instants are
-- milliseconds; the key of a counter is its window and, for a class counter, the class.
mod Examples
pub mod Window
pub mod Progress
use api_whats_app.Base.{
  ℕ, zero, suc, ◌+◌, ◌-◌, ◌*◌, ◌/◌, ◌%◌, leb, ltb, ◌==◌, if◌then◌else◌, Bool, true, false, not,
  ◌&&◌, ◌||◌, Option, none, some, List, [], ◌∷◌, max,
}
use api_whats_app.Message.{TrafficClass, otp, transactional, marketing, same_class}

pub data Key : Type 0 where
  total_key : ℕ → Key
  class_key : ℕ → TrafficClass → Key

abbrev pub same_key : Key → Key → Bool
same_key (total_key w) (total_key v) = w == v
same_key (total_key w) (class_key v c) = false
same_key (class_key w c) (total_key v) = false
same_key (class_key w c) (class_key v d) = w == v && same_class c d

-- A counter with the instant at which it expires.
pub record Entry : Type 0 where
  pub value : ℕ
  pub expires_at : ℕ

abbrev pub Redis : Type 0
Redis = Key → Option Entry

-- `tonumber(redis.call('GET', key) or '0')`: an expired counter is not there.
abbrev pub get_count : ℕ → Key → Redis → ℕ
get_count now k redis = elim (redis k) [
  | none ↦ 0
  | some e ↦ if ltb now e.expires_at then e.value else 0
]

-- `INCR`, and `PEXPIRE` when it made the counter.
unfoldable pub increment : ℕ → ℕ → Option Entry → Entry
increment now ttl none = record { value = 1; expires_at = now + ttl }
increment now ttl (some e) =
    if ltb now e.expires_at
    then record e { value = e.value + 1 }
    else record { value = 1; expires_at = now + ttl }

abbrev pub put : Key → Entry → Redis → Redis
put k e redis j = if same_key k j then some e else redis j

-- `RESERVE_SLOT_LUA`
unfoldable pub reserve_slot : ℕ → ℕ → TrafficClass → ℕ → ℕ → ℕ → Redis → Redis × Bool
unfolding increment
reserve_slot now window c limit class_limit ttl redis =
    if leb limit (get_count now (total_key window) redis)
      || leb class_limit (get_count now (class_key window c) redis)
    then (redis, false)
    else (
      put (class_key window c) (increment now ttl (redis (class_key window c)))
          (put (total_key window) (increment now ttl (redis (total_key window))) redis),
      true,
    )

pub record Config : Type 0 where
  pub default_limit : ℕ
  pub reservation_window : Option ℕ
  pub transactional_share : Option ℕ
  pub marketing_share : Option ℕ

-- `reservationWindowMs`
unfoldable pub reservation_window_ms : Config → ℕ
reservation_window_ms c = elim c.reservation_window [
  | none ↦ 700
  | some n ↦ if leb n 950 then n else 700
]

-- `share(name, fallback)`
abbrev pub share : Option ℕ → ℕ → ℕ
share none fallback = fallback
share (some k) fallback = if ltb 0 k && leb k 1000 then k else fallback

-- `reservationShares`: transactional and marketing.
unfoldable pub reservation_shares : Config → ℕ × ℕ
reservation_shares c =
    let t = share c.transactional_share 600 in
    let m = share c.marketing_share 200 in if ltb 900 (t + m) then (600, 200) else (t, m)

-- `reservedClassLimit`
unfoldable pub reserved_class_limit : Config → ℕ → TrafficClass → ℕ
unfolding reservation_shares
reserved_class_limit c limit otp = limit
reserved_class_limit c limit transactional = max 1 (limit * (reservation_shares c).0 / 1000)
reserved_class_limit c limit marketing = max 1 (limit * (reservation_shares c).1 / 1000)

abbrev candidate : Config → Option ℕ → ℕ
candidate c none = c.default_limit
candidate c (some n) = n

-- The limit of the sender: `configuredLimit ?? defaultLimit`, and 75 where that is not positive.
unfoldable pub outbound_limit : Config → Option ℕ → ℕ
outbound_limit c configured =
    if ltb 0 (candidate c configured) then max 1 (candidate c configured) else 75

-- The class limit at an instant: before the end of the reservation phase it is the reserved one.
unfoldable pub class_limit_at : Config → ℕ → TrafficClass → ℕ → ℕ
unfolding reserved_class_limit reservation_window_ms
class_limit_at c limit tc now =
    if leb (reservation_window_ms c) (now % 1000) then limit else reserved_class_limit c limit tc

-- One round of the loop of `waitForOutboundSlot`.
unfoldable pub try_slot : Config → ℕ → TrafficClass → ℕ → Redis → Redis × Bool
unfolding reserve_slot class_limit_at
try_slot c limit tc now redis =
    reserve_slot now (now / 1000) tc limit (class_limit_at c limit tc now) 2000 redis

-- The pause after a refused round.
unfoldable pub delay_ms : Config → ℕ → ℕ
unfolding reservation_window_ms
delay_ms c now =
    if ltb (now % 1000) (reservation_window_ms c)
    then max 25 (reservation_window_ms c - now % 1000 + 5)
    else max 25 (1000 - now % 1000 + 5)

-- The loop, for at most `fuel` rounds: the instant of the accepted round. `others` is what the other
-- workers do to the counters up to an instant.
unfoldable pub wait_for_slot :
    ℕ → Config → ℕ → TrafficClass → (ℕ → Redis → Redis) → ℕ → Redis → Redis × Option ℕ
wait_for_slot zero c limit tc others now redis = (redis, none)
wait_for_slot (suc fuel) c limit tc others now redis =
    let (redis', taken) = try_slot c limit tc now (others now redis) in
    let rest = wait_for_slot fuel c limit tc others (now + delay_ms c now) redis' in
    if taken then (redis', some now) else rest
