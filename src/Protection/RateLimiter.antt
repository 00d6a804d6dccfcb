-- ===== src/Protection/RateLimiter.antt =====
-- internal/protection/ratelimiter.go. Its floats are kept as whole numbers: a bucket is counted in
-- units of 10 ^ -13 tokens and a rate in ten-thousandths of a token per second, so that nanoseconds
-- times the rate are units. On such values the arithmetic is exact.
pub mod Bound
pub mod Eviction
use apicorex.Base.{
  ℕ, ◌+◌, ◌-◌, ◌*◌, ◌^◌, Bool, true, false, Option, none, some, List, [], ◌∷◌, leb, ltb,
  if◌then◌else◌,
}
use apicorex.Text.{Bytes}
use apicorex.Map.{Map, lookup, insert, delete, get_or}

pub record RateLimiter : Type 0 where
  pub tokens : Map ℕ
  pub last_seen : Map ℕ
  pub rate : ℕ
  pub burst : ℕ

-- One token, in units.
abbrev pub one_token : ℕ
one_token = 10 ^ 13

-- NewRateLimiter
unfoldable pub new_rate_limiter : ℕ → ℕ → RateLimiter
new_rate_limiter rate_per_sec burst = record {
  tokens = [];
  last_seen = [];
  rate = rate_per_sec;
  burst = burst;
}

-- min of two floats
abbrev pub min : ℕ → ℕ → ℕ
min a b = if ltb a b then a else b

-- The bucket of `key` as Allow finds it at `now`, before it takes a token.
unfoldable pub refilled : Bytes → ℕ → RateLimiter → ℕ
refilled key now r = elim (lookup key r.last_seen) [
  | none ↦ r.burst
  | some last ↦ min r.burst (get_or 0 key r.tokens + (now - last) * r.rate)
]

-- Allow
unfoldable pub allow : Bytes → ℕ → RateLimiter → Bool × RateLimiter
allow key now r =
    let r' = record r {
      tokens = insert key (refilled key now r) r.tokens;
      last_seen = insert key now r.last_seen;
    } in
    if leb one_token (get_or 0 key r'.tokens)
    then (true, record r' { tokens = insert key (get_or 0 key r'.tokens - one_token) r'.tokens })
    else (false, r')

-- Tokens
unfoldable pub tokens_of : Bytes → RateLimiter → ℕ
tokens_of key r = elim (lookup key r.tokens) [ none ↦ r.burst | some t ↦ t ]

-- Burst
abbrev pub burst_of : RateLimiter → ℕ
burst_of r = r.burst

-- The loop of EvictIdle over the entries of lastSeen; last < now - maxIdle is the test.
unfoldable pub evict_from : List (Bytes × ℕ) → ℕ → ℕ → RateLimiter → RateLimiter
evict_from [] max_idle now r = r
evict_from ((key, last) ∷ rest) max_idle now r = evict_from rest max_idle now (
    if ltb (last + max_idle) now
    then record r { last_seen = delete key r.last_seen; tokens = delete key r.tokens }
    else r)

-- EvictIdle
unfoldable pub evict_idle : ℕ → ℕ → RateLimiter → RateLimiter
unfolding evict_from
evict_idle max_idle now r = evict_from r.last_seen max_idle now r
