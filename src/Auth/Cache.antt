-- ===== src/Auth/Cache.antt =====
-- The cache that Resolve, ResolvePlatform (introspect.go) and DomainResolver.Resolve (domain.go)
-- share in form: look up, ask Identity, sweep what has expired, keep the answer unless Identity
-- could not be reached. `fetch` is the call to Identity that this request makes.
pub mod Fresh
use apicorex.Base.{
  ℕ, ◌+◌, ◌*◌, ◌^◌, Bool, true, false, Option, none, some, List, [], ◌∷◌, ltb, if◌then◌else◌,
}
use apicorex.Text.{Bytes}
use apicorex.Map.{Map, lookup, insert, delete}

-- The errors of introspect.go and domain.go.
pub data AuthError : Type 0 where
  invalid_token membership_revoked unavailable domain_not_found : AuthError

pub data Answer (A : Type 0) : Type 0 where
  resolved : A → Answer A
  failed : AuthError → Answer A

-- 30 seconds, in nanoseconds
abbrev pub cache_ttl : ℕ
cache_ttl = 30 * 10 ^ 9

module _ {A : Type 0} where
  -- errors.Is(err, ErrUnavailable)
  abbrev pub is_unavailable : Answer A → Bool
  is_unavailable (failed unavailable) = true
  is_unavailable _ = false

pub record CacheEntry (A : Type 0) : Type 0 where
  pub answer : Answer A
  pub exp : ℕ

module _ {A : Type 0} where
  -- The loop that drops the entries whose expiry has passed.
  unfoldable pub sweep : ℕ → Map (CacheEntry A) → Map (CacheEntry A)
  sweep now [] = []
  sweep now ((k, e) ∷ m) = let rest = sweep now m in if ltb e.exp now then rest else (k, e) ∷ rest

  -- The entry that the cache answers with.
  unfoldable pub hit : Bytes → ℕ → Map (CacheEntry A) → Option (Answer A)
  hit key now m = elim (lookup key m) [
    | none ↦ none
    | some e ↦ if ltb now e.exp then some e.answer else none
  ]

  abbrev pub keep : Bytes → ℕ → Answer A → Map (CacheEntry A) → Map (CacheEntry A)
  keep key now answer m =
      if is_unavailable answer
      then m
      else insert key (record { answer = answer; exp = now + cache_ttl }) (sweep now m)

  -- `fetched` is what Identity answers if it is asked.
  unfoldable pub resolve_cached :
      Bytes → ℕ → Answer A → Map (CacheEntry A) → Answer A × Map (CacheEntry A)
  resolve_cached key now fetched m = elim (hit key now m) [
    | some answer ↦ (answer, m)
    | none ↦ (fetched, keep key now fetched m)
  ]
