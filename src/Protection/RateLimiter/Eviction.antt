-- ===== src/Protection/RateLimiter/Eviction.antt =====
-- Dropping the keys that have been idle for long changes no later answer.
use apicorex.Base.{
  ℕ, ◌+◌, ◌-◌, ◌*◌, ◌≤◌, ◌<◌, ◌≡◌, Bool, false, List, [], ◌∷◌, arith, ltb, none, some,
  if◌then◌else◌, Bool-cases, inl, inr, refl, sym, ◌∙◌, ◌||◌, ◌&&◌, Option,
}
use apicorex.Text.{Bytes, ◌==◌}
use apicorex.Text.Laws.{==_iff}
use apicorex.Map.{Map, lookup, get_or, delete}
use apicorex.Map.Unique.{IsUnique}
use apicorex.Map.Laws.{lookup-delete, get_or-delete}
use apicorex.Protection.RateLimiter.{RateLimiter, refilled, evict_from, evict_idle, min}

module _ (max_idle now : ℕ) where
  -- Whether the loop meets an idle entry of the key.
  idle_in : Bytes → List (Bytes × ℕ) → Bool
  idle_in key [] = false
  idle_in key ((j, last) ∷ es) = (j == key && ltb (last + max_idle) now) || idle_in key es

  abbrev is_idle : Option ℕ → Bool
  is_idle none = false
  is_idle (some last) = ltb (last + max_idle) now

  idle_in-none : (key : Bytes) (es : Map ℕ) → lookup key es ≡ none → idle_in key es ≡ false
  unfolding idle_in lookup
  idle_in-none key [] h = refl
  idle_in-none key ((j, last) ∷ es) h = ground (arith, idle_in-none key es)

  idle_in-lookup :
      (key : Bytes) (es : Map ℕ) → IsUnique es → idle_in key es ≡ is_idle (lookup key es)
  unfolding idle_in lookup
  idle_in-lookup key [] u = refl
  idle_in-lookup key ((j, last) ∷ es) (fresh, u) =
      ground (arith, idle_in-lookup key es u, ==_iff j key, idle_in-none key es)

  record IsEvicted (key : Bytes) (gone : Bool) (r r' : RateLimiter) : Type 0 where
    seen : lookup key r'.last_seen ≡ (if gone then none else lookup key r.last_seen)
    bucket : get_or 0 key r'.tokens ≡ (if gone then 0 else get_or 0 key r.tokens)
    rate : r'.rate ≡ r.rate
    burst : r'.burst ≡ r.burst

  evict_from-IsEvicted :
      (key : Bytes) (es : List (Bytes × ℕ)) (r : RateLimiter)
      → IsEvicted key (idle_in key es) r (evict_from es max_idle now r)
  unfolding idle_in evict_from
  evict_from-IsEvicted key [] r = record { seen = refl; bucket = refl; rate = refl; burst = refl }
  evict_from-IsEvicted key ((j, last) ∷ es) r = elim (Bool-cases (ltb (last + max_idle) now)) [
    | inl idle ↦
        let dropped = record r { last_seen = delete j r.last_seen; tokens = delete j r.tokens } in
        let c = evict_from-IsEvicted key es dropped in
        rw idle (record {
          seen = ground (arith, c.seen, lookup-delete j key r.last_seen, ==_iff j key);
          bucket = ground (arith, c.bucket, get_or-delete 0 j key r.tokens, ==_iff j key);
          rate = c.rate;
          burst = c.burst;
        })
    | inr fresh ↦
        let c = evict_from-IsEvicted key es r in
        rw fresh (record {
          seen = ground (arith, c.seen);
          bucket = ground (arith, c.bucket);
          rate = c.rate;
          burst = c.burst;
        })
  ]

-- A bucket idle for longer than the rate needs to fill it is full.
refilled-full :
    (burst rate tokens last max_idle t now : ℕ)
    → burst ≤ max_idle * rate
    → last + max_idle < t
    → t ≤ now
    → min burst (tokens + (now - last) * rate) ≡ burst
refilled-full burst rate tokens last max_idle t now fills idle later =
    let longer : max_idle ≤ now - last = omega arith in
    let more : max_idle * rate ≤ (now - last) * rate = grind arith in ground arith

abbrev fill : ℕ → ℕ → ℕ → Option ℕ → ℕ → ℕ
fill burst rate now none bucket = burst
fill burst rate now (some last) bucket = min burst (bucket + (now - last) * rate)

refilled-fill :
    (key : Bytes) (now : ℕ) (r : RateLimiter)
    → refilled key now r ≡ fill r.burst r.rate now (lookup key r.last_seen) (get_or 0 key r.tokens)
unfolding refilled
refilled-fill key now r = ground arith

fill_after :
    (burst rate max_idle t now bucket : ℕ) (seen : Option ℕ)
    → burst ≤ max_idle * rate
    → t ≤ now
    → fill burst rate now
        (if is_idle max_idle t seen then none else seen)
        (if is_idle max_idle t seen then 0 else bucket)
      ≡ fill burst rate now seen bucket
fill_after burst rate max_idle t now bucket none fills later = refl
fill_after burst rate max_idle t now bucket (some last) fills later =
    ground (arith, refilled-full burst rate bucket last max_idle t now)

-- If the limiter holds every key once and a bucket fills up within `max_idle`, then at every
-- instant from `t` on each key finds the bucket that it would have found without the eviction at
-- `t`.
pub refilled-evict_idle :
    (key : Bytes) (max_idle t now : ℕ) (r : RateLimiter)
    → IsUnique r.last_seen
    → r.burst ≤ max_idle * r.rate
    → t ≤ now
    → refilled key now (evict_idle max_idle t r) ≡ refilled key now r
unfolding evict_idle
refilled-evict_idle key max_idle t now r u fills later =
    let c = evict_from-IsEvicted max_idle t key r.last_seen r in
    rw
      (
        refilled-fill,
        c.rate,
        c.burst,
        c.seen,
        c.bucket,
        idle_in-lookup max_idle t key r.last_seen u,
      )
      (fill_after r.burst r.rate max_idle t now (get_or 0 key r.tokens) (lookup key r.last_seen)
          fills later
        ∙ sym (refilled-fill key now r))
