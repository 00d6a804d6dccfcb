-- ===== src/Protection/RateLimiter/Bound.antt =====
-- How many requests a bucket lets through.
use apicorex.Base.{
  ℕ, suc, ◌+◌, ◌-◌, ◌*◌, ◌≤◌, ◌≡◌, true, List, [], ◌∷◌, arith, leb, some, if◌then◌else◌, Bool-cases,
  inl, inr, ap, ◌∙◌,
}
use apicorex.Text.{Bytes, ◌==◌}
use apicorex.Text.Laws.{==_iff, ==_refl}
use apicorex.Map.{lookup, get_or}
use apicorex.Map.Laws.{lookup-insert, get_or-insert}
use apicorex.Protection.RateLimiter.{RateLimiter, one_token, refilled, allow}

-- What a call leaves in the bucket of its key.
abbrev pub left : ℕ → ℕ
left t = if leb one_token t then t - one_token else t

module _ (key : Bytes) (now : ℕ) (r : RateLimiter) where
  pub allow-admits : (allow key now r).0 ≡ leb one_token (refilled key now r)
  unfolding allow
  allow-admits = ground (arith, get_or-insert 0 key key (refilled key now r) r.tokens, ==_refl key)

  pub tokens-allow :
      (other : Bytes)
      → get_or 0 other (allow key now r).1.tokens
        ≡ (if key == other then left (refilled key now r) else get_or 0 other r.tokens)
  unfolding allow
  tokens-allow other = elim (Bool-cases (leb one_token (refilled key now r))) [
    | inl full ↦
        simp (get_or-insert, ==_refl)
          (rw full (simp get_or-insert (ground (arith, ==_iff key other))))
    | inr short ↦
        simp (get_or-insert, ==_refl)
          (rw short (simp get_or-insert (ground (arith, ==_iff key other))))
  ]

  pub last_seen-allow :
      (other : Bytes)
      → lookup other (allow key now r).1.last_seen
        ≡ (if key == other then some now else lookup other r.last_seen)
  unfolding allow
  last_seen-allow other = ground (arith, lookup-insert key other now r.last_seen)

  pub rate-allow : ((allow key now r).1.rate ≡ r.rate) × ((allow key now r).1.burst ≡ r.burst)
  unfolding allow
  rate-allow = ground arith

-- No bucket holds more than the burst.
pub record IsCapped (r : RateLimiter) : Type 0 where
  pub capped : (key : Bytes) → get_or 0 key r.tokens ≤ r.burst

refilled-le-burst : (key : Bytes) (now : ℕ) (r : RateLimiter) → refilled key now r ≤ r.burst
unfolding refilled
refilled-le-burst key now r = ground arith

-- If no bucket holds more than the burst, none does after a call, whether it is let through or not.
pub allow-IsCapped :
    (key : Bytes) (now : ℕ) (r : RateLimiter) → IsCapped r → IsCapped (allow key now r).1
allow-IsCapped key now r c = record {
  capped = λ other. ground (
    arith,
    tokens-allow key now r other,
    rate-allow key now r,
    refilled-le-burst key now r,
    c.capped other,
  );
}

-- Calls for one key, each `gap` after the one before: how many are let through, and the limiter.
unfoldable pub admitted : Bytes → ℕ → List ℕ → RateLimiter → ℕ × RateLimiter
admitted key now [] r = (0, r)
admitted key now (gap ∷ gaps) r =
    let (yes_now, r') = allow key (now + gap) r in
    let (n, r'') = admitted key (now + gap) gaps r' in ((if yes_now then suc n else n), r'')

pub sum : List ℕ → ℕ
sum [] = 0
sum (n ∷ ns) = n + sum ns

refilled-le :
    (key : Bytes) (now gap : ℕ) (r : RateLimiter)
    → lookup key r.last_seen ≡ some now
    → refilled key (now + gap) r ≤ get_or 0 key r.tokens + gap * r.rate
unfolding refilled
refilled-le key now gap r seen =
    let e : now + gap - now ≡ gap = omega arith in rw (seen, refilled) (rw e (ground arith))

step_le :
    (unit full n tokens gap rest rate : ℕ)
    → n * unit ≤ (if leb unit full then full - unit else full) + rest * rate
    → full ≤ tokens + gap * rate
    → (if leb unit full then suc n else n) * unit ≤ tokens + (gap + rest) * rate
step_le unit full n tokens gap rest rate h k = elim (Bool-cases (leb unit full)) [
  | inl enough ↦ let h' = rw enough at h in rw enough (ground arith)
  | inr short ↦ let h' = rw short at h in rw short (ground arith)
]

module _ (key : Bytes) (now gap tokens : ℕ) (gaps : List ℕ) (r : RateLimiter) where
  after : RateLimiter
  after = (allow key (now + gap) r).1

  admitted_step :
      (admitted key (now + gap) gaps after).0 * one_token
        ≤ get_or 0 key after.tokens + sum gaps * after.rate
      → refilled key (now + gap) r ≤ tokens + gap * r.rate
      → (admitted key now (gap ∷ gaps) r).0 * one_token ≤ tokens + sum (gap ∷ gaps) * r.rate
  unfolding admitted sum after
  admitted_step ih full =
      let spent : get_or 0 key after.tokens ≡ left (refilled key (now + gap) r) =
        simp ==_refl at (tokens-allow key (now + gap) r key) in
      let same_pay = ap (λ (k : ℕ). sum gaps * k) (rate-allow key (now + gap) r).0 in
      rw (allow-admits key (now + gap) r) (
        step_le one_token (refilled key (now + gap) r) (admitted key (now + gap) gaps after).0
          tokens gap (sum gaps) r.rate (omega arith) full)

-- After a first call the tokens spent and left are paid for by the bucket and the time passed.
admitted-le :
    (key : Bytes) (now : ℕ) (gaps : List ℕ) (r : RateLimiter)
    → lookup key r.last_seen ≡ some now
    → (admitted key now gaps r).0 * one_token ≤ get_or 0 key r.tokens + sum gaps * r.rate
unfolding after
admitted-le key now [] r seen = unfold admitted sum in omega arith
admitted-le key now (gap ∷ gaps) r seen =
    admitted_step key now gap (get_or 0 key r.tokens) gaps r
      (admitted-le key (now + gap) gaps (allow key (now + gap) r).1
        (simp ==_refl at (last_seen-allow key (now + gap) r key)))
      (refilled-le key now gap r seen)

sum-zero : (ns : List ℕ) → sum (0 ∷ ns) ≡ sum ns
unfolding sum
sum-zero ns = omega arith

-- Of calls for one key in a row, with no EvictIdle among them and whatever the limiter did before: the
-- tokens that the requests took are at most the burst and what the rate refills from the first call
-- to the last.
pub admitted-le-burst :
    (key : Bytes) (now : ℕ) (gaps : List ℕ) (r : RateLimiter)
    → (admitted key now (0 ∷ gaps) r).0 * one_token ≤ r.burst + sum gaps * r.rate
unfolding after
admitted-le-burst key now gaps r =
    let bound =
      admitted_step key now 0 r.burst gaps r
        (admitted-le key (now + 0) gaps (allow key (now + 0) r).1
          (simp ==_refl at (last_seen-allow key (now + 0) r key)))
        (let capped = refilled-le-burst key (now + 0) r in omega arith) in
    rw sum-zero at bound

-- A key whose calls are spaced so that the rate refills a token in between is always let through,
-- provided that the burst is at least a token.
pub paced-allow :
    (key : Bytes) (last now : ℕ) (r : RateLimiter)
    → one_token ≤ r.burst
    → lookup key r.last_seen ≡ some last
    → one_token ≤ (now - last) * r.rate
    → (allow key now r).0 ≡ true
unfolding refilled
paced-allow key last now r b seen paid = allow-admits key now r ∙ rw (seen, refilled) (ground arith)
