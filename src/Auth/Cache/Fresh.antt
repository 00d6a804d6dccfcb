-- ===== src/Auth/Cache/Fresh.antt =====
-- How old an answer from the cache can be.
use apicorex.Base.{
  ◌⊎◌, List, ℕ, ◌+◌, ◌≤◌, ◌<◌, ◌≡◌, refl, sym, ◌∙◌, false, some, [], ◌∷◌, arith, Bool-cases,
  Option-cases, inl, inr, ltb,
}
use apicorex.Text.{Bytes}
use apicorex.Map.{Map, lookup}
use apicorex.Map.Entries.{AllEntries, AllEntries-lookup, AllEntries-insert}
use apicorex.Auth.Cache.{Answer, cache_ttl, is_unavailable, CacheEntry, sweep, hit, resolve_cached}

hit-entry :
    {A : Type 0} (k : Bytes) (now : ℕ) (m : Map (CacheEntry A)) (a : Answer A)
    → hit k now m ≡ some a
    → (e : CacheEntry A) × (lookup k m ≡ some e) × (now < e.exp) × (e.answer ≡ a)
unfolding hit
hit-entry k now m a h = elim (Option-cases (lookup k m)) [
  | inl absent ↦ cc (rw (absent, hit) at h)
  | inr (e, found) ↦ let h' = rw (found, hit) at h in (e, found, ground arith, ground arith)
]

-- `fetch t q` is what Identity answers at instant `t` to the query `q`, which is cached under the
-- key `key q`.
module _ {A Q : Type 0} (fetch : ℕ → Q → Answer A) (key : Q → Bytes) where
  -- An entry was fetched at some instant up to `now` for a query with its key, is no outage, and
  -- expires one TTL after that instant.
  pub record IsFetched (now : ℕ) (k : Bytes) (e : CacheEntry A) : Type 0 where
    pub at : ℕ
    pub query : Q
    pub keyed : key query ≡ k
    pub past : at ≤ now
    pub from : e.answer ≡ fetch at query
    pub definitive : is_unavailable e.answer ≡ false
    pub expires : e.exp ≡ at + cache_ttl

  unfoldable pub IsSound : ℕ → Map (CacheEntry A) → Type 0
  IsSound now m = AllEntries (IsFetched now) m

  -- One call of Resolve.
  abbrev pub resolve_at : ℕ → Q → Map (CacheEntry A) → Answer A × Map (CacheEntry A)
  resolve_at now q m = resolve_cached (key q) now (fetch now q) m

  sweep-IsSound :
      (now : ℕ) (m : Map (CacheEntry A))
      → AllEntries (IsFetched now) m
      → AllEntries (IsFetched now) (sweep now m)
  unfolding sweep
  sweep-IsSound now [] s = tt
  sweep-IsSound now ((k, e) ∷ m) (f, s) = elim (Bool-cases (ltb e.exp now)) [
    | inl old ↦ rw old (sweep-IsSound now m s)
    | inr live ↦ rw live (f, sweep-IsSound now m s)
  ]

  later-IsFetched :
      (now later : ℕ) (k : Bytes) (e : CacheEntry A)
      → now ≤ later
      → IsFetched now k e
      → IsFetched later k e
  later-IsFetched now later k e h f = record {
    at = f.at;
    query = f.query;
    keyed = f.keyed;
    past = omega (arith, f.past);
    from = f.from;
    definitive = f.definitive;
    expires = f.expires;
  }

  pub IsSound-later :
      (now later : ℕ) (m : Map (CacheEntry A)) → now ≤ later → IsSound now m → IsSound later m
  unfolding IsSound
  IsSound-later now later [] h s = tt
  IsSound-later now later ((k, e) ∷ m) h (f, s) =
      (later-IsFetched now later k e h f, IsSound-later now later m h s)

  -- From a sound cache, every call leaves a sound cache, whether it hits, stores an answer or
  -- meets an outage.
  pub resolve_at-IsSound :
      (now : ℕ) (q : Q) (m : Map (CacheEntry A))
      → IsSound now m
      → IsSound now (resolve_at now q m).1
  unfolding IsSound resolve_cached
  resolve_at-IsSound now q m s = elim (Option-cases (hit (key q) now m)) [
    | inr (a, cached) ↦ rw (cached, resolve_cached) s
    | inl missed ↦
        rw (missed, resolve_cached)
          (elim (Bool-cases (is_unavailable (fetch now q))) [
            | inl out ↦ rw out s
            | inr answered ↦ rw answered (
                AllEntries-insert (IsFetched now) (key q) _ (sweep now m)
                  (record {
                    at = now;
                    query = q;
                    keyed = refl;
                    past = omega arith;
                    from = refl;
                    definitive = answered;
                    expires = refl;
                  })
                  (sweep-IsSound now m s))
          ])
  ]

  -- From a sound cache, the answer to a query is one that Identity gave for a query with the same
  -- key, now or less than one TTL ago.
  pub resolve_at-fresh :
      (now : ℕ) (q : Q) (m : Map (CacheEntry A))
      → IsSound now m
      → (t : ℕ) × (q' : Q) × (key q' ≡ key q)
        × (t ≤ now)
        × (now < t + cache_ttl)
        × ((resolve_at now q m).0 ≡ fetch t q')
  unfolding IsSound resolve_cached
  resolve_at-fresh now q m s = elim (Option-cases (hit (key q) now m)) [
    | inl missed ↦ (now, q, refl, omega arith, omega arith, rw (missed, resolve_cached) refl)
    | inr (a, cached) ↦
        let (e, found, live, same) = hit-entry (key q) now m a cached in
        let f = AllEntries-lookup (IsFetched now) (key q) e m s found in
        (
          f.at,
          f.query,
          f.keyed,
          f.past,
          omega (arith, f.expires),
          rw (cached, resolve_cached) (sym same ∙ f.from),
        )
  ]

  sweep-AllEntries :
      (now : ℕ) (m : Map (CacheEntry A))
      → AllEntries (λ (k : Bytes) (e : CacheEntry A). now ≤ e.exp) (sweep now m)
  unfolding sweep
  sweep-AllEntries now [] = tt
  sweep-AllEntries now ((k, e) ∷ m) = elim (Bool-cases (ltb e.exp now)) [
    | inl old ↦ rw old (sweep-AllEntries now m)
    | inr live ↦ rw live (ground arith, sweep-AllEntries now m)
  ]

  -- A call leaves the cache as it is, or nothing in it that has expired.
  resolve_at-swept :
      (now : ℕ) (q : Q) (m : Map (CacheEntry A))
      → ((resolve_at now q m).1 ≡ m)
        ⊎ AllEntries (λ (k : Bytes) (e : CacheEntry A). now ≤ e.exp) (resolve_at now q m).1
  unfolding resolve_cached
  resolve_at-swept now q m = elim (Option-cases (hit (key q) now m)) [
    | inr (a, cached) ↦ inl (rw (cached, resolve_cached) refl)
    | inl missed ↦ elim (Bool-cases (is_unavailable (fetch now q))) [
      | inl out ↦ inl (rw (missed, resolve_cached) (rw out refl))
      | inr answered ↦ inr (
          rw (missed, resolve_cached)
            (rw answered (
              AllEntries-insert (λ (k : Bytes) (e : CacheEntry A). now ≤ e.exp) (key q) _
                (sweep now m) (omega arith) (sweep-AllEntries now m))))
    ]
  ]

  -- Some calls, each with the time since the one before: the time of the last, and the cache.
  unfoldable pub resolve_all : ℕ → List (ℕ × Q) → Map (CacheEntry A) → ℕ × Map (CacheEntry A)
  resolve_all now [] m = (now, m)
  resolve_all now ((gap, q) ∷ calls) m =
      resolve_all (now + gap) calls (resolve_at (now + gap) q m).1

  resolve_all-IsSound :
      (now : ℕ) (calls : List (ℕ × Q)) (m : Map (CacheEntry A))
      → IsSound now m
      → IsSound (resolve_all now calls m).0 (resolve_all now calls m).1
  unfolding resolve_all
  resolve_all-IsSound now [] m s = s
  resolve_all-IsSound now ((gap, q) ∷ calls) m s =
      resolve_all-IsSound (now + gap) calls (resolve_at (now + gap) q m).1
        (resolve_at-IsSound (now + gap) q m (IsSound-later now (now + gap) m (omega arith) s))

  -- After any calls on a cache that was empty at first, the answer to a query is one that Identity
  -- gave for a query with the same key, now or less than one TTL ago; and the call leaves the cache
  -- as it is, or no entry in it whose expiry has passed.
  pub resolve_all-fresh :
      (first : ℕ) (calls : List (ℕ × Q)) (now : ℕ) (q : Q)
      → (resolve_all first calls []).0 ≤ now
      → ((t : ℕ) × (q' : Q) × (key q' ≡ key q)
          × (t ≤ now)
          × (now < t + cache_ttl)
          × ((resolve_at now q (resolve_all first calls []).1).0 ≡ fetch t q'))
        × (((resolve_at now q (resolve_all first calls []).1).1 ≡ (resolve_all first calls []).1)
            ⊎ AllEntries
                (λ (k : Bytes) (e : CacheEntry A). now ≤ e.exp)
                (resolve_at now q (resolve_all first calls []).1).1)
  unfolding IsSound
  resolve_all-fresh first calls now q later =
      let (last, m) = resolve_all first calls [] in
      (
        resolve_at-fresh now q m
            (IsSound-later last now m later (resolve_all-IsSound first calls [] tt)),
        resolve_at-swept now q m,
      )
