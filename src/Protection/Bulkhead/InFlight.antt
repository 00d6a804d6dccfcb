-- ===== src/Protection/Bulkhead/InFlight.antt =====
-- Requests that run at the same time: each acquires a slot, and releases it when it ends.
use apicorex.Base.{
  ℕ, suc, ◌+◌, ◌-◌, ◌<◌, ◌≤◌, ◌≡◌, List, [], ◌∷◌, arith, ltb, In, if◌then◌else◌, inl, inr, refl,
}
use apicorex.Text.{Bytes, ◌==◌}
use apicorex.Text.Laws.{==_iff}
use apicorex.Map.Laws.{get_or-insert, get_or-empty}
use apicorex.Protection.Bulkhead.{Bulkhead, new_bulkhead, active_of, acquire, release}

pub count : Bytes → List Bytes → ℕ
count id [] = 0
count id (j ∷ js) = if j == id then suc (count id js) else count id js

-- One request for `id` ends: it is no longer in flight.
pub leave : Bytes → List Bytes → List Bytes
leave id [] = []
leave id (j ∷ js) = let rest = leave id js in if j == id then js else j ∷ rest

-- The bulkhead together with the plugins of the requests that hold a slot.
pub record Traffic : Type 0 where
  pub bulkhead : Bulkhead
  pub holders : List Bytes

-- An arrival that is refused holds no slot; only a request that holds a slot ends and releases it.
pub data Step : Traffic → Traffic → Type 0 where
  arrive :
      (t : Traffic) (id : Bytes)
      → Step t (record {
        bulkhead = (acquire id t.bulkhead).1;
        holders = if (acquire id t.bulkhead).0 then id ∷ t.holders else t.holders;
      })
  depart :
      (t : Traffic) (id : Bytes)
      → In id t.holders
      → Step t (record { bulkhead = release id t.bulkhead; holders = leave id t.holders })

pub data Reach (s : Traffic) : Traffic → Type 0 where
  here : Reach s s
  next : {t u : Traffic} → Reach s t → Step t u → Reach s u

-- The counter of a plugin is the number of its requests in flight, and is at most the limit.
pub record IsCounted (max : ℕ) (t : Traffic) : Type 0 where
  pub limit : t.bulkhead.max_conc ≡ max
  pub exact : (id : Bytes) → active_of id t.bulkhead ≡ count id t.holders
  pub bounded : (id : Bytes) → active_of id t.bulkhead ≤ max

abbrev pub start : ℕ → Traffic
start max = record { bulkhead = new_bulkhead max; holders = [] }

start-IsCounted : (max : ℕ) → IsCounted max (start max)
unfolding new_bulkhead count
start-IsCounted max = record {
  limit = refl;
  exact = λ id. get_or-empty 0 id;
  bounded = λ id. rw get_or-empty (omega arith);
}

count_pos : (id : Bytes) (js : List Bytes) → In id js → 0 < count id js
unfolding count
count_pos id [] h = elim h [ ]
count_pos id (j ∷ js) (inl e) = ground (arith, ==_iff j id)
count_pos id (j ∷ js) (inr m) = ground (arith, count_pos id js m)

count-leave :
    (id other : Bytes) (js : List Bytes)
    → In id js
    → count other (leave id js) ≡ (if id == other then count other js - 1 else count other js)
unfolding count leave
count-leave id other [] h = elim h [ ]
count-leave id other (j ∷ js) (inl e) = ground (arith, ==_iff j id, ==_iff id other, ==_iff j other)
count-leave id other (j ∷ js) (inr m) = ground (
  arith,
  count-leave id other js m,
  count_pos id js m,
  ==_iff j id,
  ==_iff id other,
  ==_iff j other,
)

arrive-IsCounted :
    (max : ℕ) (t : Traffic) (id : Bytes)
    → IsCounted max t
    → IsCounted max (record {
      bulkhead = (acquire id t.bulkhead).1;
      holders = if (acquire id t.bulkhead).0 then id ∷ t.holders else t.holders;
    })
unfolding acquire count
arrive-IsCounted max t id c = record {
  limit = ground (arith, c.limit);
  exact = λ other. ground (
    arith,
    c.exact id,
    c.exact other,
    get_or-insert 0 id other (active_of id t.bulkhead + 1) t.bulkhead.active,
    ==_iff id other,
  );
  bounded = λ other. ground (
    arith,
    c.limit,
    c.bounded id,
    c.bounded other,
    get_or-insert 0 id other (active_of id t.bulkhead + 1) t.bulkhead.active,
    ==_iff id other,
  );
}

depart-IsCounted :
    (max : ℕ) (t : Traffic) (id : Bytes)
    → In id t.holders
    → IsCounted max t
    → IsCounted max (record { bulkhead = release id t.bulkhead; holders = leave id t.holders })
unfolding release
depart-IsCounted max t id m c = record {
  limit = ground (arith, c.limit);
  exact = λ other. ground (
    arith,
    c.exact id,
    c.exact other,
    count-leave id other t.holders m,
    count_pos id t.holders m,
    get_or-insert 0 id other (active_of id t.bulkhead - 1) t.bulkhead.active,
    ==_iff id other,
  );
  bounded = λ other. ground (
    arith,
    c.bounded id,
    c.bounded other,
    get_or-insert 0 id other (active_of id t.bulkhead - 1) t.bulkhead.active,
    ==_iff id other,
  );
}

Step-IsCounted : {max : ℕ} {t u : Traffic} → Step t u → IsCounted max t → IsCounted max u
Step-IsCounted (arrive t id) c = arrive-IsCounted _ t id c
Step-IsCounted (depart t id m) c = depart-IsCounted _ t id m c

-- However arrivals and departures interleave from an empty bulkhead, the counter of each plugin is
-- the number of its requests that hold a slot, and is at most the limit.
pub Reach-IsCounted : (max : ℕ) {t : Traffic} → Reach (start max) t → IsCounted max t
Reach-IsCounted max here = start-IsCounted max
Reach-IsCounted max (next r s) = Step-IsCounted s (Reach-IsCounted max r)

-- In every state that arrivals and departures reach from an empty bulkhead, the next request for a
-- plugin is let in exactly if fewer of its requests are in flight than the limit.
pub acquire_exact :
    (max : ℕ) {t : Traffic} (id : Bytes)
    → Reach (start max) t
    → (acquire id t.bulkhead).0 ≡ ltb (count id t.holders) max
unfolding acquire
acquire_exact max {t} id r = let c = Reach-IsCounted max r in ground (arith, c.limit, c.exact id)
