-- ===== src/Protection/Bulkhead.antt =====
-- internal/protection/bulkhead.go.
pub mod InFlight
use apicorex.Base.{ℕ, ◌+◌, ◌-◌, Bool, true, false, [], leb, ltb, if◌then◌else◌}
use apicorex.Text.{Bytes}
use apicorex.Map.{Map, insert, get_or}

pub record Bulkhead : Type 0 where
  pub active : Map ℕ
  pub max_conc : ℕ

-- NewBulkhead
unfoldable pub new_bulkhead : ℕ → Bulkhead
new_bulkhead max_concurrent = record { active = []; max_conc = max_concurrent }

-- Active
abbrev pub active_of : Bytes → Bulkhead → ℕ
active_of id b = get_or 0 id b.active

-- Acquire; `true` is a nil error, `false` ErrBulkheadFull.
unfoldable pub acquire : Bytes → Bulkhead → Bool × Bulkhead
acquire id b =
    if leb b.max_conc (active_of id b)
    then (false, b)
    else (true, record b { active = insert id (active_of id b + 1) b.active })

-- Release
unfoldable pub release : Bytes → Bulkhead → Bulkhead
release id b =
    if ltb 0 (active_of id b)
    then record b { active = insert id (active_of id b - 1) b.active }
    else b
