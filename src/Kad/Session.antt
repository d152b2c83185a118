-- ===== src/Kad/Session.antt =====
-- kad_session.py: `KadSession`, the pool of contacts and the timer that clears it. Each part of a search
-- that runs under the lock is one step; searches overlap between their steps.
pub mod Pool
pub mod Timers
use amarr.Prelude.{
  ℕ, zero, suc, ◌+◌, ◌-◌, ◌≡◌, refl, Bool, true, false, Option, none, some, List, [], ◌∷◌, arith,
  ltb, ◌==◌, elem, if◌then◌else◌, length, drop,
}

-- `_MAX_POOL`
abbrev pub max_pool : ℕ
max_pool = 2000

-- `d[key] = value`: a key that is there keeps its place, a new one comes last.
unfoldable pub set {ℓ} : {C : Type ℓ} → ℕ → C → List (ℕ × C) → List (ℕ × C)
set k c [] = (k, c) ∷ []
set k c ((j, d) ∷ pool) = let rest = set k c pool in if j == k then (j, c) ∷ pool else (j, d) ∷ rest

-- `d.update(e)`
unfoldable pub update {ℓ} : {C : Type ℓ} → List (ℕ × C) → List (ℕ × C) → List (ℕ × C)
update [] pool = pool
update ((k, c) ∷ contacts) pool = update contacts (set k c pool)

-- `running` has the timers that were started and neither cancelled nor run out, by number.
pub record Session (C : Type 0) : Type 0 where
  pub pool : List (ℕ × C)
  pub timer : Option ℕ
  pub running : List ℕ
  pub started : ℕ

unfoldable pub remove : ℕ → List ℕ → List ℕ
remove t [] = []
remove t (x ∷ xs) = let rest = remove t xs in if x == t then rest else x ∷ rest

module _ {C : Type 0} where
  abbrev pub new_session : Session C
  new_session = record { pool = []; timer = none; running = []; started = 0 }

  abbrev cancelled : Option ℕ → Session C → Session C
  cancelled none s = s
  cancelled (some t) s = record s { timer = none; running = remove t s.running }

  -- `_cancel_timer`
  unfoldable pub cancel_timer : Session C → Session C
  cancel_timer s = cancelled s.timer s

  -- `_merge_pool`
  abbrev pub last_ones : List (ℕ × C) → List (ℕ × C)
  last_ones pool = if ltb max_pool (length pool) then drop (length pool - max_pool) pool else pool

  unfoldable pub merged : List (ℕ × C) → List (ℕ × C) → List (ℕ × C)
  merged [] pool = pool
  merged (c ∷ contacts) pool = last_ones (update (c ∷ contacts) pool)

  -- `_schedule_timer`
  unfoldable pub schedule_timer : Session C → Session C
  schedule_timer s = record s {
    timer = some s.started;
    running = s.started ∷ s.running;
    started = suc s.started;
  }

  -- `_after_search`
  unfoldable pub after_search : ℕ → Session C → Session C
  after_search idle s = if ltb 0 idle then schedule_timer s else record s { pool = [] }

  -- The two parts of `search`, `_idle_clear` and `close`.
  unfoldable pub search_begins : Session C → Session C
  search_begins s = cancel_timer s

  unfoldable pub search_ends : ℕ → List (ℕ × C) → Session C → Session C
  search_ends idle contacts s = after_search idle (record s { pool = merged contacts s.pool })

  unfoldable pub idle_clear : ℕ → Session C → Session C
  idle_clear t s = record s { pool = []; timer = none; running = remove t s.running }

  unfoldable pub close : Session C → Session C
  close s = record (cancel_timer s) { pool = [] }

  -- What can happen next.
  pub data Step (idle : ℕ) : Session C → Session C → Type 0 where
    begins : (s : Session C) → Step idle s (search_begins s)
    ends : (s : Session C) (contacts : List (ℕ × C)) → Step idle s (search_ends idle contacts s)
    expires : (s : Session C) (t : ℕ) → elem t s.running ≡ true → Step idle s (idle_clear t s)
    closes : (s : Session C) → Step idle s (close s)

  pub data Reachable (idle : ℕ) : Session C → Type 0 where
    initial : Reachable idle new_session
    after : {s s' : Session C} → Reachable idle s → Step idle s s' → Reachable idle s'
