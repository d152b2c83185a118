-- ===== src/Kad/Session/Pool.antt =====
-- The pool stays within its limit and has no contact twice, however searches and timers interleave.
use amarr.Prelude.{
  ℕ, zero, suc, ◌-◌, ◌≤◌, ◌≡◌, refl, true, false, List, [], ◌∷◌, arith, ltb, ◌==◌, Bool-cases, inl,
  inr, length, drop, length-drop,
}
use amarr.Py.Table
use amarr.Kad.Session.{
  max_pool, set, update, Session, cancel_timer, merged, last_ones, schedule_timer, after_search,
  search_begins, search_ends, idle_clear, close, Step, Reachable, begins, ends, expires, closes,
  initial, after,
}

absent-set :
    {C : Type 0} (j k : ℕ) (c : C) (pool : List (ℕ × C))
    → (k == j) ≡ false
    → Table.absent ◌==◌ j pool ≡ true
    → Table.absent ◌==◌ j (set k c pool) ≡ true
unfolding Table.absent set
absent-set j k c [] n h = ground arith
absent-set j k c ((i, d) ∷ pool) n h = ground (arith, absent-set j k c pool n)

unique-set :
    {C : Type 0} (k : ℕ) (c : C) (pool : List (ℕ × C))
    → Table.unique ◌==◌ pool ≡ true
    → Table.unique ◌==◌ (set k c pool) ≡ true
unfolding Table.unique Table.absent set
unique-set k c [] u = refl
unique-set k c ((i, d) ∷ pool) u = ground (arith, unique-set k c pool, absent-set i k c pool)

unique-update :
    {C : Type 0} (contacts pool : List (ℕ × C))
    → Table.unique ◌==◌ pool ≡ true
    → Table.unique ◌==◌ (update contacts pool) ≡ true
unfolding update
unique-update [] pool u = u
unique-update ((k, c) ∷ contacts) pool u =
    unique-update contacts (set k c pool) (unique-set k c pool u)

unique-drop :
    {C : Type 0} (n : ℕ) (pool : List (ℕ × C))
    → Table.unique ◌==◌ pool ≡ true
    → Table.unique ◌==◌ (drop n pool) ≡ true
unfolding Table.unique
unique-drop zero pool u = u
unique-drop (suc n) [] u = refl
unique-drop (suc n) ((k, c) ∷ pool) u = unique-drop n pool (ground arith)

pub record IsBounded {C : Type 0} (s : Session C) : Type 0 where
  pub unique : Table.unique ◌==◌ s.pool ≡ true
  pub limited : length s.pool ≤ max_pool

module _ {C : Type 0} where
  last_ones-limited : (pool : List (ℕ × C)) → length (last_ones pool) ≤ max_pool
  last_ones-limited pool = ground (arith, length-drop (length pool - max_pool) pool)

  last_ones-unique :
      (pool : List (ℕ × C))
      → Table.unique ◌==◌ pool ≡ true
      → Table.unique ◌==◌ (last_ones pool) ≡ true
  last_ones-unique pool u = ground (arith, u, unique-drop (length pool - max_pool) pool u)

  merged-limited :
      (contacts pool : List (ℕ × C))
      → length pool ≤ max_pool
      → length (merged contacts pool) ≤ max_pool
  unfolding merged
  merged-limited [] pool h = h
  merged-limited (c ∷ contacts) pool h = last_ones-limited (update (c ∷ contacts) pool)

  merged-unique :
      (contacts pool : List (ℕ × C))
      → Table.unique ◌==◌ pool ≡ true
      → Table.unique ◌==◌ (merged contacts pool) ≡ true
  unfolding merged
  merged-unique [] pool u = u
  merged-unique (c ∷ contacts) pool u =
      last_ones-unique (update (c ∷ contacts) pool) (unique-update (c ∷ contacts) pool u)

  empty-IsBounded : (s : Session C) → s.pool ≡ [] → IsBounded s
  unfolding Table.unique
  empty-IsBounded s e = record { unique = rw (e) refl; limited = rw (e) (omega arith) }

  cancel_timer-pool : (s : Session C) → (cancel_timer s).pool ≡ s.pool
  unfolding cancel_timer
  cancel_timer-pool s = ground arith

  ends-IsBounded :
      (idle : ℕ) (s : Session C) (contacts : List (ℕ × C))
      → IsBounded s
      → IsBounded (search_ends idle contacts s)
  unfolding search_ends after_search schedule_timer
  ends-IsBounded idle s contacts b = elim (Bool-cases (ltb 0 idle)) [
    | inl on ↦ record {
      unique = rw (on) (merged-unique contacts s.pool b.unique);
      limited = rw (on) (merged-limited contacts s.pool b.limited);
    }
    | inr off ↦ empty-IsBounded (search_ends idle contacts s) (rw (off) refl)
  ]

  Step-IsBounded : (idle : ℕ) {s s' : Session C} → Step idle s s' → IsBounded s → IsBounded s'
  unfolding search_begins search_ends after_search schedule_timer idle_clear close
  Step-IsBounded idle (begins s) b = record {
    unique = rw (cancel_timer-pool s) b.unique;
    limited = rw (cancel_timer-pool s) b.limited;
  }
  Step-IsBounded idle (ends s contacts) b = ends-IsBounded idle s contacts b
  Step-IsBounded idle (expires s t h) b = empty-IsBounded (idle_clear t s) refl
  Step-IsBounded idle (closes s) b = empty-IsBounded (close s) refl

  -- In every state that searches, timers and closing lead to, in any order, the pool has at most 2000
  -- contacts and none of them twice.
  pub Reachable-IsBounded : (idle : ℕ) (s : Session C) → Reachable idle s → IsBounded s
  Reachable-IsBounded idle s initial = empty-IsBounded _ refl
  Reachable-IsBounded idle s (after r step) =
      Step-IsBounded idle step (Reachable-IsBounded idle _ r)
