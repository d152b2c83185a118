-- ===== src/Kad/Session/Timers.antt =====
-- The timers that run after searches: one at most when searches follow each other, more when they overlap.
use amarr.Prelude.{
  ℕ, suc, ◌<◌, ◌≡◌, refl, ap, ◌∙◌, true, false, none, List, [], ◌∷◌, arith, ltb, ◌==◌, elem,
  ==_refl,
}
use amarr.Kad.Session.{
  Session, remove, cancel_timer, schedule_timer, after_search, search_begins, search_ends, merged,
}

first_left : (t : ℕ) (ts : List ℕ) → elem t (remove (suc t) (t ∷ ts)) ≡ true
unfolding remove elem
first_left t ts =
    let other : (t == suc t) ≡ false = ground arith in
    let itself : (t == t) ≡ true = ==_refl t in ground (arith, other, itself)

module _ {C : Type 0} where
  search_ends-eq :
      (idle : ℕ) (s : Session C) (contacts : List (ℕ × C))
      → 0 < idle
      → search_ends idle contacts s ≡ schedule_timer (record s { pool = merged contacts s.pool })
  unfolding search_ends after_search
  search_ends-eq idle s contacts h = let on : ltb 0 idle ≡ true = ground arith in rw (on) refl

  cancel-schedule :
      (s : Session C)
      → ((cancel_timer (schedule_timer s)).running ≡ remove s.started s.running)
        × ((cancel_timer (schedule_timer s)).timer ≡ none)
  unfolding cancel_timer schedule_timer remove
  cancel-schedule s = (rw (==_refl s.started) refl, refl)

  -- When a search begins with no other timer than the session's own, and ends, no timer is left once the
  -- next search begins.
  pub running-search_begins :
      (idle : ℕ) (s : Session C) (contacts : List (ℕ × C))
      → 0 < idle
      → (search_begins s).running ≡ []
      → (search_begins (search_ends idle contacts (search_begins s))).running ≡ []
  unfolding search_begins
  running-search_begins idle s contacts h e =
      let begun = cancel_timer s in
      let merged_begun : Session C = record begun { pool = merged contacts begun.pool } in
      ap (λ (t : Session C). (cancel_timer t).running) (search_ends-eq idle begun contacts h)
      ∙ (cancel-schedule merged_begun).0
      ∙ rw (e) (unfold remove in refl)

  -- When two searches end without another one beginning between, the timer of the first is still running
  -- after the next one begins, though the session has no timer then.
  pub overlapping_timer :
      (idle : ℕ) (s : Session C) (first second : List (ℕ × C))
      → 0 < idle
      → let next = search_begins (search_ends idle second (search_ends idle first s)) in
        (elem s.started next.running ≡ true) × (next.timer ≡ none)
  unfolding search_begins
  overlapping_timer idle s first second h =
      let one : Session C = schedule_timer (record s { pool = merged first s.pool }) in
      let two : Session C = record one { pool = merged second one.pool } in
      let ended : search_ends idle second (search_ends idle first s) ≡ schedule_timer two =
        ap (search_ends idle second) (search_ends-eq idle s first h)
        ∙ search_ends-eq idle one second h in
      let left : (cancel_timer (schedule_timer two)).running
          ≡ remove (suc s.started) (s.started ∷ s.running) =
        unfold schedule_timer in (cancel-schedule two).0 in
      (
        ap (λ (t : Session C). elem s.started (cancel_timer t).running) ended
            ∙ ap (elem s.started) left
            ∙ first_left s.started s.running,
        ap (λ (t : Session C). (cancel_timer t).timer) ended ∙ (cancel-schedule two).1,
      )
