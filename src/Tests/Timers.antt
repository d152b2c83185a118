-- ===== src/Tests/Timers.antt =====
-- Searches of a Kad session: one after the other, and two that overlap.
use amarr.Prelude.{ℕ, ◌≡◌, refl, true, none, List, [], ◌∷◌, arith, elem}
use amarr.Kad.Session.{
  new_session, search_begins, search_ends, cancel_timer, initial, after, begins, ends,
}
use amarr.Kad.Session.Pool.{IsBounded, Reachable-IsBounded}
use amarr.Kad.Session.Timers.{running-search_begins, overlapping_timer}

abbrev found : List (ℕ × ℕ)
found = (5, 50) ∷ (7, 70) ∷ (5, 51) ∷ []

Reachable-IsBounded_example : IsBounded (search_ends 600 found (search_begins new_session))
Reachable-IsBounded_example =
    Reachable-IsBounded 600 (search_ends 600 found (search_begins new_session))
      (after (after initial (begins new_session)) (ends (search_begins new_session) found))

running-search_begins_example :
    (search_begins (search_ends 600 found (search_begins new_session))).running ≡ []
running-search_begins_example =
    running-search_begins 600 new_session found (omega arith)
      (unfold search_begins cancel_timer in refl)

overlapping_timer_example :
    let next = search_begins (search_ends 600 [] (search_ends 600 found new_session)) in
    (elem 0 next.running ≡ true) × (next.timer ≡ none)
overlapping_timer_example = overlapping_timer 600 new_session found [] (omega arith)
