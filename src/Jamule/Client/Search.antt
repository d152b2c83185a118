-- ===== src/Jamule/Client/Search.antt =====
-- `search_sync` of jamule/client.py ends.
use amarr.Prelude.{
  ℕ, zero, suc, ◌+◌, ◌-◌, ◌*◌, ◌≤◌, ◌<◌, ◌≡◌, refl, Option, none, some, arith, Bool-cases, inl, inr,
  ltb,
}
use amarr.Py.Result.{Result, ok, err}
use amarr.Py.Seq.{Text}
use amarr.Py.Stateful.{Stateful}
use amarr.Ec.Packet.{Packet}
use amarr.Jamule.Request.{search_status_request, SearchType, SearchFilters}
use amarr.Jamule.Response.{Response}
use amarr.Torrent.Models.{Ratio}
use amarr.Jamule.Client.{
  Clock, is_done, get_search_status, poll, poll_round, poll_after, results_after, search_sync,
}

module _ {W : Type 0} (send_request : Packet → Stateful W Response) (clock : Clock W) where
  -- A clock that goes forward by what is slept, and does not go back during a request.
  pub record IsMonotonic : Type 0 where
    pub slept : (ms : ℕ) (w : W) → clock.monotonic w + ms ≤ clock.monotonic (clock.sleep ms w)
    pub sent : (p : Packet) (w : W) → clock.monotonic w ≤ clock.monotonic (send_request p w).1

  abbrev pub Ends {ℓ} : {A : Type ℓ} → Option A → Type ℓ
  Ends {A = A} r = (a : A) × (r ≡ some a)

  status-later :
      (w : W)
      → IsMonotonic
      → clock.monotonic w ≤ clock.monotonic (get_search_status send_request w).1
  unfolding get_search_status
  status-later w m = ground (arith, m.sent search_status_request w)

  round-Ends :
      (again : W → Option (Result (Unit {0}) × W)) (timeout start : ℕ) (answer : Result Ratio × W)
      → ((clock.monotonic answer.1 - start) ≤ timeout → Ends (again (clock.sleep 100 answer.1)))
      → Ends (poll_round send_request clock again timeout start answer)
  round-Ends again timeout start (err e, w) later = (_, refl)
  round-Ends again timeout start (ok status, w) later = elim (Bool-cases (is_done status)) [
    | inl done ↦ rw (done) (_, refl)
    | inr more ↦ elim (Bool-cases (ltb timeout (clock.monotonic w - start))) [
      | inl late ↦ rw (more, late) (_, refl)
      | inr early ↦ rw (more, early) (later (ground arith))
    ]
  ]

  poll-Ends :
      (rounds timeout start : ℕ) (w : W)
      → IsMonotonic
      → start + timeout < clock.monotonic w + rounds * 100
      → Ends (poll send_request clock (suc rounds) timeout start w)
  unfolding poll
  poll-Ends zero timeout start w m enough =
      let answer = get_search_status send_request w in
      round-Ends (poll send_request clock 0 timeout start) timeout start answer
        (λ early. absurd (omega (arith, status-later w m)))
  poll-Ends (suc rounds) timeout start w m enough =
      let answer = get_search_status send_request w in
      round-Ends (poll send_request clock (suc rounds) timeout start) timeout start answer (λ early.
        poll-Ends rounds timeout start (clock.sleep 100 answer.1) m
          (omega (arith, status-later w m, m.slept 100 answer.1)))

  results_after-Ends :
      (r : Option (Result (Unit {0}) × W)) → Ends r → Ends (results_after send_request clock r)
  results_after-Ends none (a, e) = absurd cc
  results_after-Ends (some (r, w)) h = (_, refl)

  poll_after-Ends :
      (rounds timeout : ℕ) (started : Result (Unit {0}) × W)
      → IsMonotonic
      → timeout < rounds * 100
      → Ends (poll_after send_request clock (suc rounds) timeout started)
  poll_after-Ends rounds timeout (err e, w) m enough = (_, refl)
  poll_after-Ends rounds timeout (ok a, w) m enough =
      results_after-Ends _ (poll-Ends rounds timeout (clock.monotonic w) w m (omega arith))

  -- With a clock that goes forward by what is slept, a search comes to an end, with its results or with
  -- an exception, within timeout / 0.1 s + 2 rounds of its loop, whatever status aMule reports.
  pub search_sync-Ends :
      (rounds : ℕ) (query : Text) (type : SearchType) (filters : Option SearchFilters) (timeout : ℕ)
      (w : W)
      → IsMonotonic
      → timeout < rounds * 100
      → Ends (search_sync send_request clock (suc rounds) query type filters timeout w)
  unfolding search_sync
  search_sync-Ends rounds query type filters timeout w m enough =
      poll_after-Ends rounds timeout _ m enough
