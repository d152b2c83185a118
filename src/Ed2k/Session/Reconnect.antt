-- ===== src/Ed2k/Session/Reconnect.antt =====
-- The session reconnects when the server has dropped the idle connection.
use amarr.Prelude.{
  ℕ, zero, suc, ◌+◌, ◌<◌, ◌≡◌, ◌⊎◌, inl, inr, refl, Bool, true, false, not, ◌&&◌, some, List, ltb,
  arith, ◌==◌, if◌then◌else◌,
}
use amarr.Py.Result.{Exc, Result, ok, err, is_os_error}
use amarr.Py.Seq.{Bytes, Text}
use amarr.Ed2k.Results.{Folding, filter_by_query, results_of}
use amarr.Ed2k.Server.{Found, op_idchange, op_reject, op_searchresult, parse_search_result}
use amarr.Ed2k.Session.{
  Server, Awaited, is_timeout, login_round, result_round, await_login, await_results,
  ensure_connected, search_once, close_conn, after_search, search,
}

-- What the two loops ignore.
abbrev pub is_no_greeting : ℕ → Bool
is_no_greeting op = not (op == op_idchange) && not (op == op_reject)

abbrev pub is_no_answer : ℕ → Bool
is_no_answer op = not (op == op_searchresult)

module _ {W : Type 0} (server : Server W) (patience : ℕ) where
  -- `recv_packet` gives `n` packets that are ignored and then `outcome`, each before the deadline.
  abbrev pub Receives : (ℕ → Bool) → Result (ℕ × Bytes) → ℕ → ℕ → W → W → Type 0
  Receives ignored outcome deadline zero w w' =
      (server.now w < deadline) × (server.recv_packet w ≡ (outcome, w'))
  Receives ignored outcome deadline (suc n) w w' =
      (server.now w < deadline)
      × (op : ℕ) × (payload : Bytes) × (w₁ : W) × (server.recv_packet w ≡ (ok (op, payload), w₁))
      × (ignored op ≡ true)
      × Receives ignored outcome deadline n w₁ w'

  -- The server takes the connection and the login, and confirms it in time, after `n` other packets.
  pub record Opens (n : ℕ) (w w' : W) : Type 0 where
    pub connected : W
    pub logged_in : W
    pub payload : Bytes
    pub connects : server.connect w ≡ (ok tt, connected)
    pub logs_in : server.login connected ≡ (ok tt, logged_in)
    pub confirms :
        Receives is_no_greeting
          (ok (op_idchange, payload))
          (server.now logged_in + patience)
          n
          logged_in
          w'

  -- The server takes the search and answers it in time, after `n` other packets.
  pub record Answers (query : Text) (found : List Found) (n : ℕ) (w w' : W) : Type 0 where
    pub asked : W
    pub payload : Bytes
    pub sends : server.send_search query w ≡ (ok tt, asked)
    pub answers :
        Receives is_no_answer
          (ok (op_searchresult, payload))
          (server.now asked + patience)
          n
          asked
          w'
    pub parses : parse_search_result payload ≡ ok found

  -- The connection fails after the search was sent, other than by a timeout.
  pub record Breaks (query : Text) (e : Exc) (n : ℕ) (w w' : W) : Type 0 where
    pub asked : W
    pub sends : server.send_search query w ≡ (ok tt, asked)
    pub breaks : Receives is_no_answer (err e) (server.now asked + patience) n asked w'
    pub is_other : is_timeout e ≡ false

  -- An `OSError` while the search is sent, or while its answer is awaited.
  abbrev pub Drops : Text → Exc → ℕ → W → W → Type 0
  Drops query e n w w' =
      (is_os_error e ≡ true) × ((server.send_search query w ≡ (err e, w')) ⊎ Breaks query e n w w')

  await_login-Receives :
      (rounds deadline n : ℕ) (w w' : W) (outcome : Result (ℕ × Bytes)) (r : Result (Unit {0}) × W)
      → n < rounds
      → Receives is_no_greeting outcome deadline n w w'
      → ((again : W → Awaited W (Unit {0}))
          → login_round server patience again (outcome, w') ≡ some r)
      → await_login server patience rounds deadline w ≡ some r
  unfolding await_login
  await_login-Receives zero deadline n w w' outcome r enough receives last = absurd (omega arith)
  await_login-Receives (suc rounds) deadline zero w w' outcome r enough (early, got) last =
      let in_time : ltb (server.now w) deadline ≡ true = ground (arith, early) in
      rw (in_time, got) (last _)
  await_login-Receives (suc rounds) deadline (suc n) w w' outcome r enough
        (early, op, payload, w₁, got, ignored, later) last =
      let in_time : ltb (server.now w) deadline ≡ true = ground (arith, early) in
      let other : (op == op_idchange) ≡ false = ground (arith, ignored) in
      let taken : (op == op_reject) ≡ false = ground (arith, ignored) in
      rw (in_time, got, other, taken)
        (await_login-Receives rounds deadline n w₁ w' outcome r (omega arith) later last)

  await_results-Receives :
      (rounds deadline n : ℕ) (w w' : W) (outcome : Result (ℕ × Bytes))
      (r : Result (List Found) × W)
      → n < rounds
      → Receives is_no_answer outcome deadline n w w'
      → ((again : W → Awaited W (List Found))
          → result_round server patience again (outcome, w') ≡ some r)
      → await_results server patience rounds deadline w ≡ some r
  unfolding await_results
  await_results-Receives zero deadline n w w' outcome r enough receives last = absurd (omega arith)
  await_results-Receives (suc rounds) deadline zero w w' outcome r enough (early, got) last =
      let in_time : ltb (server.now w) deadline ≡ true = ground (arith, early) in
      rw (in_time, got) (last _)
  await_results-Receives (suc rounds) deadline (suc n) w w' outcome r enough
        (early, op, payload, w₁, got, ignored, later) last =
      let in_time : ltb (server.now w) deadline ≡ true = ground (arith, early) in
      let other : (op == op_searchresult) ≡ false = ground (arith, ignored) in
      rw (in_time, got, other)
        (await_results-Receives rounds deadline n w₁ w' outcome r (omega arith) later last)

  ensure_connected-Opens :
      (rounds n : ℕ) (w w' : W) (timer : Bool)
      → n < rounds
      → Opens n w w'
      → ensure_connected server patience rounds (record { connected = false; timer = timer }, w)
        ≡ some (ok tt, (record { connected = true; timer = timer }, w'))
  unfolding ensure_connected
  ensure_connected-Opens rounds n w w' timer enough o =
      rw
        (
          o.connects,
          o.logs_in,
          await_login-Receives rounds _ n o.logged_in w' _ (ok tt, w') enough o.confirms
              (λ again. refl),
        )
        refl

  search_once-Opens :
      (rounds m n : ℕ) (query : Text) (found : List Found) (w w₁ w₂ : W) (timer : Bool)
      → m < rounds
      → n < rounds
      → Opens m w w₁
      → Answers query found n w₁ w₂
      → search_once server patience rounds query (record { connected = false; timer = timer }, w)
        ≡ some (ok found, (record { connected = true; timer = timer }, w₂))
  unfolding search_once
  search_once-Opens rounds m n query found w w₁ w₂ timer few few' o a =
      rw
        (
          ensure_connected-Opens rounds m w w₁ timer few o,
          a.sends,
          await_results-Receives rounds _ n a.asked w₂ _ (ok found, w₂) few' a.answers
              (λ again. rw a.parses refl),
        )
        refl

  search_once-Drops :
      (rounds n : ℕ) (query : Text) (e : Exc) (w w₁ : W) (timer : Bool)
      → n < rounds
      → Drops query e n w w₁
      → search_once server patience rounds query (record { connected = true; timer = timer }, w)
        ≡ some (err e, (record { connected = true; timer = timer }, w₁))
  unfolding search_once ensure_connected
  search_once-Drops rounds n query e w w₁ timer few (network, inl refused) = rw refused refl
  search_once-Drops rounds n query e w w₁ timer few (network, inr b) =
      rw
        (
          b.sends,
          await_results-Receives rounds _ n b.asked w₁ (err e) (err e, w₁) few b.breaks
              (λ again. rw b.is_other refl),
        )
        refl

  -- Take a session whose connection fails with an `OSError` other than a timeout, while the search is
  -- sent or its answer is awaited, or with a timeout while it is sent. When the server then takes a new
  -- connection and the login, confirms it and answers the search, each in time, with any packets in
  -- between that the two loops ignore, the search closes the old connection and gives what
  -- `SearchResult.from_tags` makes of the results of the answer that match the query. With a positive
  -- `idle` the session stays connected with a timer set, and otherwise it closes the new connection too.
  -- The rounds must be more than the ignored packets of each wait.
  pub search-reconnects :
      (folding : Folding) (rounds idle l m n : ℕ) (query : Text) (found : List Found) (e : Exc)
      (w w₁ w₂ w₃ : W) (timer : Bool)
      → (l < rounds) × (m < rounds) × (n < rounds)
      → Drops query e l w w₁
      → Opens m (server.close w₁) w₂
      → Answers query found n w₂ w₃
      → search server patience folding rounds idle query
          (record { connected = true; timer = timer }, w)
        ≡ some (
          results_of (filter_by_query folding found query),
          (
            record { connected = ltb 0 idle; timer = ltb 0 idle },
            if ltb 0 idle then w₃ else server.close w₃,
          ),
        )
  unfolding search close_conn after_search
  search-reconnects folding rounds zero l m n query found e w w₁ w₂ w₃ timer (few, few', few″)
        dropped o a =
      rw
        (
          search_once-Drops rounds l query e w w₁ false few dropped,
          dropped.0,
          search_once-Opens rounds m n query found (server.close w₁) w₂ w₃ false few' few″ o a,
        )
        refl
  search-reconnects folding rounds (suc idle) l m n query found e w w₁ w₂ w₃ timer (few, few', few″)
        dropped o a =
      let keeps : ltb 0 (suc idle) ≡ true = ground arith in
      rw
        (
          search_once-Drops rounds l query e w w₁ false few dropped,
          dropped.0,
          search_once-Opens rounds m n query found (server.close w₁) w₂ w₃ false few' few″ o a,
          keeps,
        )
        refl
