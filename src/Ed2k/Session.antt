-- ===== src/Ed2k/Session.antt =====
-- ed2k_session.py: the session with an eD2k server. A search runs under the lock, so that it is one
-- step; the connection's operations and the clock are parameters.
pub mod Failures
pub mod Reconnect
pub mod Ends
use amarr.Prelude.{
  ℕ, zero, suc, ◌+◌, Bool, true, false, Option, none, some, List, [], ◌∷◌, ltb, ◌==◌, if◌then◌else◌,
}
use amarr.Py.Result.{is_os_error, Exc, Result, ok, err, os_error, timeout}
use amarr.Py.Seq.{Bytes, Text}
use amarr.Ed2k.Results.{Folding, SearchResult, filter_by_query, results_of}
use amarr.Ed2k.Server.{Found, op_idchange, op_reject, op_searchresult, parse_search_result}

-- `Ed2kConnection`: the constructor, `login`, `search`, `recv_packet` and `close`
pub record Server (W : Type 0) : Type 0 where
  pub connect : W → Result (Unit {0}) × W
  pub login : W → Result (Unit {0}) × W
  pub send_search : Text → W → Result (Unit {0}) × W
  pub recv_packet : W → Result (ℕ × Bytes) × W
  pub close : W → W
  pub now : W → ℕ

-- `_conn` and `_timer`: whether there is a connection, and whether a timer was set and not cancelled.
pub record Session : Type 0 where
  pub connected : Bool
  pub timer : Bool

abbrev pub new_session : Session
new_session = record { connected = false; timer = false }

-- What a loop that waits gives; `none` is a loop that has not ended after so many rounds.
abbrev pub Awaited : Type 0 → Type 0 → Type 0
Awaited W A = Option (Result A × W)

abbrev pub then_on :
    {S T A B : Type 0} → Awaited S A → (A → S → Awaited T B) → (S → T) → Awaited T B
then_on none next back = none
then_on (some (err e, s)) next back = some (err e, back s)
then_on (some (ok a, s)) next back = next a s

-- `except socket.timeout`
abbrev pub is_timeout : Exc → Bool
is_timeout timeout = true
is_timeout _ = false

module _ {W : Type 0} (server : Server W) (patience : ℕ) where
  -- A packet in `_await_login`
  abbrev pub login_round :
      (W → Awaited W (Unit {0})) → Result (ℕ × Bytes) × W → Awaited W (Unit {0})
  login_round again (err e, w) = some (if is_timeout e then ok tt else err e, w)
  login_round again (ok (op, payload), w) =
      if op == op_idchange
      then some (ok tt, w)
      else if op == op_reject
      then some (err os_error, w)
      else again w

  unfoldable pub await_login : ℕ → ℕ → W → Awaited W (Unit {0})
  await_login zero deadline w = none
  await_login (suc rounds) deadline w =
      let next = login_round (await_login rounds deadline) (server.recv_packet w) in
      if ltb (server.now w) deadline then next else some (ok tt, w)

  -- A packet in `_await_results`
  abbrev pub result_round :
      (W → Awaited W (List Found)) → Result (ℕ × Bytes) × W → Awaited W (List Found)
  result_round again (err e, w) = some (if is_timeout e then ok [] else err e, w)
  result_round again (ok (op, payload), w) =
      if op == op_searchresult then some (parse_search_result payload, w) else again w

  unfoldable pub await_results : ℕ → ℕ → W → Awaited W (List Found)
  await_results zero deadline w = none
  await_results (suc rounds) deadline w =
      let next = result_round (await_results rounds deadline) (server.recv_packet w) in
      if ltb (server.now w) deadline then next else some (ok [], w)

  abbrev pub State : Type 0
  State = Session × W

  abbrev with_session : Session → W → State
  with_session s w = (s, w)

  -- `_ensure_connected`: `_conn` is set at its end.
  unfoldable pub ensure_connected : ℕ → State → Awaited State (Unit {0})
  ensure_connected rounds (s, w) =
      let opened =
        then_on {T = State} (some (server.connect w))
          (λ _ w₁.
            then_on (some (server.login w₁))
              (λ _ w₂.
                then_on (await_login rounds (server.now w₂ + patience) w₂)
                  (λ _ w₃. some (ok tt, (record s { connected = true }, w₃))) (with_session s))
              (with_session s))
          (with_session s) in
      if s.connected then some (ok tt, (s, w)) else opened

  -- `_search_once`
  unfoldable pub search_once : ℕ → Text → State → Awaited State (List Found)
  search_once rounds query state =
      then_on (ensure_connected rounds state)
        (λ _ (s, w).
          then_on {T = State} (some (server.send_search query w))
            (λ _ w₁.
              then_on (await_results rounds (server.now w₁ + patience) w₁)
                (λ found w₂. some (ok found, (s, w₂))) (with_session s))
            (with_session s))
        (λ state'. state')

  -- `_close_conn`
  unfoldable pub close_conn : State → State
  close_conn (s, w) =
      if s.connected then (record s { connected = false }, server.close w) else (s, w)

  abbrev cancel_timer : State → State
  cancel_timer (s, w) = (record s { timer = false }, w)

  -- `_after_search`
  unfoldable pub after_search : ℕ → State → State
  after_search idle (s, w) =
      if ltb 0 idle then (record s { timer = true }, w) else close_conn (s, w)

  -- The second attempt: a failure of the network closes the connection and goes through.
  abbrev pub give_up : Awaited State (List Found) → Awaited State (List Found)
  give_up none = none
  give_up (some (ok found, state)) = some (ok found, state)
  give_up (some (err e, state)) = some (err e, if is_os_error e then close_conn state else state)

  abbrev pub retry_on : ℕ → Text → Exc → State → Bool → Awaited State (List Found)
  retry_on rounds query e state true = give_up (search_once rounds query (close_conn state))
  retry_on rounds query e state false = some (err e, state)

  abbrev pub or_retry : ℕ → Text → Awaited State (List Found) → Awaited State (List Found)
  or_retry rounds query none = none
  or_retry rounds query (some (ok found, state)) = some (ok found, state)
  or_retry rounds query (some (err e, state)) = retry_on rounds query e state (is_os_error e)

  abbrev pub finished : ℕ → Awaited State (List Found) → Awaited State (List Found)
  finished idle none = none
  finished idle (some (err e, state)) = some (err e, state)
  finished idle (some (ok found, state)) = some (ok found, after_search idle state)

  -- The results that match the query
  abbrev pub listed :
      Folding → Text → Awaited State (List Found) → Awaited State (List SearchResult)
  listed folding query none = none
  listed folding query (some (err e, state)) = some (err e, state)
  listed folding query (some (ok found, state)) =
      some (results_of (filter_by_query folding found query), state)

  -- `search`
  unfoldable pub search : Folding → ℕ → ℕ → Text → State → Awaited State (List SearchResult)
  search folding rounds idle query state =
      listed folding query
        (finished idle (or_retry rounds query (search_once rounds query (cancel_timer state))))

  -- `close`, and `_idle_close`, which the timer calls
  unfoldable pub close : State → State
  close state = close_conn (cancel_timer state)

  unfoldable pub idle_close : State → State
  idle_close state = close_conn state
