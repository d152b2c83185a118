-- ===== src/Ed2k/Session/Ends.antt =====
-- The loops of the session that wait for a packet, against the clock.
use amarr.Prelude.{
  ℕ, zero, suc, ◌+◌, ◌<◌, ◌≡◌, refl, Bool, true, false, Option, none, some, List, ltb, arith,
  Bool-cases, inl, inr, ◌==◌,
}
use amarr.Py.Result.{is_os_error, Exc, Result, ok, err}
use amarr.Py.Seq.{Bytes, Text}
use amarr.Ed2k.Server.{Found, op_idchange, op_reject, op_searchresult}
use amarr.Ed2k.Results.{Folding}
use amarr.Ed2k.Session.{
  listed, Server, Awaited, State, then_on, login_round, result_round, await_login, await_results,
  ensure_connected, search_once, close_conn, cancel_timer, or_retry, retry_on, give_up, finished,
  search,
}

-- The loop ends.
abbrev pub ended : {A : Type 0} → Option A → Bool
ended none = false
ended (some x) = true

then_on-ended :
    {S T A B : Type 0} (found : Awaited S A) (next : A → S → Awaited T B) (back : S → T)
    → ended found ≡ true
    → ((a : A) (s : S) → ended (next a s) ≡ true)
    → ended (then_on found next back) ≡ true
then_on-ended none next back done rest = done
then_on-ended (some (err e, s)) next back done rest = refl
then_on-ended (some (ok a, s)) next back done rest = rest a s

module _ {W : Type 0} (server : Server W) (patience : ℕ) where
  -- A call of `recv_packet` takes time.
  abbrev pub Ticks : Type 0
  Ticks = (w : W) → server.now w < server.now (server.recv_packet w).1

  login_round-ended :
      (again : W → Awaited W (Unit {0})) (r : Result (ℕ × Bytes) × W)
      → ended (again r.1) ≡ true
      → ended (login_round server patience again r) ≡ true
  login_round-ended again (err e, w) later = refl
  login_round-ended again (ok (op, payload), w) later = elim (Bool-cases (op == op_idchange)) [
    | inl confirmed ↦ rw confirmed refl
    | inr other ↦ elim (Bool-cases (op == op_reject)) [
      | inl refused ↦ rw (other, refused) refl
      | inr ignored ↦ rw (other, ignored) later
    ]
  ]

  result_round-ended :
      (again : W → Awaited W (List Found)) (r : Result (ℕ × Bytes) × W)
      → ended (again r.1) ≡ true
      → ended (result_round server patience again r) ≡ true
  result_round-ended again (err e, w) later = refl
  result_round-ended again (ok (op, payload), w) later = elim (Bool-cases (op == op_searchresult)) [
    | inl answered ↦ rw answered refl
    | inr ignored ↦ rw ignored later
  ]

  await_login-ended :
      (rounds deadline : ℕ) (w : W)
      → Ticks
      → deadline < server.now w + rounds
      → ended (await_login server patience (suc rounds) deadline w) ≡ true
  unfolding await_login
  await_login-ended zero deadline w ticks enough =
      let late : ltb (server.now w) deadline ≡ false = ground (arith, enough) in rw late refl
  await_login-ended (suc rounds) deadline w ticks enough =
      elim (Bool-cases (ltb (server.now w) deadline)) [
        | inl early ↦ rw early (
            login_round-ended _ (server.recv_packet w) (
              await_login-ended rounds deadline (server.recv_packet w).1 ticks
                (omega (arith, enough, ticks w))))
        | inr late ↦ rw late refl
      ]

  await_results-ended :
      (rounds deadline : ℕ) (w : W)
      → Ticks
      → deadline < server.now w + rounds
      → ended (await_results server patience (suc rounds) deadline w) ≡ true
  unfolding await_results
  await_results-ended zero deadline w ticks enough =
      let late : ltb (server.now w) deadline ≡ false = ground (arith, enough) in rw late refl
  await_results-ended (suc rounds) deadline w ticks enough =
      elim (Bool-cases (ltb (server.now w) deadline)) [
        | inl early ↦ rw early (
            result_round-ended _ (server.recv_packet w) (
              await_results-ended rounds deadline (server.recv_packet w).1 ticks
                (omega (arith, enough, ticks w))))
        | inr late ↦ rw late refl
      ]

  ensure_connected-ended :
      (state : State server patience)
      → Ticks
      → ended (ensure_connected server patience (suc (suc patience)) state) ≡ true
  unfolding ensure_connected
  ensure_connected-ended (s, w) ticks = elim (Bool-cases s.connected) [
    | inl there ↦ rw there refl
    | inr absent ↦ rw absent (
        then_on-ended (some (server.connect w)) _ _ refl (λ a w₁.
          then_on-ended (some (server.login w₁)) _ _ refl (λ b w₂.
            then_on-ended _ _ _
              (await_login-ended (suc patience) (server.now w₂ + patience) w₂ ticks (ground arith))
              (λ c w₃. refl))))
  ]

  search_once-ended :
      (query : Text) (state : State server patience)
      → Ticks
      → ended (search_once server patience (suc (suc patience)) query state) ≡ true
  unfolding search_once
  search_once-ended query state ticks =
      then_on-ended _ _ _ (ensure_connected-ended state ticks) (λ a (s, w).
        then_on-ended (some (server.send_search query w)) _ _ refl (λ b w₁.
          then_on-ended _ _ _
            (await_results-ended (suc patience) (server.now w₁ + patience) w₁ ticks (ground arith))
            (λ c w₂. refl)))

  give_up-ended :
      (found : Awaited (State server patience) (List Found))
      → ended found ≡ true
      → ended (give_up server patience found) ≡ true
  give_up-ended none done = done
  give_up-ended (some (ok found, state)) done = refl
  give_up-ended (some (err e, state)) done = refl

  retry_on-ended :
      (query : Text) (e : Exc) (state : State server patience) (network : Bool)
      → Ticks
      → ended (retry_on server patience (suc (suc patience)) query e state network) ≡ true
  retry_on-ended query e state true ticks =
      give_up-ended _ (search_once-ended query (close_conn server patience state) ticks)
  retry_on-ended query e state false ticks = refl

  or_retry-ended :
      (query : Text) (found : Awaited (State server patience) (List Found))
      → Ticks
      → ended found ≡ true
      → ended (or_retry server patience (suc (suc patience)) query found) ≡ true
  or_retry-ended query none ticks done = done
  or_retry-ended query (some (ok found, state)) ticks done = refl
  or_retry-ended query (some (err e, state)) ticks done =
      retry_on-ended query e state (is_os_error e) ticks

  finished-ended :
      (idle : ℕ) (found : Awaited (State server patience) (List Found))
      → ended found ≡ true
      → ended (finished server patience idle found) ≡ true
  finished-ended idle none done = done
  finished-ended idle (some (ok found, state)) done = refl
  finished-ended idle (some (err e, state)) done = refl

  listed-ended :
      (folding : Folding) (query : Text) (found : Awaited (State server patience) (List Found))
      → ended found ≡ true
      → ended (listed server patience folding query found) ≡ true
  listed-ended folding query none done = done
  listed-ended folding query (some (ok found, state)) done = refl
  listed-ended folding query (some (err e, state)) done = refl

  -- When each call of `recv_packet` takes at least a tick of the clock, a search ends, whatever the
  -- server sends: no loop that waits has more than two rounds beyond the ticks of the timeout.
  pub search-ended :
      (folding : Folding) (idle : ℕ) (query : Text) (state : State server patience)
      → Ticks
      → ended (search server patience folding (suc (suc patience)) idle query state) ≡ true
  unfolding search
  search-ended folding idle query state ticks = listed-ended folding query _ (
      finished-ended idle _ (
        or_retry-ended query _ ticks
          (search_once-ended query (cancel_timer server patience state) ticks)))
