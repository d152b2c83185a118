-- ===== src/Ed2k/Session/Failures.antt =====
-- What the session does when the server refuses it.
use amarr.Prelude.{ℕ, suc, ◌+◌, ◌<◌, ◌≡◌, refl, Bool, true, false, some, ltb, arith}
use amarr.Py.Result.{ok, err, os_error}
use amarr.Py.Seq.{Bytes, Text}
use amarr.Ed2k.Server.{op_reject}
use amarr.Ed2k.Results.{Folding}
use amarr.Ed2k.Session.{Server, await_login, ensure_connected, search_once, close_conn, search}

module _ {W : Type 0} (server : Server W) (patience : ℕ) where
  -- A server that takes the connection and the login and then refuses, in time.
  pub record Refuses (w w' : W) : Type 0 where
    pub connected : W
    pub logged_in : W
    pub payload : Bytes
    pub connects : server.connect w ≡ (ok tt, connected)
    pub logs_in : server.login connected ≡ (ok tt, logged_in)
    pub refuses : server.recv_packet logged_in ≡ (ok (op_reject, payload), w')
    pub patient : 0 < patience

  search_once-Refuses :
      (rounds : ℕ) (query : Text) (w w' : W) (timer : Bool)
      → Refuses w w'
      → search_once server patience
          (suc rounds)
          query
          (record { connected = false; timer = timer }, w)
        ≡ some (err os_error, (record { connected = false; timer = timer }, w'))
  unfolding search_once ensure_connected await_login
  search_once-Refuses rounds query w w' timer r =
      let early : ltb (server.now r.logged_in) (server.now r.logged_in + patience) ≡ true =
        ground (arith, r.patient) in
      rw (r.connects, r.logs_in, early, r.refuses) refl

  -- When a session without a connection searches, and the server twice takes the connection and the
  -- login and then refuses, the search raises and leaves the session without a connection; neither
  -- of the two connections that it opened is closed.
  pub search-Refuses :
      (folding : Folding) (rounds idle : ℕ) (query : Text) (w w' w″ : W) (timer : Bool)
      → Refuses w w'
      → Refuses w' w″
      → search server patience folding
          (suc rounds)
          idle
          query
          (record { connected = false; timer = timer }, w)
        ≡ some (err os_error, (record { connected = false; timer = false }, w″))
  unfolding search close_conn
  search-Refuses folding rounds idle query w w' w″ timer first second =
      rw
        (
          search_once-Refuses rounds query w w' false first,
          search_once-Refuses rounds query w' w″ false second,
        )
        refl
