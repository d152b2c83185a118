-- ===== src/Jamule/Connection/Sound.antt =====
-- What `send_request` of jamule/connection.py leaves behind, whatever the network does.
use amarr.Prelude.{◌≡◌, refl, Bool, true, false, not, ◌&&◌, ◌||◌, Option, none, some, arith}
use amarr.Py.Result.{is_os_error, Result, ok, err}
use amarr.Py.Stateful.{continue}
use amarr.Ec.Packet.{Packet}
use amarr.Ec.Packet.Stream.{Stream}
use amarr.Jamule.Response.{Response}
use amarr.Jamule.Connection.{
  Network, Connection, Host, open_socket, send_request_no_auth, authenticate, reconnect,
  reconnect_if_needed, guarded, send_request,
}

abbrev has_reader : Option Stream → Bool
has_reader none = false
has_reader (some s) = true

-- A connection that says it is connected has a reader.
abbrev pub is_sound : Connection → Bool
is_sound c = not c.connected || has_reader c.reader

module _ {W : Type 0} (network : Network W) (host : Host) where
  -- An exchange keeps the flag, and keeps a reader where there is one.
  send_request_no_auth-keeps :
      (packet : Packet) (c : Connection) (w : W)
      → let c' = (send_request_no_auth network host packet (c, w)).1.0 in
        (c'.connected ≡ c.connected) × (has_reader c'.reader ≡ has_reader c.reader)
  unfolding send_request_no_auth
  send_request_no_auth-keeps packet c w = ground arith

  open_socket-closed : (c : Connection) (w : W) → (open_socket network (c, w)).1.0.connected ≡ false
  unfolding open_socket
  open_socket-closed c w = ground arith

  open_socket-reader :
      (c : Connection) (w : W)
      → (open_socket network (c, w)).0 ≡ ok tt
      → has_reader (open_socket network (c, w)).1.0.reader ≡ true
  unfolding open_socket
  open_socket-reader c w h = ground arith

  abbrev IsLoggedIn : Result (Unit {0}) → Connection → Connection → Type 0
  IsLoggedIn (ok a) c c' = (c'.connected ≡ true) × (has_reader c'.reader ≡ has_reader c.reader)
  IsLoggedIn (err e) c c' = c'.connected ≡ c.connected

  authenticate-keeps :
      (c : Connection) (w : W)
      → IsLoggedIn (authenticate network host (c, w)).0 c (authenticate network host (c, w)).1.0
  unfolding authenticate send_request_no_auth
  authenticate-keeps c w = ground arith

  -- A response comes from a connection that is usable again; after a failure of the network it is not
  -- taken for one.
  abbrev pub IsSettled : Result Response → Connection → Type 0
  IsSettled (ok response) c = (c.connected ≡ true) × (has_reader c.reader ≡ true)
  IsSettled (err e) c = (is_os_error e && c.connected) ≡ false

  guarded-IsSettled :
      (packet : Packet) (c : Connection) (w : W)
      → c.connected ≡ true
      → has_reader c.reader ≡ true
      → let (r, (c', w')) =
          guarded network host (send_request_no_auth network host packet (c, w)) in
        IsSettled r c' × (is_sound c' ≡ true)
  unfolding send_request_no_auth
  guarded-IsSettled packet c w on there = ground arith

  -- After `reconnect` there is a login, or no connection.
  abbrev IsReady : Result (Unit {0}) × (Connection × W) → Type 0
  IsReady (ok a, (c, w)) = (c.connected ≡ true) × (has_reader c.reader ≡ true)
  IsReady (err e, (c, w)) = c.connected ≡ false

  authenticated-IsReady :
      (opened : Result (Unit {0}) × (Connection × W))
      → opened.1.0.connected ≡ false
      → (opened.0 ≡ ok tt → has_reader opened.1.0.reader ≡ true)
      → IsReady (continue opened (λ _. authenticate network host))
  authenticated-IsReady (ok a, (c, w)) closed there =
      ground (arith, authenticate-keeps c w, there refl)
  authenticated-IsReady (err e, (c, w)) closed there = closed

  reconnect-IsReady : (c : Connection) (w : W) → IsReady (reconnect network host (c, w))
  unfolding reconnect
  reconnect-IsReady c w =
      authenticated-IsReady (open_socket network (c, w)) (open_socket-closed c w)
        (open_socket-reader c w)

  reconnect_if_needed-IsReady :
      (flag : Bool) (c : Connection) (w : W)
      → c.connected ≡ flag
      → is_sound c ≡ true
      → IsReady (reconnect_if_needed network host flag (c, w))
  reconnect_if_needed-IsReady true c w on sound = (on, ground arith)
  reconnect_if_needed-IsReady false c w off sound = reconnect-IsReady c w

  requested-IsSettled :
      (packet : Packet) (ready : Result (Unit {0}) × (Connection × W))
      → IsReady ready
      → let (r, (c', w')) =
          continue ready
            (λ _ s. guarded network host (send_request_no_auth network host packet s)) in
        IsSettled r c' × (is_sound c' ≡ true)
  requested-IsSettled packet (ok a, (c, w)) (on, there) = guarded-IsSettled packet c w on there
  requested-IsSettled packet (err e, (c, w)) closed = ground arith

  -- Whatever the network and aMule do, a request that returns leaves a connection that is logged in and
  -- has a reader, one that fails with `OSError` leaves it disconnected, so that the next one logs in
  -- again, and in no case is there a connection without a reader.
  pub send_request-IsSettled :
      (packet : Packet) (c : Connection) (w : W)
      → is_sound c ≡ true
      → let (r, (c', w')) = send_request network host packet (c, w) in
        IsSettled r c' × (is_sound c' ≡ true)
  unfolding send_request
  send_request-IsSettled packet c w sound =
      requested-IsSettled packet (reconnect_if_needed network host c.connected (c, w))
        (reconnect_if_needed-IsReady c.connected c w refl sound)
