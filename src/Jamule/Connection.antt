-- ===== src/Jamule/Connection.antt =====
-- `AmuleConnection` of jamule/connection.py. The sockets are a parameter, and one call runs at a time.
pub mod Sound
pub mod Login
pub mod OutOfStep
use amarr.Prelude.{ℕ, Bool, true, false, Option, none, some, [], ◌++◌}
use amarr.Py.Result.{
  Exc, Result, ok, err, assertion_error, server_error, communication, is_os_error, ignore_os_error,
}
use amarr.Py.Seq.{Bytes, Text}
use amarr.Py.Stateful.{Stateful, lift, ◌>>=◌, ◌>>◌}
use amarr.Ec.Packet.{Packet}
use amarr.Ec.Packet.Stream.{Stream}
use amarr.Ec.Packet.Writer.{write}
use amarr.Ec.Packet.Parser.{Inflated, parse_packet}
use amarr.Ec.Packet.Unread.{unread}
use amarr.Jamule.Password.{hash_password}
use amarr.Jamule.Request.{salt_request, auth_request}
use amarr.Jamule.Response.{Response, auth_failed, auth_ok, auth_salt, error_response, parse}

-- What the code calls: `socket_builder`, `close`, and `sendall` together with what the reader then
-- delivers up to the next request. A failure of the socket while it is read is a failure of the call.
pub record Network (W : Type 0) : Type 0 where
  pub build : W → Result (Unit {0}) × W
  pub close : W → Result (Unit {0}) × W
  pub exchange : Bytes → W → Result Stream × W

-- `_connected`, and the reader: there is one as soon as there is a socket.
pub record Connection : Type 0 where
  pub connected : Bool
  pub reader : Option Stream

abbrev pub disconnected : Connection
disconnected = record { connected = false; reader = none }

-- The parameters of the host and of the constructor.
pub record Host : Type 0 where
  pub parse_float : Text → Option Text
  pub compress : Bytes → Bytes
  pub inflate : Bytes → ℕ → Option Inflated
  pub md5 : Bytes → Bytes
  pub stack : ℕ
  pub password : Text

abbrev pub Call : Type 0 → Type 0 → Type 0
Call W A = Stateful (Connection × W) A

-- An operation of the network
abbrev pub on_network : {W A : Type 0} → (W → Result A × W) → Call W A
on_network f (c, w) = let (r, w') = f w in (r, (c, w'))

abbrev pub set_connected : {W : Type 0} → Bool → Call W (Unit {0})
set_connected value (c, w) = (ok tt, (record c { connected = value }, w))

abbrev pub set_reader : {W : Type 0} → Stream → Call W (Unit {0})
set_reader s (c, w) = (ok tt, (record c { reader = some s }, w))

-- `assert self._socket is not None and self._reader is not None`
abbrev pub assert_reader : Option Stream → Result Stream
assert_reader none = err assertion_error
assert_reader (some s) = ok s

-- `if isinstance(response, ErrorResponse): raise ServerException(...)`
abbrev pub refuse_error : Result Response → Result Response
refuse_error (err e) = err e
refuse_error (ok (error_response message)) = err server_error
refuse_error (ok response) = ok response

abbrev pub response_in : Result (Packet × Stream) → Result Response
response_in (err e) = err e
response_in (ok (packet, rest)) = refuse_error (parse packet)

-- What the reader's bytes give: a packet and the response in it.
unfoldable pub received : Host → Stream → Result Response
received host s = response_in (parse_packet host.parse_float host.inflate host.stack s)

-- The two answers that `_authenticate` looks at
abbrev pub salt_of : Response → Result ℕ
salt_of (auth_failed reason) = err server_error
salt_of (auth_salt salt) = ok salt
salt_of _ = err communication

abbrev pub check_login : Response → Result (Unit {0})
check_login (auth_failed reason) = err server_error
check_login (auth_ok version) = ok tt
check_login _ = err communication

module _ {W : Type 0} (network : Network W) where
  abbrev pub close_old : Option Stream → Call W (Unit {0})
  close_old none (c, w) = (ok tt, (c, w))
  close_old (some s) (c, w) = let (r, w') = network.close w in (ignore_os_error r, (c, w'))

  -- `reconnect`, up to the login
  unfoldable pub open_socket : Call W (Unit {0})
  open_socket (c, w) =
      ((set_connected false >> close_old c.reader) >> (on_network network.build >> set_reader []))
        (c, w)

module _ {W : Type 0} (network : Network W) (host : Host) where
  -- `_send_request_no_auth`
  unfoldable pub send_request_no_auth : Packet → Call W Response
  send_request_no_auth packet (c, w) =
      (do
        s ← lift (assert_reader c.reader)
        bytes ← lift (write host.compress packet)
        arrived ← on_network (network.exchange bytes)
        set_reader (unread (s ++ arrived))
        lift (received host (s ++ arrived)))
        (c, w)

  -- `_authenticate`
  unfoldable pub authenticate : Call W (Unit {0})
  authenticate = do
    salt_response ← send_request_no_auth salt_request
    salt ← lift (salt_of salt_response)
    salted_password ← lift (hash_password host.md5 host.password salt)
    response ← send_request_no_auth (auth_request salted_password)
    lift (check_login response)
    set_connected true

  -- `reconnect`
  unfoldable pub reconnect : Call W (Unit {0})
  reconnect = open_socket network >> authenticate

  abbrev pub reconnect_if_needed : Bool → Call W (Unit {0})
  reconnect_if_needed true = lift (ok tt)
  reconnect_if_needed false = reconnect

  -- `except OSError: self._connected = False; raise`
  abbrev pub disconnect_on : Result Response → Bool → Call W Response
  disconnect_on r true (c, w) = (r, (record c { connected = false }, w))
  disconnect_on r false s = (r, s)

  abbrev pub lost : Result Response → Bool
  lost (ok response) = false
  lost (err e) = is_os_error e

  abbrev pub guarded : Result Response × (Connection × W) → Result Response × (Connection × W)
  guarded (r, s) = disconnect_on r (lost r) s

  -- `send_request`
  unfoldable pub send_request : Packet → Call W Response
  send_request packet (c, w) =
      (reconnect_if_needed c.connected >> λ s. guarded (send_request_no_auth packet s)) (c, w)
