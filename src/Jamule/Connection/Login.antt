-- ===== src/Jamule/Connection/Login.antt =====
-- A request on a connection that is not logged in, where aMule takes the password.
use amarr.Prelude.{ℕ, ◌≡◌, refl, Bool, true, false, Option, some, []}
use amarr.Py.Result.{ok}
use amarr.Py.Seq.{Bytes, Text}
use amarr.Ec.Packet.{Packet}
use amarr.Ec.Packet.Stream.{Stream}
use amarr.Ec.Packet.Writer.{write}
use amarr.Ec.Packet.Parser.{parse_packet}
use amarr.Ec.Packet.Unread.{parse_packet-unread}
use amarr.Jamule.Password.{hash_password}
use amarr.Jamule.Request.{salt_request, auth_request}
use amarr.Jamule.Response.{Response, auth_ok, auth_salt, parse}
use amarr.Jamule.Connection.{
  Network, Connection, Host, open_socket, send_request_no_auth, authenticate, reconnect,
  send_request, received, refuse_error,
}

abbrev pub fresh : Bool → Connection
fresh connected = record { connected = connected; reader = some [] }

module _ {W : Type 0} (network : Network W) (host : Host) where
  -- aMule answers the request with the response: the bytes that arrive hold one packet.
  pub record Answers (request : Packet) (response : Response) (w w' : W) : Type 0 where
    pub bytes : Bytes
    pub arrived : Stream
    pub packet : Packet
    pub written : write host.compress request ≡ ok bytes
    pub exchanged : network.exchange bytes w ≡ (ok arrived, w')
    pub read : parse_packet host.parse_float host.inflate host.stack arrived ≡ ok (packet, [])
    pub meant : refuse_error (parse packet) ≡ ok response

  send_request_no_auth-Answers :
      (request : Packet) (response : Response) (w w' : W) (connected : Bool)
      → Answers request response w w'
      → send_request_no_auth network host request (fresh connected, w)
        ≡ (ok response, (fresh connected, w'))
  unfolding send_request_no_auth received
  send_request_no_auth-Answers request response w w' connected a =
      rw
        (
          a.written,
          a.exchanged,
          parse_packet-unread host.parse_float host.inflate host.stack a.arrived [] a.packet a.read,
          a.read,
          a.meant,
        )
        refl

  -- On a connection that is not logged in, where the socket opens and aMule answers with a salt, takes
  -- the salted password and answers the request, `send_request` opens a socket, logs in, sends the
  -- request and returns its answer, each once and in this order, and the connection is logged in.
  pub send_request-login :
      (request : Packet) (response : Response) (reader : Option Stream) (salt : ℕ) (hash : Bytes)
      (version : Text) (w₀ w₁ w₂ w₃ w₄ : W)
      → open_socket network (record { connected = false; reader = reader }, w₀)
        ≡ (ok tt, (fresh false, w₁))
      → Answers salt_request (auth_salt salt) w₁ w₂
      → hash_password host.md5 host.password salt ≡ ok hash
      → Answers (auth_request hash) (auth_ok version) w₂ w₃
      → Answers request response w₃ w₄
      → send_request network host request (record { connected = false; reader = reader }, w₀)
        ≡ (ok response, (fresh true, w₄))
  unfolding send_request reconnect authenticate
  send_request-login request response reader salt hash version w₀ w₁ w₂ w₃ w₄ opened a h b c =
      rw
        (
          opened,
          send_request_no_auth-Answers salt_request (auth_salt salt) w₁ w₂ false a,
          h,
          send_request_no_auth-Answers (auth_request hash) (auth_ok version) w₂ w₃ false b,
          send_request_no_auth-Answers request response w₃ w₄ true c,
        )
        refl
