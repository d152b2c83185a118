-- ===== src/Jamule/Connection/OutOfStep.antt =====
-- A reply that cannot be understood, and the request after it.
use amarr.Prelude.{◌≡◌, refl, true, false, some, ◌++◌, Bool-cases, inl, inr}
use amarr.Py.Result.{is_os_error, Exc, Result, ok, err}
use amarr.Py.Seq.{Bytes}
use amarr.Ec.Packet.{Packet}
use amarr.Ec.Packet.Stream.{Stream}
use amarr.Ec.Packet.Writer.{write}
use amarr.Ec.Packet.Unread.{unread}
use amarr.Jamule.Response.{Response}
use amarr.Jamule.Connection.{
  Network, Connection, Host, send_request_no_auth, send_request, received, guarded, lost,
}

guarded-result :
    {W : Type 0} (network : Network W) (host : Host) (r : Result Response) (s : Connection × W)
    → (guarded network host (r, s)).0 ≡ r
guarded-result network host r s = elim (Bool-cases (lost network host r)) [
  | inl os_failure ↦ rw (os_failure) refl
  | inr other ↦ rw (other) refl
]

module _ {W : Type 0} (network : Network W) (host : Host) where
  -- A reply that raises anything but `OSError` leaves the connection as logged in, at the place where
  -- the parser stopped: the next request is answered from what was left of that reply before its own.
  pub send_request-out_of_step :
      (request next : Packet) (s arrived arrived' : Stream) (bytes bytes' : Bytes) (e : Exc)
      (w w₁ w₂ : W)
      → write host.compress request ≡ ok bytes
      → network.exchange bytes w ≡ (ok arrived, w₁)
      → received host (s ++ arrived) ≡ err e
      → is_os_error e ≡ false
      → write host.compress next ≡ ok bytes'
      → network.exchange bytes' w₁ ≡ (ok arrived', w₂)
      → let (r, after) =
          send_request network host request (record { connected = true; reader = some s }, w) in
        (r ≡ err e)
        × ((send_request network host next after).0
            ≡ received host (unread (s ++ arrived) ++ arrived'))
  unfolding send_request send_request_no_auth
  send_request-out_of_step request next s arrived arrived' bytes bytes' e w w₁ w₂ a b c d a' b' = (
    rw (a, b, c, d) refl,
    rw (a, b, c, d, a', b')
        (guarded-result network host (received host (unread (s ++ arrived) ++ arrived')) _),
  )
