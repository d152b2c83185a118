-- ===== src/Jamule/Client/Delivery.antt =====
-- From a magnet link to a packet on the wire: the torrent service over the client over a connection.
use amarr.Prelude.{◌≤◌, ◌≡◌, refl, true, false, Option, some, [], ◌∷◌, length}
use amarr.Py.Result.{ok}
use amarr.Py.Seq.{Bytes, Text}
use amarr.Py.Stateful.{Stateful}
use amarr.Py.Url.RoundTrip.{all_octets}
use amarr.Category.Store.{CategoryStore}
use amarr.Category.Store
use amarr.Magnet.{MagnetLink, amule_hex_hash, to_ed2k_link, is_amarr, to_text}
use amarr.Magnet.RoundTrip.{is_named, all_named}
use amarr.Ec.Packet.Stream.{Stream}
use amarr.Torrent.Service.{add_torrent}
use amarr.Torrent.Service.Addition.{add_torrent-to_text}
use amarr.Jamule.Password.{hash_password}
use amarr.Jamule.Request.{salt_request, auth_request, add_link_request}
use amarr.Jamule.Response.{auth_salt, auth_ok, noop}
use amarr.Jamule.Connection.{Network, Connection, Host, open_socket, send_request}
use amarr.Jamule.Connection.Login.{fresh, Answers, send_request-login}
use amarr.Jamule.Client.{download_ed2k_link, service_client}

module _ {W : Type 0} (network : Network W) (host : Host)
    (remove : Text → Stateful (Connection × W) (Unit {0})) where
  -- When aMule lets amarr log in and takes the link, `add_torrent` on the text of a magnet link that
  -- amarr wrote, with at least 16 bytes of hash and with a name and trackers that are not empty and have
  -- no surrogates, logs in on a connection that is not, sends the one request that adds the ed2k link of
  -- the magnet link, and stores the category under the hash of the link.
  pub add_torrent-send_request :
      (m : MagnetLink) (t link category : Text) (reader : Option Stream) (s : CategoryStore)
      (hash : Bytes) (salt : _) (version : Text) (w₀ w₁ w₂ w₃ w₄ : W)
      → 16 ≤ length m.hash
      → all_octets m.hash ≡ true
      → is_named m.name ≡ true
      → all_named m.trackers ≡ true
      → is_amarr m ≡ true
      → to_text m ≡ ok t
      → to_ed2k_link m ≡ ok link
      → open_socket network (record { connected = false; reader = reader }, w₀)
        ≡ (ok tt, (fresh false, w₁))
      → Answers network host salt_request (auth_salt salt) w₁ w₂
      → hash_password host.md5 host.password salt ≡ ok hash
      → Answers network host (auth_request hash) (auth_ok version) w₂ w₃
      → Answers network host (add_link_request link) noop w₃ w₄
      → add_torrent
          (service_client (send_request network host) remove)
          (some (t ∷ []))
          (some category)
          ((record { connected = false; reader = reader }, w₀), s)
        ≡ (ok tt, ((fresh true, w₄), Store.store s category (amule_hex_hash m)))
  unfolding service_client download_ed2k_link
  add_torrent-send_request m t link category reader s hash salt version w₀ w₁ w₂ w₃ w₄ sixteen
        octets named trackers amarr written ed2k opened a h b c =
      add_torrent-to_text (service_client (send_request network host) remove) m t link category _ _
        s sixteen octets named trackers amarr written ed2k
        (rw
          (send_request-login network host (add_link_request link) noop reader salt hash version w₀
            w₁ w₂ w₃ w₄ opened a h b c)
          refl)
