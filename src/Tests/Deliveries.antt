-- ===== src/Tests/Deliveries.antt =====
-- A magnet link that is added through the client.
use amarr.Ec.Packet.Writer.{write}
use amarr.Py.Struct.{be_bytes}
use amarr.Prelude.{◌≡◌, refl, true, none, some, [], ◌∷◌, arith}
use amarr.Py.Result.{ok}
use amarr.Py.Equality.{eq_text}
use amarr.Py.Utf8.{all_scalar}
use amarr.Py.Url.RoundTrip.{all_octets}
use amarr.Category.Store.{store, empty_store}
use amarr.Magnet.{is_amarr, is_member, for_amarr, amule_hex_hash}
use amarr.Magnet.RoundTrip.{all_named}
use amarr.Torrent.Service.{add_torrent}
use amarr.Jamule.Request.{add_link_request}
use amarr.Jamule.Response.{noop}
use amarr.Jamule.Connection.{send_request, disconnected}
use amarr.Jamule.Connection.Login.{fresh, Answers}
use amarr.Jamule.Client.{service_client}
use amarr.Jamule.Client.Delivery.{add_torrent-send_request}
use amarr.Tests.Links.{link, link_text, link_ed2k, link-written}
use amarr.Tests.Replies.{
  noop_reply, amule, host, hash, hash-hash_password, replies-read, replies-meant,
}
use amarr.Tests.Sessions.{amule-opens, salt-Answers, login-Answers}

link-Answers : Answers amule host (add_link_request link_ed2k) noop 3 4
unfolding add_link_request amarr.Magnet.to_ed2k_link for_amarr amarr.Py.Url.quote
    amarr.Py.Url.quote_bytes amarr.Py.Decimal.int_text amarr.Py.Decimal.decimal amule_hex_hash
    amarr.Jamule.Hex.hex write amarr.Ec.Packet.Writer.write_transport
    amarr.Ec.Packet.Writer.accepts_bytes amarr.Ec.Packet.Writer.encode_payload
    amarr.Ec.Encoding.ushort_to_bytes_utf amarr.Ec.Encoding.number_to_utf8 amarr.Py.Utf8.encode_char
    amarr.Ec.Tag.Codec.encode_subtags amarr.Ec.Tag.Codec.compute_tag_length
    amarr.Ec.Tag.Values.encode_value amarr.Py.Utf8.encode amarr.Ec.Encoding.uint_to_bytes_utf
    amarr.Py.Utf8.char_bytes amarr.Ec.Encoding.ushort_to_bytes be_bytes
link-Answers = record {
  bytes = _;
  arrived = _;
  packet = noop_reply;
  written = refl;
  exchanged = refl;
  read = replies-read.2;
  meant = replies-meant.2;
}

add_torrent-send_request_example :
    add_torrent
      (service_client (send_request amule host) (λ path s. (ok tt, s)))
      (some (link_text ∷ []))
      (some (116 ∷ 118 ∷ []))
      ((disconnected, 0), empty_store)
    ≡ (ok tt, ((fresh true, 4), store empty_store (116 ∷ 118 ∷ []) (amule_hex_hash link)))
add_torrent-send_request_example =
    add_torrent-send_request amule host (λ path s. (ok tt, s)) link link_text link_ed2k
      (116 ∷ 118 ∷ []) none empty_store hash 0x55099a4aea510c43 (50 ∷ 46 ∷ 51 ∷ []) 0 1 2 3 4
      (unfold for_amarr in omega arith) (unfold all_octets for_amarr in refl)
      (unfold all_scalar for_amarr in refl) (unfold all_named all_scalar for_amarr in refl)
      (unfold is_amarr is_member eq_text for_amarr in refl) link-written.0 link-written.1
      amule-opens salt-Answers hash-hash_password login-Answers link-Answers
