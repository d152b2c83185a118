-- ===== src/Jamule/Request/Received.antt =====
-- What aMule's side of the protocol reads when a request is sent.
use amarr.Prelude.{ℕ, ◌≤◌, ◌≡◌, refl, sym, subst, true, Option, none, some, ◌++◌, arith, length}
use amarr.Py.Result.{ok}
use amarr.Py.Seq.{Bytes, Text}
use amarr.Ec.TagName.{
  ec_tag_search_file_type, ec_tag_search_extension, ec_tag_search_min_size, ec_tag_search_max_size,
  ec_tag_search_availability,
}
use amarr.Ec.Tag.{Tags, nil}
use amarr.Ec.Tag.Wire.{depths, depth, or_empty}
use amarr.Ec.Packet.{Packet}
use amarr.Ec.Packet.Stream.{Stream, is_open, contents}
use amarr.Ec.Packet.Writer.{write}
use amarr.Ec.Packet.Parser.{Inflated, parse_packet, max_decompressed_size}
use amarr.Ec.Packet.RoundTrip.{IsSendable, InflatesBack, payload_bytes, parse_packet-write}
use amarr.Jamule.Request.{
  request, salt_request, auth_request, stats_request, download_queue_request, shared_files_request,
  add_link_request, search_status_request, search_results_request, search_stop_request,
  get_preferences_request, download_command_request, download_search_result_request,
  set_file_category_request, search_request, create_category_request, SearchFilters, text_filter,
  number_filter, filter_tags, filters_or_default,
}
use amarr.Jamule.Request.Queries.{Query, salt, packet_of, IsPossible}
use amarr.Jamule.Request.Sendable.{packet_of-IsSendable}

-- A packet with the default flags whose tags have subtags, but no deeper ones.
abbrev IsShallow : Packet → Type 0
IsShallow p = (op_code : ℕ) × (tags : Tags) × (p ≡ request op_code tags) × (depths tags ≤ 2)

depths-text_filter :
    (n : ℕ) (t : Option Text) (tags : Tags) → depths tags ≤ 1 → depths (text_filter n t tags) ≤ 1
unfolding depths depth
depths-text_filter n none tags flat = flat
depths-text_filter n (some t) tags flat = omega arith

depths-number_filter :
    (n : ℕ) (v : Option ℕ) (tags : Tags) → depths tags ≤ 1 → depths (number_filter n v tags) ≤ 1
unfolding depths depth
depths-number_filter n none tags flat = flat
depths-number_filter n (some v) tags flat = omega arith

depths-filter_tags : (f : SearchFilters) → depths (filter_tags f) ≤ 1
unfolding depths
depths-filter_tags f = depths-text_filter ec_tag_search_file_type f.filetype _ (
    depths-text_filter ec_tag_search_extension f.extension _ (
      depths-number_filter ec_tag_search_min_size f.min_size _ (
        depths-number_filter ec_tag_search_max_size f.max_size _
          (depths-number_filter ec_tag_search_availability f.availability nil (omega arith)))))

packet_of-IsShallow : (q : Query) → IsShallow (packet_of q)
unfolding packet_of depths depth salt_request auth_request stats_request download_queue_request
    shared_files_request add_link_request search_status_request search_results_request
    search_stop_request get_preferences_request download_command_request
    download_search_result_request set_file_category_request search_request create_category_request
packet_of-IsShallow (Query.auth h) = (_, _, refl, omega arith)
packet_of-IsShallow (Query.add_link l) = (_, _, refl, omega arith)
packet_of-IsShallow (Query.get_preferences l) = (_, _, refl, omega arith)
packet_of-IsShallow (Query.download_command h c) = (_, _, refl, omega arith)
packet_of-IsShallow (Query.download_search_result h) = (_, _, refl, omega arith)
packet_of-IsShallow (Query.set_file_category h c) = (_, _, refl, omega arith)
packet_of-IsShallow (Query.create_category c) = (_, _, refl, omega arith)
packet_of-IsShallow (Query.search t k f) =
    (_, _, refl, omega (arith, depths-filter_tags (filters_or_default f)))
packet_of-IsShallow salt = (_, _, refl, omega arith)
packet_of-IsShallow Query.stats = (_, _, refl, omega arith)
packet_of-IsShallow Query.download_queue = (_, _, refl, omega arith)
packet_of-IsShallow Query.shared_files = (_, _, refl, omega arith)
packet_of-IsShallow Query.search_status = (_, _, refl, omega arith)
packet_of-IsShallow Query.search_results = (_, _, refl, omega arith)
packet_of-IsShallow Query.search_stop = (_, _, refl, omega arith)

module _ (parse_float : Text → Option Text) (compress : Bytes → Bytes)
    (inflate : Bytes → ℕ → Option Inflated) where
  -- `p` is written, and read back from a stream that starts with it.
  abbrev pub Received : Packet → Bytes → Stream → ℕ → Type 0
  Received p after s stack =
      (bs : Bytes) × (rest : Stream) × (write compress p ≡ ok bs)
      × (parse_packet parse_float inflate stack s ≡ ok (p, rest))
      × (contents rest ≡ after)

  request-Received :
      (p : Packet) (after : Bytes) (s : Stream) (stack : ℕ)
      → InflatesBack compress inflate
      → IsShallow p
      → IsSendable parse_float p
      → length (payload_bytes p) ≤ max_decompressed_size
      → 2 ≤ stack
      → is_open s ≡ true
      → contents s ≡ or_empty (write compress p) ++ after
      → Received p after s stack
  request-Received p after s stack z (op_code, tags, e, shallow) =
      subst
        (λ r.
          IsSendable parse_float r
          → length (payload_bytes r) ≤ max_decompressed_size
          → 2 ≤ stack
          → is_open s ≡ true
          → contents s ≡ or_empty (write compress r) ++ after
          → Received r after s stack)
        (sym e)
        (λ sendable small room o c.
          parse_packet-write parse_float compress inflate (request op_code tags) after s stack z
            sendable tt refl small (λ h. absurd (omega arith)) (omega arith) (omega arith) o c)

  -- Take any request of the module, with or without filters, whose hashes have 16 bytes, whose texts
  -- have no surrogate, do not end in NUL and leave the length of each tag below 55296, whose numbers fit in
  -- their tags (2 ^ 64 for a category that is set and for the filters, 2 ^ 32 for the number and the
  -- priority of a new category), and whose payload has at most 50 MiB. It is written, and read back as
  -- the packet that was built, from an open stream that starts with it, however the stream is cut and
  -- whatever follows, when inflate restores what compress made and the stack has room for two calls.
  pub packet_of-Received :
      (q : Query) (after : Bytes) (s : Stream) (stack : ℕ)
      → InflatesBack compress inflate
      → IsPossible q
      → length (payload_bytes (packet_of q)) ≤ max_decompressed_size
      → 2 ≤ stack
      → is_open s ≡ true
      → contents s ≡ or_empty (write compress (packet_of q)) ++ after
      → Received (packet_of q) after s stack
  packet_of-Received q after s stack z possible =
      request-Received (packet_of q) after s stack z (packet_of-IsShallow q)
        (packet_of-IsSendable parse_float q possible)
