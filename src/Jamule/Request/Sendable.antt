-- ===== src/Jamule/Request/Sendable.antt =====
-- Requests whose contents fit have a form on the wire.
use amarr.Prelude.{
  ℕ, ◌%◌, ◌<◌, ◌^◌, ◌≡◌, refl, not, ◌&&◌, ◌==◌, true, Option, [], arith, length, elem,
}
use amarr.Py.Seq.{Bytes, Text}
use amarr.Py.Utf8.{all_scalar}
use amarr.Py.Decimal.{ends_without}
use amarr.Ec.TagName.{
  tag_names, ec_tag_unknown, ec_tag_client_name, ec_tag_client_version, ec_tag_protocol_version,
  ec_tag_can_zlib, ec_tag_can_utf8_numbers, ec_tag_passwd_hash, ec_tag_detail_level,
  ec_tag_partfile_ed2k_link, ec_tag_select_prefs, ec_tag_partfile, ec_tag_partfile_cat,
  ec_tag_category, ec_tag_category_title, ec_tag_category_path, ec_tag_category_comment,
  ec_tag_category_color, ec_tag_category_prio,
}
use amarr.Ec.OpCode.{
  op_codes, ec_op_auth_req, ec_op_auth_passwd, ec_op_stat_req, ec_op_get_dload_queue,
  ec_op_get_shared_files, ec_op_add_link, ec_op_search_progress, ec_op_search_results,
  ec_op_search_stop, ec_op_get_preferences, ec_op_download_search_result, ec_op_partfile_set_cat,
  ec_op_create_category,
}
use amarr.Py.Struct.{be_bytes}
use amarr.Ec.Encoding.{ushort_to_bytes, uint_to_bytes, ulong_to_bytes}
use amarr.Py.Utf8
use amarr.Ec.Tag.{tag, nil, cons, string, ubyte, ushort, subtags, uint, ulong, hash16, custom}
use amarr.Ec.Tag.Values.{encode_value}
use amarr.Ec.Tag.Wire.{contents_size, content_size, IsEncodable, AreEncodable}
use amarr.Ec.Packet.RoundTrip.{IsSendable}
use amarr.Jamule.Model.{
  AmuleCategory, DownloadCommand, swap_a4af_this, swap_a4af_this_auto, swap_a4af_others, pause,
  resume, stop, delete,
}
use amarr.Jamule.Model
use amarr.Jamule.Request.{
  leaf, detail_full, ec_detail_full, client_name, client_version, ec_current_protocol_version,
  EcPrefs, prefs_value, salt_request, auth_request, stats_request, download_queue_request,
  shared_files_request, add_link_request, search_status_request, search_results_request,
  search_stop_request, get_preferences_request, download_command_request,
  download_search_result_request, set_file_category_request, create_category_request,
}
use amarr.Jamule.Request.Queries.{
  Query, packet_of, create_category, IsPossibleCategory, IsPossible, salt, stats, download_queue,
  shared_files, search_status, search_results, search_stop, auth, add_link, get_preferences,
  download_command, download_search_result, set_file_category, search,
}
use amarr.Jamule.Request.Leaves.{
  known-IsName, leaf-IsEncodable, text-IsEncodable, request-IsSendable,
}
use amarr.Jamule.Request.Filters.{search-IsSendable}

module _ (parse_float : Text → Option Text) where
  hash_tags-AreEncodable :
      (n : ℕ) (hash : Bytes)
      → (elem n tag_names && not (n == ec_tag_unknown)) ≡ true
      → length hash ≡ 16
      → AreEncodable parse_float true (cons (leaf n (hash16 hash)) nil)
  unfolding encode_value
  hash_tags-AreEncodable n hash name e =
      (leaf-IsEncodable parse_float n (hash16 hash) name e (omega arith), tt)

  detail-AreEncodable : AreEncodable parse_float true (cons detail_full nil)
  unfolding elem encode_value
  detail-AreEncodable = (
    leaf-IsEncodable parse_float ec_tag_detail_level (ubyte ec_detail_full) refl (omega arith)
        (omega arith),
    tt,
  )

  command-known : (c : DownloadCommand) → elem (Model.op_code c) op_codes ≡ true
  unfolding elem Model.op_code
  command-known swap_a4af_this = refl
  command-known swap_a4af_this_auto = refl
  command-known swap_a4af_others = refl
  command-known pause = refl
  command-known resume = refl
  command-known stop = refl
  command-known delete = refl

  prefs_value-fits : (p : EcPrefs) → prefs_value p < 2 ^ 32
  unfolding prefs_value
  prefs_value-fits p = ground arith

  salt-IsSendable : IsSendable parse_float salt_request
  unfolding salt_request elem encode_value ushort_to_bytes be_bytes Utf8.encode Utf8.encode_char
      Utf8.char_bytes all_scalar ends_without
  salt-IsSendable =
      let name =
        leaf-IsEncodable parse_float ec_tag_client_name (string client_name) refl (refl, refl)
          (omega arith) in
      let version =
        leaf-IsEncodable parse_float ec_tag_client_version (string client_version) refl (refl, refl)
          (omega arith) in
      let protocol =
        leaf-IsEncodable parse_float ec_tag_protocol_version (ushort ec_current_protocol_version)
          refl (omega arith) (omega arith) in
      let zlib = leaf-IsEncodable parse_float ec_tag_can_zlib (custom []) refl tt (omega arith) in
      let utf8 =
        leaf-IsEncodable parse_float ec_tag_can_utf8_numbers (custom []) refl tt (omega arith) in
      request-IsSendable parse_float ec_op_auth_req salt_request.tags refl
        (name, (version, (protocol, (zlib, (utf8, tt))))) (omega arith)

  get_preferences-IsSendable :
      (prefs : EcPrefs) → IsSendable parse_float (get_preferences_request prefs)
  unfolding get_preferences_request elem encode_value uint_to_bytes be_bytes
  get_preferences-IsSendable prefs =
      let select =
        leaf-IsEncodable parse_float ec_tag_select_prefs (uint (prefs_value prefs)) refl
          (prefs_value-fits prefs) (omega arith) in
      request-IsSendable parse_float ec_op_get_preferences (get_preferences_request prefs).tags refl
        (detail-AreEncodable.0, (select, tt)) (omega arith)

  set_file_category-IsSendable :
      (hash : Bytes) (category : ℕ)
      → length hash ≡ 16
      → category < 2 ^ 64
      → IsSendable parse_float (set_file_category_request hash category)
  unfolding set_file_category_request elem encode_value ulong_to_bytes be_bytes contents_size
      content_size subtags
  set_file_category-IsSendable hash category e small =
      let cat =
        leaf-IsEncodable parse_float ec_tag_partfile_cat (ulong category) refl small
          (omega arith) in
      let whole : IsEncodable parse_float true (
          tag ec_tag_partfile ec_tag_partfile (hash16 hash)
            (cons (leaf ec_tag_partfile_cat (ulong category)) nil)) =
        (refl, known-IsName ec_tag_partfile refl, e, ground arith, refl, omega arith, (cat, tt)) in
      request-IsSendable parse_float ec_op_partfile_set_cat
        (set_file_category_request hash category).tags refl (whole, tt) (omega arith)

  create_category-IsSendable :
      (c : AmuleCategory)
      → IsPossibleCategory c
      → IsSendable parse_float (create_category_request c)
  unfolding create_category_request elem encode_value uint_to_bytes be_bytes contents_size
      content_size subtags
  create_category-IsSendable c (id, priority, name, path, comment, small) =
      let title =
        leaf-IsEncodable parse_float ec_tag_category_title (string c.name) refl name
          (omega arith) in
      let place =
        leaf-IsEncodable parse_float ec_tag_category_path (string c.path) refl path (omega arith) in
      let note =
        leaf-IsEncodable parse_float ec_tag_category_comment (string c.comment) refl comment
          (omega arith) in
      let color =
        leaf-IsEncodable parse_float ec_tag_category_color (ubyte (c.color % 2 ^ 8)) refl
          (omega arith) (omega arith) in
      let prio =
        leaf-IsEncodable parse_float ec_tag_category_prio (uint c.priority) refl priority
          (omega arith) in
      let known = known-IsName ec_tag_category refl in
      request-IsSendable parse_float ec_op_create_category (create_category_request c).tags refl
        (
          (
            refl,
            known,
            id,
            ground arith,
            refl,
            omega arith,
            (title, (place, (note, (color, (prio, tt))))),
          ),
          tt,
        )
        (omega arith)

  -- A request whose contents are possible is sendable.
  pub packet_of-IsSendable : (q : Query) → IsPossible q → IsSendable parse_float (packet_of q)
  unfolding packet_of elem stats_request download_queue_request shared_files_request
      search_status_request search_results_request search_stop_request auth_request add_link_request
      download_command_request download_search_result_request
  packet_of-IsSendable salt p = salt-IsSendable
  packet_of-IsSendable stats p =
      request-IsSendable parse_float ec_op_stat_req stats_request.tags refl detail-AreEncodable
        (omega arith)
  packet_of-IsSendable download_queue p =
      request-IsSendable parse_float ec_op_get_dload_queue stats_request.tags refl
        detail-AreEncodable (omega arith)
  packet_of-IsSendable shared_files p =
      request-IsSendable parse_float ec_op_get_shared_files stats_request.tags refl
        detail-AreEncodable (omega arith)
  packet_of-IsSendable search_status p =
      request-IsSendable parse_float ec_op_search_progress nil refl tt (omega arith)
  packet_of-IsSendable search_results p =
      request-IsSendable parse_float ec_op_search_results nil refl tt (omega arith)
  packet_of-IsSendable search_stop p =
      request-IsSendable parse_float ec_op_search_stop nil refl tt (omega arith)
  packet_of-IsSendable (auth hash) p =
      request-IsSendable parse_float ec_op_auth_passwd (auth_request hash).tags refl
        (hash_tags-AreEncodable ec_tag_passwd_hash hash refl p) (omega arith)
  packet_of-IsSendable (add_link link) p =
      request-IsSendable parse_float ec_op_add_link (add_link_request link).tags refl
        (text-IsEncodable parse_float ec_tag_partfile_ed2k_link link refl p, tt) (omega arith)
  packet_of-IsSendable (get_preferences prefs) p = get_preferences-IsSendable prefs
  packet_of-IsSendable (download_command hash command) p =
      request-IsSendable parse_float (Model.op_code command)
        (download_search_result_request hash).tags (command-known command)
        (hash_tags-AreEncodable ec_tag_partfile hash refl p) (omega arith)
  packet_of-IsSendable (download_search_result hash) p =
      request-IsSendable parse_float ec_op_download_search_result
        (download_search_result_request hash).tags refl
        (hash_tags-AreEncodable ec_tag_partfile hash refl p) (omega arith)
  packet_of-IsSendable (set_file_category hash category) (e, small) =
      set_file_category-IsSendable hash category e small
  packet_of-IsSendable (create_category category) p = create_category-IsSendable category p
  packet_of-IsSendable (search query type filters) (text, possible) =
      search-IsSendable parse_float query type filters text possible
