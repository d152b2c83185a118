-- ===== src/Jamule/Response/Stats.antt =====
-- `StatsResponse` and `_parse_stats` of jamule/response.py.
use amarr.Prelude.{ℕ, Bool, true, false, Option, none, some, List, [], ◌∷◌, ◌==◌}
use amarr.Py.Result.{Result, ok, ◌>>=◌}
use amarr.Py.Seq.{Text}
use amarr.Ec.TagName.{
  ec_tag_connstate, ec_tag_stats_logger_message, ec_tag_string, ec_tag_stats_kad_firewalled_udp,
  ec_tag_stats_kad_in_lan_mode, ec_tag_stats_buddy_status, ec_tag_stats_kad_ip_adress,
  ec_tag_stats_buddy_ip, ec_tag_stats_buddy_port, ec_tag_stats_up_overhead,
  ec_tag_stats_down_overhead, ec_tag_stats_banned_count, ec_tag_stats_total_sent_bytes,
  ec_tag_stats_total_received_bytes, ec_tag_stats_shared_file_count, ec_tag_stats_ul_speed,
  ec_tag_stats_dl_speed, ec_tag_stats_ul_speed_limit, ec_tag_stats_dl_speed_limit,
  ec_tag_stats_ul_queue_len, ec_tag_stats_total_src_count, ec_tag_stats_ed2k_users,
  ec_tag_stats_kad_users, ec_tag_stats_ed2k_files, ec_tag_stats_kad_files, ec_tag_stats_kad_nodes,
  ec_tag_stats_kad_indexed_sources, ec_tag_stats_kad_indexed_keywords,
  ec_tag_stats_kad_indexed_notes, ec_tag_stats_kad_indexed_load,
}
use amarr.Ec.Tag.{Tag, Tags, nil, cons, subtags, string, tag}
use amarr.Ec.Tag.Find.{byte_value, int_value, short_value}
use amarr.Jamule.Model.SharedFile.{map_option}
use amarr.Jamule.Response.Reading.{first_named, num_or_zero, opt_num}
use amarr.Jamule.Response.Connected.{
  ConnectionState, BuddyState, from_con_state_tag, from_byte, int_to_ipv4, is_set,
}

pub record StatsResponse : Type 0 where
  pub connection_state : Option ConnectionState
  pub upload_overhead : ℕ
  pub download_overhead : ℕ
  pub banned_count : ℕ
  pub logger_message : List Text
  pub total_sent_bytes : ℕ
  pub total_received_bytes : ℕ
  pub shared_file_count : ℕ
  pub upload_speed : ℕ
  pub download_speed : ℕ
  pub upload_speed_limit : ℕ
  pub download_speed_limit : ℕ
  pub upload_queue_length : ℕ
  pub total_source_count : ℕ
  pub ed2k_users : ℕ
  pub kad_users : ℕ
  pub ed2k_files : ℕ
  pub kad_files : ℕ
  pub kad_nodes : ℕ
  pub kad_firewalled_udp : Option Bool
  pub kad_indexed_sources : Option ℕ
  pub kad_indexed_keywords : Option ℕ
  pub kad_indexed_notes : Option ℕ
  pub kad_indexed_load : Option ℕ
  pub kad_ip_address : Option Text
  pub kad_is_running_in_lan_mode : Option Bool
  pub buddy_status : Option BuddyState
  pub buddy_ip : Option Text
  pub buddy_port : Option ℕ

-- `[t.get_value() for t in ... if t.name == EC_TAG_STRING and isinstance(t, StringTag)]`
abbrev text_if_named : Tag → List Text → List Text
text_if_named (tag n nv (string text) subs) texts = elim (n == ec_tag_string) [
  | true ↦ text ∷ texts
  | false ↦ texts
]
text_if_named _ texts = texts

unfoldable pub string_tags : Tags → List Text
string_tags nil = []
string_tags (cons t ts) = text_if_named t (string_tags ts)

unfoldable pub logger_messages : Option Tag → List Text
logger_messages none = []
logger_messages (some t) = string_tags (subtags t)

unfoldable pub connection_state_of : Option Tag → Result (Option ConnectionState)
connection_state_of none = ok none
connection_state_of (some t) = do state ← from_con_state_tag t; ok (some state)

-- `BuddyState.from_byte(...) if buddy is not None else None`
abbrev pub buddy_of : Option ℕ → Option BuddyState
buddy_of none = none
buddy_of (some byte) = from_byte byte

-- `_parse_stats`
unfoldable pub parse_stats : Tags → Result StatsResponse
parse_stats tags = do
  connection ← connection_state_of (first_named tags ec_tag_connstate)
  up_overhead ← num_or_zero tags ec_tag_stats_up_overhead
  down_overhead ← num_or_zero tags ec_tag_stats_down_overhead
  banned ← num_or_zero tags ec_tag_stats_banned_count
  sent ← num_or_zero tags ec_tag_stats_total_sent_bytes
  received ← num_or_zero tags ec_tag_stats_total_received_bytes
  shared ← num_or_zero tags ec_tag_stats_shared_file_count
  up ← num_or_zero tags ec_tag_stats_ul_speed
  down ← num_or_zero tags ec_tag_stats_dl_speed
  up_limit ← num_or_zero tags ec_tag_stats_ul_speed_limit
  down_limit ← num_or_zero tags ec_tag_stats_dl_speed_limit
  queue ← num_or_zero tags ec_tag_stats_ul_queue_len
  sources ← num_or_zero tags ec_tag_stats_total_src_count
  ed2k_users ← num_or_zero tags ec_tag_stats_ed2k_users
  kad_users ← num_or_zero tags ec_tag_stats_kad_users
  ed2k_files ← num_or_zero tags ec_tag_stats_ed2k_files
  kad_files ← num_or_zero tags ec_tag_stats_kad_files
  kad_nodes ← num_or_zero tags ec_tag_stats_kad_nodes
  indexed_sources ← opt_num tags ec_tag_stats_kad_indexed_sources
  indexed_keywords ← opt_num tags ec_tag_stats_kad_indexed_keywords
  indexed_notes ← opt_num tags ec_tag_stats_kad_indexed_notes
  indexed_load ← opt_num tags ec_tag_stats_kad_indexed_load
  ok (record {
    connection_state = connection;
    upload_overhead = up_overhead;
    download_overhead = down_overhead;
    banned_count = banned;
    logger_message = logger_messages (first_named tags ec_tag_stats_logger_message);
    total_sent_bytes = sent;
    total_received_bytes = received;
    shared_file_count = shared;
    upload_speed = up;
    download_speed = down;
    upload_speed_limit = up_limit;
    download_speed_limit = down_limit;
    upload_queue_length = queue;
    total_source_count = sources;
    ed2k_users = ed2k_users;
    kad_users = kad_users;
    ed2k_files = ed2k_files;
    kad_files = kad_files;
    kad_nodes = kad_nodes;
    kad_firewalled_udp = map_option is_set (byte_value tags ec_tag_stats_kad_firewalled_udp);
    kad_indexed_sources = indexed_sources;
    kad_indexed_keywords = indexed_keywords;
    kad_indexed_notes = indexed_notes;
    kad_indexed_load = indexed_load;
    kad_ip_address = map_option int_to_ipv4 (int_value tags ec_tag_stats_kad_ip_adress);
    kad_is_running_in_lan_mode = map_option is_set (byte_value tags ec_tag_stats_kad_in_lan_mode);
    buddy_status = buddy_of (byte_value tags ec_tag_stats_buddy_status);
    buddy_ip = map_option int_to_ipv4 (int_value tags ec_tag_stats_buddy_ip);
    buddy_port = short_value tags ec_tag_stats_buddy_port;
  })
