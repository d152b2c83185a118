-- ===== src/Ec/TagName.antt =====
-- `ECTagName` of jamule/ec/codes.py. A member of the enumeration is its value: no two agree.
use amarr.Prelude.{ℕ, List, [], ◌∷◌, elem, if◌then◌else◌}

abbrev pub ec_tag_string : ℕ
ec_tag_string = 0x0000

abbrev pub ec_tag_passwd_hash : ℕ
ec_tag_passwd_hash = 0x0001

abbrev pub ec_tag_protocol_version : ℕ
ec_tag_protocol_version = 0x0002

abbrev ec_tag_version_id : ℕ
ec_tag_version_id = 0x0003

abbrev pub ec_tag_detail_level : ℕ
ec_tag_detail_level = 0x0004

abbrev pub ec_tag_connstate : ℕ
ec_tag_connstate = 0x0005

abbrev pub ec_tag_ed2k_id : ℕ
ec_tag_ed2k_id = 0x0006

abbrev ec_tag_log_to_status : ℕ
ec_tag_log_to_status = 0x0007

abbrev ec_tag_bootstrap_ip : ℕ
ec_tag_bootstrap_ip = 0x0008

abbrev ec_tag_bootstrap_port : ℕ
ec_tag_bootstrap_port = 0x0009

abbrev pub ec_tag_client_id : ℕ
ec_tag_client_id = 0x000A

abbrev pub ec_tag_passwd_salt : ℕ
ec_tag_passwd_salt = 0x000B

abbrev pub ec_tag_can_zlib : ℕ
ec_tag_can_zlib = 0x000C

abbrev pub ec_tag_can_utf8_numbers : ℕ
ec_tag_can_utf8_numbers = 0x000D

abbrev ec_tag_can_notify : ℕ
ec_tag_can_notify = 0x000E

abbrev ec_tag_ecid : ℕ
ec_tag_ecid = 0x000F

abbrev pub ec_tag_kad_id : ℕ
ec_tag_kad_id = 0x0010

abbrev pub ec_tag_client_name : ℕ
ec_tag_client_name = 0x0100

abbrev pub ec_tag_client_version : ℕ
ec_tag_client_version = 0x0101

abbrev ec_tag_client_mod : ℕ
ec_tag_client_mod = 0x0102

abbrev pub ec_tag_stats_ul_speed : ℕ
ec_tag_stats_ul_speed = 0x0200

abbrev pub ec_tag_stats_dl_speed : ℕ
ec_tag_stats_dl_speed = 0x0201

abbrev pub ec_tag_stats_ul_speed_limit : ℕ
ec_tag_stats_ul_speed_limit = 0x0202

abbrev pub ec_tag_stats_dl_speed_limit : ℕ
ec_tag_stats_dl_speed_limit = 0x0203

abbrev pub ec_tag_stats_up_overhead : ℕ
ec_tag_stats_up_overhead = 0x0204

abbrev pub ec_tag_stats_down_overhead : ℕ
ec_tag_stats_down_overhead = 0x0205

abbrev pub ec_tag_stats_total_src_count : ℕ
ec_tag_stats_total_src_count = 0x0206

abbrev pub ec_tag_stats_banned_count : ℕ
ec_tag_stats_banned_count = 0x0207

abbrev pub ec_tag_stats_ul_queue_len : ℕ
ec_tag_stats_ul_queue_len = 0x0208

abbrev pub ec_tag_stats_ed2k_users : ℕ
ec_tag_stats_ed2k_users = 0x0209

abbrev pub ec_tag_stats_kad_users : ℕ
ec_tag_stats_kad_users = 0x020A

abbrev pub ec_tag_stats_ed2k_files : ℕ
ec_tag_stats_ed2k_files = 0x020B

abbrev pub ec_tag_stats_kad_files : ℕ
ec_tag_stats_kad_files = 0x020C

abbrev pub ec_tag_stats_logger_message : ℕ
ec_tag_stats_logger_message = 0x020D

abbrev pub ec_tag_stats_kad_firewalled_udp : ℕ
ec_tag_stats_kad_firewalled_udp = 0x020E

abbrev pub ec_tag_stats_kad_indexed_sources : ℕ
ec_tag_stats_kad_indexed_sources = 0x020F

abbrev pub ec_tag_stats_kad_indexed_keywords : ℕ
ec_tag_stats_kad_indexed_keywords = 0x0210

abbrev pub ec_tag_stats_kad_indexed_notes : ℕ
ec_tag_stats_kad_indexed_notes = 0x0211

abbrev pub ec_tag_stats_kad_indexed_load : ℕ
ec_tag_stats_kad_indexed_load = 0x0212

abbrev pub ec_tag_stats_kad_ip_adress : ℕ
ec_tag_stats_kad_ip_adress = 0x0213

abbrev pub ec_tag_stats_buddy_status : ℕ
ec_tag_stats_buddy_status = 0x0214

abbrev pub ec_tag_stats_buddy_ip : ℕ
ec_tag_stats_buddy_ip = 0x0215

abbrev pub ec_tag_stats_buddy_port : ℕ
ec_tag_stats_buddy_port = 0x0216

abbrev pub ec_tag_stats_kad_in_lan_mode : ℕ
ec_tag_stats_kad_in_lan_mode = 0x0217

abbrev pub ec_tag_stats_total_sent_bytes : ℕ
ec_tag_stats_total_sent_bytes = 0x0218

abbrev pub ec_tag_stats_total_received_bytes : ℕ
ec_tag_stats_total_received_bytes = 0x0219

abbrev pub ec_tag_stats_shared_file_count : ℕ
ec_tag_stats_shared_file_count = 0x021A

abbrev pub ec_tag_stats_kad_nodes : ℕ
ec_tag_stats_kad_nodes = 0x021B

abbrev pub ec_tag_partfile : ℕ
ec_tag_partfile = 0x0300

abbrev pub ec_tag_partfile_name : ℕ
ec_tag_partfile_name = 0x0301

abbrev pub ec_tag_partfile_partmetid : ℕ
ec_tag_partfile_partmetid = 0x0302

abbrev pub ec_tag_partfile_size_full : ℕ
ec_tag_partfile_size_full = 0x0303

abbrev pub ec_tag_partfile_size_xfer : ℕ
ec_tag_partfile_size_xfer = 0x0304

abbrev ec_tag_partfile_size_xfer_up : ℕ
ec_tag_partfile_size_xfer_up = 0x0305

abbrev pub ec_tag_partfile_size_done : ℕ
ec_tag_partfile_size_done = 0x0306

abbrev pub ec_tag_partfile_speed : ℕ
ec_tag_partfile_speed = 0x0307

abbrev pub ec_tag_partfile_status : ℕ
ec_tag_partfile_status = 0x0308

abbrev pub ec_tag_partfile_prio : ℕ
ec_tag_partfile_prio = 0x0309

abbrev pub ec_tag_partfile_source_count : ℕ
ec_tag_partfile_source_count = 0x030A

abbrev pub ec_tag_partfile_source_count_a4af : ℕ
ec_tag_partfile_source_count_a4af = 0x030B

abbrev pub ec_tag_partfile_source_count_not_current : ℕ
ec_tag_partfile_source_count_not_current = 0x030C

abbrev pub ec_tag_partfile_source_count_xfer : ℕ
ec_tag_partfile_source_count_xfer = 0x030D

abbrev pub ec_tag_partfile_ed2k_link : ℕ
ec_tag_partfile_ed2k_link = 0x030E

abbrev pub ec_tag_partfile_cat : ℕ
ec_tag_partfile_cat = 0x030F

abbrev pub ec_tag_partfile_last_recv : ℕ
ec_tag_partfile_last_recv = 0x0310

abbrev pub ec_tag_partfile_last_seen_comp : ℕ
ec_tag_partfile_last_seen_comp = 0x0311

abbrev ec_tag_partfile_part_status : ℕ
ec_tag_partfile_part_status = 0x0312

abbrev ec_tag_partfile_gap_status : ℕ
ec_tag_partfile_gap_status = 0x0313

abbrev ec_tag_partfile_req_status : ℕ
ec_tag_partfile_req_status = 0x0314

abbrev ec_tag_partfile_source_names : ℕ
ec_tag_partfile_source_names = 0x0315

abbrev ec_tag_partfile_comments : ℕ
ec_tag_partfile_comments = 0x0316

abbrev pub ec_tag_partfile_stopped : ℕ
ec_tag_partfile_stopped = 0x0317

abbrev pub ec_tag_partfile_download_active : ℕ
ec_tag_partfile_download_active = 0x0318

abbrev pub ec_tag_partfile_lost_corruption : ℕ
ec_tag_partfile_lost_corruption = 0x0319

abbrev pub ec_tag_partfile_gained_compression : ℕ
ec_tag_partfile_gained_compression = 0x031A

abbrev pub ec_tag_partfile_saved_ich : ℕ
ec_tag_partfile_saved_ich = 0x031B

abbrev ec_tag_partfile_source_names_counts : ℕ
ec_tag_partfile_source_names_counts = 0x031C

abbrev pub ec_tag_partfile_available_parts : ℕ
ec_tag_partfile_available_parts = 0x031D

abbrev pub ec_tag_partfile_hash : ℕ
ec_tag_partfile_hash = 0x031E

abbrev ec_tag_partfile_shared : ℕ
ec_tag_partfile_shared = 0x031F

abbrev pub ec_tag_partfile_hashed_part_count : ℕ
ec_tag_partfile_hashed_part_count = 0x0320

abbrev pub ec_tag_partfile_a4afauto : ℕ
ec_tag_partfile_a4afauto = 0x0321

abbrev ec_tag_partfile_a4af_sources : ℕ
ec_tag_partfile_a4af_sources = 0x0322

abbrev pub ec_tag_knownfile : ℕ
ec_tag_knownfile = 0x0400

abbrev pub ec_tag_knownfile_xferred : ℕ
ec_tag_knownfile_xferred = 0x0401

abbrev pub ec_tag_knownfile_xferred_all : ℕ
ec_tag_knownfile_xferred_all = 0x0402

abbrev pub ec_tag_knownfile_req_count : ℕ
ec_tag_knownfile_req_count = 0x0403

abbrev pub ec_tag_knownfile_req_count_all : ℕ
ec_tag_knownfile_req_count_all = 0x0404

abbrev pub ec_tag_knownfile_accept_count : ℕ
ec_tag_knownfile_accept_count = 0x0405

abbrev pub ec_tag_knownfile_accept_count_all : ℕ
ec_tag_knownfile_accept_count_all = 0x0406

abbrev ec_tag_knownfile_aich_masterhash : ℕ
ec_tag_knownfile_aich_masterhash = 0x0407

abbrev pub ec_tag_knownfile_filename : ℕ
ec_tag_knownfile_filename = 0x0408

abbrev pub ec_tag_knownfile_complete_sources_low : ℕ
ec_tag_knownfile_complete_sources_low = 0x0409

abbrev pub ec_tag_knownfile_complete_sources_high : ℕ
ec_tag_knownfile_complete_sources_high = 0x040A

abbrev pub ec_tag_knownfile_prio : ℕ
ec_tag_knownfile_prio = 0x040B

abbrev pub ec_tag_knownfile_on_queue : ℕ
ec_tag_knownfile_on_queue = 0x040C

abbrev pub ec_tag_knownfile_complete_sources : ℕ
ec_tag_knownfile_complete_sources = 0x040D

abbrev pub ec_tag_knownfile_comment : ℕ
ec_tag_knownfile_comment = 0x040E

abbrev pub ec_tag_knownfile_rating : ℕ
ec_tag_knownfile_rating = 0x040F

abbrev pub ec_tag_server : ℕ
ec_tag_server = 0x0500

abbrev ec_tag_server_name : ℕ
ec_tag_server_name = 0x0501

abbrev pub ec_tag_server_desc : ℕ
ec_tag_server_desc = 0x0502

abbrev ec_tag_server_address : ℕ
ec_tag_server_address = 0x0503

abbrev pub ec_tag_server_ping : ℕ
ec_tag_server_ping = 0x0504

abbrev pub ec_tag_server_users : ℕ
ec_tag_server_users = 0x0505

abbrev pub ec_tag_server_users_max : ℕ
ec_tag_server_users_max = 0x0506

abbrev pub ec_tag_server_files : ℕ
ec_tag_server_files = 0x0507

abbrev pub ec_tag_server_prio : ℕ
ec_tag_server_prio = 0x0508

abbrev pub ec_tag_server_failed : ℕ
ec_tag_server_failed = 0x0509

abbrev pub ec_tag_server_static : ℕ
ec_tag_server_static = 0x050A

abbrev pub ec_tag_server_version : ℕ
ec_tag_server_version = 0x050B

abbrev ec_tag_server_ip : ℕ
ec_tag_server_ip = 0x050C

abbrev ec_tag_server_port : ℕ
ec_tag_server_port = 0x050D

abbrev ec_tag_client : ℕ
ec_tag_client = 0x0600

abbrev pub ec_tag_searchfile : ℕ
ec_tag_searchfile = 0x0700

abbrev pub ec_tag_search_type : ℕ
ec_tag_search_type = 0x0701

abbrev pub ec_tag_search_name : ℕ
ec_tag_search_name = 0x0702

abbrev pub ec_tag_search_min_size : ℕ
ec_tag_search_min_size = 0x0703

abbrev pub ec_tag_search_max_size : ℕ
ec_tag_search_max_size = 0x0704

abbrev pub ec_tag_search_file_type : ℕ
ec_tag_search_file_type = 0x0705

abbrev pub ec_tag_search_extension : ℕ
ec_tag_search_extension = 0x0706

abbrev pub ec_tag_search_availability : ℕ
ec_tag_search_availability = 0x0707

abbrev pub ec_tag_search_status : ℕ
ec_tag_search_status = 0x0708

abbrev ec_tag_search_parent : ℕ
ec_tag_search_parent = 0x0709

abbrev pub ec_tag_select_prefs : ℕ
ec_tag_select_prefs = 0x1000

abbrev pub ec_tag_prefs_categories : ℕ
ec_tag_prefs_categories = 0x1100

abbrev pub ec_tag_category : ℕ
ec_tag_category = 0x1101

abbrev pub ec_tag_category_title : ℕ
ec_tag_category_title = 0x1102

abbrev pub ec_tag_category_path : ℕ
ec_tag_category_path = 0x1103

abbrev pub ec_tag_category_comment : ℕ
ec_tag_category_comment = 0x1104

abbrev pub ec_tag_category_color : ℕ
ec_tag_category_color = 0x1105

abbrev pub ec_tag_category_prio : ℕ
ec_tag_category_prio = 0x1106

abbrev pub ec_tag_unknown : ℕ
ec_tag_unknown = 0xFFFF

-- Every member, in the order of the class.
abbrev pub tag_names : List ℕ
tag_names =
    ec_tag_string ∷ ec_tag_passwd_hash ∷ ec_tag_protocol_version ∷ ec_tag_version_id
    ∷ ec_tag_detail_level ∷ ec_tag_connstate ∷ ec_tag_ed2k_id ∷ ec_tag_log_to_status
    ∷ ec_tag_bootstrap_ip ∷ ec_tag_bootstrap_port ∷ ec_tag_client_id ∷ ec_tag_passwd_salt
    ∷ ec_tag_can_zlib ∷ ec_tag_can_utf8_numbers ∷ ec_tag_can_notify ∷ ec_tag_ecid ∷ ec_tag_kad_id
    ∷ ec_tag_client_name ∷ ec_tag_client_version ∷ ec_tag_client_mod ∷ ec_tag_stats_ul_speed
    ∷ ec_tag_stats_dl_speed ∷ ec_tag_stats_ul_speed_limit ∷ ec_tag_stats_dl_speed_limit
    ∷ ec_tag_stats_up_overhead ∷ ec_tag_stats_down_overhead ∷ ec_tag_stats_total_src_count
    ∷ ec_tag_stats_banned_count ∷ ec_tag_stats_ul_queue_len ∷ ec_tag_stats_ed2k_users
    ∷ ec_tag_stats_kad_users ∷ ec_tag_stats_ed2k_files ∷ ec_tag_stats_kad_files
    ∷ ec_tag_stats_logger_message ∷ ec_tag_stats_kad_firewalled_udp
    ∷ ec_tag_stats_kad_indexed_sources ∷ ec_tag_stats_kad_indexed_keywords
    ∷ ec_tag_stats_kad_indexed_notes ∷ ec_tag_stats_kad_indexed_load ∷ ec_tag_stats_kad_ip_adress
    ∷ ec_tag_stats_buddy_status ∷ ec_tag_stats_buddy_ip ∷ ec_tag_stats_buddy_port
    ∷ ec_tag_stats_kad_in_lan_mode ∷ ec_tag_stats_total_sent_bytes
    ∷ ec_tag_stats_total_received_bytes ∷ ec_tag_stats_shared_file_count ∷ ec_tag_stats_kad_nodes
    ∷ ec_tag_partfile ∷ ec_tag_partfile_name ∷ ec_tag_partfile_partmetid ∷ ec_tag_partfile_size_full
    ∷ ec_tag_partfile_size_xfer ∷ ec_tag_partfile_size_xfer_up ∷ ec_tag_partfile_size_done
    ∷ ec_tag_partfile_speed ∷ ec_tag_partfile_status ∷ ec_tag_partfile_prio
    ∷ ec_tag_partfile_source_count ∷ ec_tag_partfile_source_count_a4af
    ∷ ec_tag_partfile_source_count_not_current ∷ ec_tag_partfile_source_count_xfer
    ∷ ec_tag_partfile_ed2k_link ∷ ec_tag_partfile_cat ∷ ec_tag_partfile_last_recv
    ∷ ec_tag_partfile_last_seen_comp ∷ ec_tag_partfile_part_status ∷ ec_tag_partfile_gap_status
    ∷ ec_tag_partfile_req_status ∷ ec_tag_partfile_source_names ∷ ec_tag_partfile_comments
    ∷ ec_tag_partfile_stopped ∷ ec_tag_partfile_download_active ∷ ec_tag_partfile_lost_corruption
    ∷ ec_tag_partfile_gained_compression ∷ ec_tag_partfile_saved_ich
    ∷ ec_tag_partfile_source_names_counts ∷ ec_tag_partfile_available_parts ∷ ec_tag_partfile_hash
    ∷ ec_tag_partfile_shared ∷ ec_tag_partfile_hashed_part_count ∷ ec_tag_partfile_a4afauto
    ∷ ec_tag_partfile_a4af_sources ∷ ec_tag_knownfile ∷ ec_tag_knownfile_xferred
    ∷ ec_tag_knownfile_xferred_all ∷ ec_tag_knownfile_req_count ∷ ec_tag_knownfile_req_count_all
    ∷ ec_tag_knownfile_accept_count ∷ ec_tag_knownfile_accept_count_all
    ∷ ec_tag_knownfile_aich_masterhash ∷ ec_tag_knownfile_filename
    ∷ ec_tag_knownfile_complete_sources_low ∷ ec_tag_knownfile_complete_sources_high
    ∷ ec_tag_knownfile_prio ∷ ec_tag_knownfile_on_queue ∷ ec_tag_knownfile_complete_sources
    ∷ ec_tag_knownfile_comment ∷ ec_tag_knownfile_rating ∷ ec_tag_server ∷ ec_tag_server_name
    ∷ ec_tag_server_desc ∷ ec_tag_server_address ∷ ec_tag_server_ping ∷ ec_tag_server_users
    ∷ ec_tag_server_users_max ∷ ec_tag_server_files ∷ ec_tag_server_prio ∷ ec_tag_server_failed
    ∷ ec_tag_server_static ∷ ec_tag_server_version ∷ ec_tag_server_ip ∷ ec_tag_server_port
    ∷ ec_tag_client ∷ ec_tag_searchfile ∷ ec_tag_search_type ∷ ec_tag_search_name
    ∷ ec_tag_search_min_size ∷ ec_tag_search_max_size ∷ ec_tag_search_file_type
    ∷ ec_tag_search_extension ∷ ec_tag_search_availability ∷ ec_tag_search_status
    ∷ ec_tag_search_parent ∷ ec_tag_select_prefs ∷ ec_tag_prefs_categories ∷ ec_tag_category
    ∷ ec_tag_category_title ∷ ec_tag_category_path ∷ ec_tag_category_comment ∷ ec_tag_category_color
    ∷ ec_tag_category_prio ∷ ec_tag_unknown ∷ []

-- `ECTagName.from_value`: a value without a member is mapped to `EC_TAG_UNKNOWN`.
unfoldable pub from_value : ℕ → ℕ
from_value v = if elem v tag_names then v else ec_tag_unknown
