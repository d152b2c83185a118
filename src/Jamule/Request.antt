-- ===== src/Jamule/Request.antt =====
-- jamule/request.py: the packet of each request.
pub mod Queries
pub mod Leaves
pub mod Filters
pub mod Sendable
pub mod Received
use amarr.Prelude.{ℕ, ◌%◌, ◌^◌, Option, none, some, [], ◌∷◌}
use amarr.Py.Seq.{Bytes, Text}
use amarr.Ec.OpCode.{
  ec_op_auth_req, ec_op_auth_passwd, ec_op_stat_req, ec_op_get_dload_queue, ec_op_get_shared_files,
  ec_op_add_link, ec_op_search_progress, ec_op_search_results, ec_op_search_stop,
  ec_op_get_preferences, ec_op_download_search_result, ec_op_partfile_set_cat,
  ec_op_create_category, ec_op_search_start,
}
use amarr.Ec.TagName.{
  ec_tag_client_name, ec_tag_client_version, ec_tag_protocol_version, ec_tag_can_zlib,
  ec_tag_can_utf8_numbers, ec_tag_passwd_hash, ec_tag_detail_level, ec_tag_partfile_ed2k_link,
  ec_tag_select_prefs, ec_tag_partfile, ec_tag_partfile_cat, ec_tag_category, ec_tag_category_title,
  ec_tag_category_path, ec_tag_category_comment, ec_tag_category_color, ec_tag_category_prio,
  ec_tag_search_type, ec_tag_search_name, ec_tag_search_file_type, ec_tag_search_extension,
  ec_tag_search_min_size, ec_tag_search_max_size, ec_tag_search_availability,
}
use amarr.Ec.Tag.{
  Tag, Tags, Value, tag, nil, cons, custom, ubyte, ushort, uint, ulong, string, hash16,
}
use amarr.Ec.Packet.{Packet, default_packet}
use amarr.Jamule.Model.{AmuleCategory, DownloadCommand}
use amarr.Jamule.Model

-- `CLIENT_NAME` and `CLIENT_VERSION`
abbrev pub client_name : Text
client_name = 106 ∷ 65 ∷ 109 ∷ 117 ∷ 108 ∷ 101 ∷ []

abbrev pub client_version : Text
client_version =
    102 ∷ 111 ∷ 114 ∷ 32 ∷ 97 ∷ 109 ∷ 117 ∷ 108 ∷ 101 ∷ 32 ∷ 50 ∷ 46 ∷ 51 ∷ 46 ∷ 51 ∷ []

-- `ProtocolVersion` and the detail level of every request
abbrev pub ec_current_protocol_version : ℕ
ec_current_protocol_version = 0x0204

abbrev pub ec_detail_full : ℕ
ec_detail_full = 0x02

-- `EcPrefs`
pub data EcPrefs : Type 0 where
  categories general connections messagefilter remotecontrols onlinesig servers : EcPrefs
  files directories statistics security coretweaks kademlia : EcPrefs

unfoldable pub prefs_value : EcPrefs → ℕ
prefs_value categories = 0x00000001
prefs_value general = 0x00000002
prefs_value connections = 0x00000004
prefs_value messagefilter = 0x00000008
prefs_value remotecontrols = 0x00000010
prefs_value onlinesig = 0x00000020
prefs_value servers = 0x00000040
prefs_value files = 0x00000080
prefs_value directories = 0x00000200
prefs_value statistics = 0x00000400
prefs_value security = 0x00000800
prefs_value coretweaks = 0x00001000
prefs_value kademlia = 0x00002000

-- `SearchType`, by the `ECSearchType` that is its value
pub data SearchType : Type 0 where
  global kad local web : SearchType

unfoldable pub search_type_value : SearchType → ℕ
search_type_value local = 0x00
search_type_value global = 0x01
search_type_value kad = 0x02
search_type_value web = 0x03

pub record SearchFilters : Type 0 where
  pub filetype : Option Text
  pub extension : Option Text
  pub min_size : Option ℕ
  pub max_size : Option ℕ
  pub availability : Option ℕ

-- A tag without subtags, and a packet with the default flags.
abbrev pub leaf : ℕ → Value → Tag
leaf name v = tag name name v nil

abbrev pub request : ℕ → Tags → Packet
request op_code tags = record default_packet { op_code = op_code; tags = tags }

abbrev pub detail_full : Tag
detail_full = leaf ec_tag_detail_level (ubyte ec_detail_full)

unfoldable pub salt_request : Packet
salt_request = request ec_op_auth_req (
    cons (leaf ec_tag_client_name (string client_name)) (
      cons (leaf ec_tag_client_version (string client_version)) (
        cons (leaf ec_tag_protocol_version (ushort ec_current_protocol_version)) (
          cons (leaf ec_tag_can_zlib (custom []))
            (cons (leaf ec_tag_can_utf8_numbers (custom [])) nil)))))

unfoldable pub auth_request : Bytes → Packet
auth_request hashed_password =
    request ec_op_auth_passwd (cons (leaf ec_tag_passwd_hash (hash16 hashed_password)) nil)

unfoldable pub stats_request : Packet
stats_request = request ec_op_stat_req (cons detail_full nil)

unfoldable pub download_queue_request : Packet
download_queue_request = request ec_op_get_dload_queue (cons detail_full nil)

unfoldable pub shared_files_request : Packet
shared_files_request = request ec_op_get_shared_files (cons detail_full nil)

unfoldable pub add_link_request : Text → Packet
add_link_request link =
    request ec_op_add_link (cons (leaf ec_tag_partfile_ed2k_link (string link)) nil)

unfoldable pub search_status_request : Packet
search_status_request = request ec_op_search_progress nil

unfoldable pub search_results_request : Packet
search_results_request = request ec_op_search_results nil

unfoldable pub search_stop_request : Packet
search_stop_request = request ec_op_search_stop nil

unfoldable pub get_preferences_request : EcPrefs → Packet
get_preferences_request prefs =
    request ec_op_get_preferences
      (cons detail_full (cons (leaf ec_tag_select_prefs (uint (prefs_value prefs))) nil))

unfoldable pub download_command_request : Bytes → DownloadCommand → Packet
download_command_request file_hash status =
    request (Model.op_code status) (cons (leaf ec_tag_partfile (hash16 file_hash)) nil)

unfoldable pub download_search_result_request : Bytes → Packet
download_search_result_request file_hash =
    request ec_op_download_search_result (cons (leaf ec_tag_partfile (hash16 file_hash)) nil)

unfoldable pub set_file_category_request : Bytes → ℕ → Packet
set_file_category_request file_hash category = request ec_op_partfile_set_cat (
    cons
      (tag ec_tag_partfile ec_tag_partfile (hash16 file_hash)
        (cons (leaf ec_tag_partfile_cat (ulong category)) nil))
      nil)

unfoldable pub create_category_request : AmuleCategory → Packet
create_category_request c = request ec_op_create_category (
    cons
      (tag ec_tag_category ec_tag_category (uint c.id) (
        cons (leaf ec_tag_category_title (string c.name)) (
          cons (leaf ec_tag_category_path (string c.path)) (
            cons (leaf ec_tag_category_comment (string c.comment)) (
              cons (leaf ec_tag_category_color (ubyte (c.color % 2 ^ 8)))
                (cons (leaf ec_tag_category_prio (uint c.priority)) nil))))))
      nil)

-- `if filter is not None: tags.append(...)`
abbrev pub text_filter : ℕ → Option Text → Tags → Tags
text_filter name none tags = tags
text_filter name (some t) tags = cons (leaf name (string t)) tags

abbrev pub number_filter : ℕ → Option ℕ → Tags → Tags
number_filter name none tags = tags
number_filter name (some n) tags = cons (leaf name (ulong n)) tags

abbrev pub no_filters : SearchFilters
no_filters = record {
  filetype = none;
  extension = none;
  min_size = none;
  max_size = none;
  availability = none;
}

abbrev pub filter_tags : SearchFilters → Tags
filter_tags f = text_filter ec_tag_search_file_type f.filetype (
    text_filter ec_tag_search_extension f.extension (
      number_filter ec_tag_search_min_size f.min_size (
        number_filter ec_tag_search_max_size f.max_size
          (number_filter ec_tag_search_availability f.availability nil))))

abbrev pub filters_or_default : Option SearchFilters → SearchFilters
filters_or_default none = no_filters
filters_or_default (some f) = f

unfoldable pub search_request : Text → SearchType → Option SearchFilters → Packet
search_request query type filters = request ec_op_search_start (
    cons
      (tag ec_tag_search_type ec_tag_search_type (ubyte (search_type_value type))
        (cons (leaf ec_tag_search_name (string query)) nil))
      (filter_tags (filters_or_default filters)))
