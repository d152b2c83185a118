-- ===== src/Jamule/Response.antt =====
-- jamule/response.py: the responses, and `parse`, which picks one by the opcode of the packet.
pub mod Reading
pub mod Connected
pub mod Stats
pub mod Lists
pub mod Answers
pub mod Numbers
pub mod Described
pub mod Addresses
use amarr.Prelude.{
  ℕ, Bool, true, false, ◌&&◌, ◌||◌, not, Option, none, some, List, [], ◌∷◌, ◌==◌, if◌then◌else◌,
}
use amarr.Py.Result.{Result, ok, err, communication, ◌>>=◌}
use amarr.Py.Seq.{Text}
use amarr.Ec.OpCode.{
  ec_op_auth_fail, ec_op_auth_ok, ec_op_auth_salt, ec_op_dload_queue, ec_op_set_preferences,
  ec_op_failed, ec_op_misc_data, ec_op_noop, ec_op_search_results, ec_op_search_progress,
  ec_op_shared_files, ec_op_stats, ec_op_strings,
}
use amarr.Ec.TagName.{
  ec_tag_string, ec_tag_server_version, ec_tag_passwd_salt, ec_tag_partfile,
  ec_tag_prefs_categories, ec_tag_search_status, ec_tag_knownfile,
}
use amarr.Ec.Tag.{Tag, Tags, has_any, subtags}
use amarr.Ec.Tag.Find.{find_numeric, find_custom, get_int, string_value, long_value}
use amarr.Ec.Packet.{Packet}
use amarr.Jamule.Model.{AmuleCategory}
use amarr.Jamule.Model.SharedFile.{SharedFileTag, shared_file_from_subtags}
use amarr.Jamule.Model.PartFile.{PartFileTag, part_file_from_subtags}
use amarr.Torrent.Models.{Ratio}
use Reading.{required, required_number}
use Stats.{StatsResponse, parse_stats}
use Lists.{SearchFile, search_files, read_named}
use Lists

-- One constructor for each class. The status of a search is a ratio.
pub data Response : Type 0 where
  auth_failed : Text → Response
  auth_ok : Text → Response
  auth_salt : ℕ → Response
  error_response : Text → Response
  strings : Text → Response
  misc_data noop empty_preferences : Response
  prefs_categories : List AmuleCategory → Response
  search_results : List SearchFile → Response
  search_status : Ratio → Response
  download_queue : List PartFileTag → Response
  shared_files : List SharedFileTag → Response
  stats : StatsResponse → Response

abbrev pub or_text : Text → Option Text → Text
or_text default none = default
or_text default (some t) = t

-- "Unknown error"
abbrev pub unknown_error : Text
unknown_error = 85 ∷ 110 ∷ 107 ∷ 110 ∷ 111 ∷ 119 ∷ 110 ∷ 32 ∷ 101 ∷ 114 ∷ 114 ∷ 111 ∷ 114 ∷ []

-- `1.0 if num in (0xFFFF, 0xFFFE) else num / 100.0`
unfoldable pub status_ratio : ℕ → Ratio
status_ratio num =
    if num == 0xFFFF || num == 0xFFFE
    then record { num = 1; den = 1 }
    else record { num = num; den = 100 }

-- The value of an answer, under the constructor of its class
abbrev pub answer {ℓ} : {A : Type ℓ} → (A → Response) → Result A → Result Response
answer class r = do a ← r; ok (class a)

-- `_parse_search_status`
unfoldable pub parse_search_status : Tags → Result Response
parse_search_status tags =
    answer (λ num. search_status (status_ratio num))
      (required_number get_int (find_numeric tags ec_tag_search_status))

abbrev pub is_found : Option Tag → Bool
is_found none = false
is_found (some t) = true

-- The branches of `parse` for an opcode; the tests run in the order of the source.
unfoldable pub response_of : ℕ → Tags → Result Response
response_of op tags =
    if op == ec_op_auth_fail
    then answer auth_failed (required (string_value tags ec_tag_string))
    else if op == ec_op_auth_ok
    then answer auth_ok (required (string_value tags ec_tag_server_version))
    else if op == ec_op_auth_salt
    then answer auth_salt (required (long_value tags ec_tag_passwd_salt))
    else if op == ec_op_dload_queue
    then answer download_queue
        (read_named (λ t. part_file_from_subtags (subtags t)) ec_tag_partfile tags)
    else if op == ec_op_set_preferences && not (has_any tags)
    then ok empty_preferences
    else if op == ec_op_failed
    then ok (error_response (or_text unknown_error (string_value tags ec_tag_string)))
    else if op == ec_op_misc_data
    then ok misc_data
    else if op == ec_op_noop
    then ok noop
    else if op == ec_op_set_preferences && is_found (find_custom tags ec_tag_prefs_categories)
    then answer prefs_categories (Lists.prefs_categories (find_custom tags ec_tag_prefs_categories))
    else if op == ec_op_search_results
    then answer search_results (search_files tags)
    else if op == ec_op_search_progress
    then parse_search_status tags
    else if op == ec_op_shared_files
    then answer shared_files
        (read_named (λ t. shared_file_from_subtags (subtags t)) ec_tag_knownfile tags)
    else if op == ec_op_stats
    then answer stats (parse_stats tags)
    else if op == ec_op_strings
    then ok (strings (or_text [] (string_value tags ec_tag_string)))
    else err communication

-- `parse`
unfoldable pub parse : Packet → Result Response
parse packet = response_of packet.op_code packet.tags
