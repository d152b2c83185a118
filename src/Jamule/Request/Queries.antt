-- ===== src/Jamule/Request/Queries.antt =====
-- The requests that jamule/request.py builds, as a type, and which of them fit on the wire.
use amarr.Prelude.{ℕ, ◌+◌, ◌<◌, ◌^◌, ◌≡◌, Option, none, some, length}
use amarr.Py.Seq.{Bytes, Text}
use amarr.Ec.Tag.{string}
use amarr.Ec.Tag.Values.RoundTrip.{IsPlain}
use amarr.Ec.Tag.Wire.{value_bytes}
use amarr.Ec.Packet.{Packet}
use amarr.Jamule.Model.{AmuleCategory, DownloadCommand}
use amarr.Jamule.Request.{
  EcPrefs, SearchType, SearchFilters, filters_or_default, create_category_request, salt_request,
  auth_request, stats_request, download_queue_request, shared_files_request, add_link_request,
  search_status_request, search_results_request, search_stop_request, get_preferences_request,
  download_command_request, download_search_result_request, set_file_category_request,
  search_request,
}

-- The requests that the module can build.
pub data Query : Type 0 where
  salt stats download_queue shared_files search_status search_results search_stop : Query
  auth : Bytes → Query
  add_link : Text → Query
  get_preferences : EcPrefs → Query
  download_command : Bytes → DownloadCommand → Query
  download_search_result : Bytes → Query
  set_file_category : Bytes → ℕ → Query
  create_category : AmuleCategory → Query
  search : Text → SearchType → Option SearchFilters → Query

unfoldable pub packet_of : Query → Packet
packet_of salt = salt_request
packet_of stats = stats_request
packet_of download_queue = download_queue_request
packet_of shared_files = shared_files_request
packet_of search_status = search_status_request
packet_of search_results = search_results_request
packet_of search_stop = search_stop_request
packet_of (auth hash) = auth_request hash
packet_of (add_link link) = add_link_request link
packet_of (get_preferences prefs) = get_preferences_request prefs
packet_of (download_command hash command) = download_command_request hash command
packet_of (download_search_result hash) = download_search_result_request hash
packet_of (set_file_category hash category) = set_file_category_request hash category
packet_of (create_category category) = create_category_request category
packet_of (search query type filters) = search_request query type filters

-- A text that fits in a tag, with `more` bytes beside it.
abbrev pub IsTagText : ℕ → Text → Type 0
IsTagText more t = IsPlain t × (more + length (value_bytes (string t)) < 0xD800)

-- The number and the texts of a category fit in its tag.
abbrev pub IsPossibleCategory : AmuleCategory → Type 0
IsPossibleCategory c =
    (c.id < 2 ^ 32)
    × (c.priority < 2 ^ 32)
    × IsPlain c.name
    × IsPlain c.path
    × IsPlain c.comment
    × (44
          + length (value_bytes (string c.name))
          + length (value_bytes (string c.path))
          + length (value_bytes (string c.comment))
        < 0xD800)

abbrev pub IsTextFilter : Option Text → Type 0
IsTextFilter none = Unit {0}
IsTextFilter (some t) = IsTagText 0 t

abbrev pub IsNumberFilter : Option ℕ → Type 0
IsNumberFilter none = Unit {0}
IsNumberFilter (some n) = n < 2 ^ 64

abbrev pub ArePossibleFilters : SearchFilters → Type 0
ArePossibleFilters f =
    IsTextFilter f.filetype
    × IsTextFilter f.extension
    × IsNumberFilter f.min_size
    × IsNumberFilter f.max_size
    × IsNumberFilter f.availability

-- Hashes of 16 bytes, texts that fit, numbers of the width of their tag.
abbrev pub IsPossible : Query → Type 0
IsPossible (auth hash) = length hash ≡ 16
IsPossible (add_link link) = IsTagText 0 link
IsPossible (download_command hash command) = length hash ≡ 16
IsPossible (download_search_result hash) = length hash ≡ 16
IsPossible (set_file_category hash category) = (length hash ≡ 16) × (category < 2 ^ 64)
IsPossible (create_category category) = IsPossibleCategory category
IsPossible (search query type filters) =
    IsTagText 8 query × ArePossibleFilters (filters_or_default filters)
IsPossible _ = Unit {0}
