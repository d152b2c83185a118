-- ===== src/Jamule/Client.antt =====
-- `AmuleClient` of jamule/client.py. The connection's `send_request`, the clock and `sleep` are
-- parameters; times are in milliseconds.
pub mod Search
pub mod Delivery
pub mod Categories
use amarr.Prelude.{
  ℕ, zero, suc, ◌-◌, Bool, Option, none, some, List, [], ◌∷◌, ltb, leb, if◌then◌else◌,
}
use amarr.Py.Result.{Result, ok, err, communication}
use amarr.Py.Seq.{Bytes, Text}
use amarr.Py.Stateful.{Stateful, continue, lift, ◌>>=◌, ◌>>◌}
use amarr.Py.Equality.{eq_optional}
use amarr.Ec.Packet.{Packet}
use amarr.Jamule.Hex.{hex}
use amarr.Jamule.Model.{AmuleCategory, DownloadCommand}
use amarr.Jamule.Model.SharedFile.{SharedFileTag}
use amarr.Jamule.Model.PartFile.{PartFileTag}
use amarr.Jamule.Request.{
  EcPrefs, SearchType, SearchFilters, stats_request, search_request, search_status_request,
  search_results_request, search_stop_request, download_search_result_request, add_link_request,
  download_queue_request, shared_files_request, download_command_request, create_category_request,
  get_preferences_request, set_file_category_request,
}
use amarr.Jamule.Response.Stats.{StatsResponse}
use amarr.Jamule.Response.Lists.{SearchFile}
use amarr.Jamule.Response.{
  Response, strings, misc_data, noop, empty_preferences, prefs_categories, search_results,
  search_status, download_queue, shared_files, stats,
}
use amarr.Torrent.Models.{Ratio}
use amarr.Torrent.Service.{Client}

-- `if isinstance(response, ...): return ...`, and `CommunicationException` for the other classes
abbrev pub as_stats : Response → Result StatsResponse
as_stats (stats s) = ok s
as_stats _ = err communication

abbrev pub as_strings : Response → Result Text
as_strings (strings t) = ok t
as_strings _ = err communication

abbrev pub as_search_status : Response → Result Ratio
as_search_status (search_status r) = ok r
as_search_status _ = err communication

abbrev pub as_search_results : Response → Result (List SearchFile)
as_search_results (search_results files) = ok files
as_search_results _ = err communication

abbrev pub as_misc_data : Response → Result (Unit {0})
as_misc_data misc_data = ok tt
as_misc_data _ = err communication

abbrev pub as_noop : Response → Result (Unit {0})
as_noop noop = ok tt
as_noop _ = err communication

abbrev pub as_download_queue : Response → Result (List PartFileTag)
as_download_queue (download_queue files) = ok files
as_download_queue _ = err communication

abbrev pub as_shared_files : Response → Result (List SharedFileTag)
as_shared_files (shared_files files) = ok files
as_shared_files _ = err communication

abbrev pub as_categories : Response → Result (List AmuleCategory)
as_categories (prefs_categories categories) = ok categories
as_categories empty_preferences = ok []
as_categories _ = err communication

-- `next((f for f in files if f.file_hash_hex_string == hash_hex), None)`
unfoldable pub find_part : Text → List PartFileTag → Option PartFileTag
find_part hash_hex [] = none
find_part hash_hex (f ∷ fs) =
    let later = find_part hash_hex fs in
    if eq_optional f.file_hash_hex_string (some hash_hex) then some f else later

abbrev pub require_found : Option PartFileTag → Result (Unit {0})
require_found none = err communication
require_found (some f) = ok tt

module _ {W : Type 0} (send_request : Packet → Stateful W Response) where
  unfoldable pub get_stats : Stateful W StatsResponse
  get_stats = do response ← send_request stats_request; lift (as_stats response)

  unfoldable pub search_async : Text → SearchType → Option SearchFilters → Stateful W Text
  search_async query type filters = do
    response ← send_request (search_request query type filters)
    lift (as_strings response)

  unfoldable pub get_search_status : Stateful W Ratio
  get_search_status = do
    response ← send_request search_status_request
    lift (as_search_status response)

  unfoldable pub get_search_results : Stateful W (List SearchFile)
  get_search_results = do
    response ← send_request search_results_request
    lift (as_search_results response)

  unfoldable pub search_stop : Stateful W (Unit {0})
  search_stop = do response ← send_request search_stop_request; lift (as_misc_data response)

  unfoldable pub download_search_result : Bytes → Stateful W (Unit {0})
  download_search_result file_hash = do
    response ← send_request (download_search_result_request file_hash)
    text ← lift (as_strings response)
    lift (ok tt)

  unfoldable pub download_ed2k_link : Text → Stateful W (Unit {0})
  download_ed2k_link link = do
    response ← send_request (add_link_request link)
    lift (as_noop response)

  unfoldable pub get_download_queue : Stateful W (List PartFileTag)
  get_download_queue = do
    response ← send_request download_queue_request
    lift (as_download_queue response)

  unfoldable pub get_shared_files : Stateful W (List SharedFileTag)
  get_shared_files = do
    response ← send_request shared_files_request
    lift (as_shared_files response)

  unfoldable pub send_download_command : Bytes → DownloadCommand → Stateful W (Unit {0})
  send_download_command file_hash command = do
    response ← send_request (download_command_request file_hash command)
    lift (as_noop response)

  unfoldable pub create_category : AmuleCategory → Stateful W (Unit {0})
  create_category category = do
    response ← send_request (create_category_request category)
    lift (as_noop response)

  unfoldable pub get_categories : Stateful W (List AmuleCategory)
  get_categories = do
    response ← send_request (get_preferences_request EcPrefs.categories)
    lift (as_categories response)

  unfoldable pub set_file_category : Bytes → ℕ → Stateful W (Unit {0})
  set_file_category file_hash category_id = do
    files ← get_download_queue
    lift (require_found (find_part (hex file_hash) files))
    response ← send_request (set_file_category_request file_hash category_id)
    lift (as_noop response)

  -- The client as the torrent service sees it, beside `os.remove`.
  unfoldable pub service_client : (Text → Stateful W (Unit {0})) → Client W
  service_client remove = record {
    get_download_queue = get_download_queue;
    get_shared_files = get_shared_files;
    send_download_command = send_download_command;
    download_ed2k_link = download_ed2k_link;
    remove = remove;
  }

-- `time.monotonic` and `sleep`
pub record Clock (W : Type 0) : Type 0 where
  pub monotonic : W → ℕ
  pub sleep : ℕ → W → W

-- `status >= 1.0`
abbrev pub is_done : Ratio → Bool
is_done r = leb r.den r.num

module _ {W : Type 0} (send_request : Packet → Stateful W Response) (clock : Clock W) where
  -- The polls before the loop, which ask and sleep for 0.2 seconds
  unfoldable pub first_polls : ℕ → Stateful W (Unit {0})
  first_polls zero = lift (ok tt)
  first_polls (suc n) = do
    status ← get_search_status send_request
    (λ w. first_polls n (clock.sleep 200 w))

  -- A round of the `while` loop: what is done with the status, where `again` is the rounds that follow.
  abbrev pub poll_round :
      (W → Option (Result (Unit {0}) × W))
      → ℕ
      → ℕ
      → Result Ratio × W
      → Option (Result (Unit {0}) × W)
  poll_round again timeout start (err e, w) = some (err e, w)
  poll_round again timeout start (ok status, w) =
      if is_done status
      then some (ok tt, w)
      else if ltb timeout (clock.monotonic w - start)
      then some (ok tt, w)
      else again (clock.sleep 100 w)

  -- The `while` loop. `none` is a loop that has not ended after so many rounds.
  unfoldable pub poll : ℕ → ℕ → ℕ → W → Option (Result (Unit {0}) × W)
  poll zero timeout start w = none
  poll (suc rounds) timeout start w =
      poll_round (poll rounds timeout start) timeout start (get_search_status send_request w)

  abbrev results_after : Option (Result (Unit {0}) × W) → Option (Result (List SearchFile) × W)
  results_after none = none
  results_after (some (r, w)) = some (continue (r, w) (λ _. get_search_results send_request))

  abbrev poll_after : ℕ → ℕ → Result (Unit {0}) × W → Option (Result (List SearchFile) × W)
  poll_after rounds timeout (err e, w) = some (err e, w)
  poll_after rounds timeout (ok a, w) = results_after (poll rounds timeout (clock.monotonic w) w)

  -- `search_sync`, with at most so many rounds of its `while` loop
  unfoldable pub search_sync :
      ℕ → Text → SearchType → Option SearchFilters → ℕ → W → Option (Result (List SearchFile) × W)
  search_sync rounds query type filters timeout w =
      poll_after rounds timeout
        ((search_async send_request query type filters >>= λ text. first_polls 15) w)
