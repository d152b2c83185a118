-- ===== src/Tests/Cached.antt =====
-- A search that is repeated within the time to live.
use amarr.Prelude.{◌≡◌, refl, none, some, List, [], ◌∷◌, map, arith, ltb, if◌then◌else◌}
use amarr.Jamule.Hex.{all_bytes}
use amarr.Jamule.Response.Lists.{SearchFileDownloadStatus, SearchFile}
use amarr.Cache.{Key, get, put, same_key}
use amarr.Cache.Laws.{as_new, bytes_hashes, get-put}

abbrev key : Key
key = (107 ∷ 97 ∷ 100 ∷ [], 97 ∷ 98 ∷ [])

abbrev results : List SearchFile
results =
    record {
      file_name = 97 ∷ [];
      hash = 1 ∷ 255 ∷ [];
      size_full = 1000;
      download_status = SearchFileDownloadStatus.queued;
      complete_source_count = 1;
      source_count = 3;
    }
    ∷ []

get-put_example : get 60 130 key (put 60 100 key results []) ≡ (
    if same_key key key
    then (if ltb 160 130 then none else some (map as_new results))
    else get 60 130 key [])
get-put_example =
    get-put 60 100 130 key key results [] (omega arith) (unfold bytes_hashes all_bytes in refl)
