-- ===== src/Jamule/Response/Lists.antt =====
-- The responses of jamule/response.py that are lists: search results, categories, files.
use amarr.Prelude.{ℕ, true, false, List, [], ◌∷◌, ◌==◌, if◌then◌else◌}
use amarr.Py.Result.{
  Result, ok, err, value_error, communication, attribute_error, ◌>>=◌, ◌>>◌, guard,
}
use amarr.Py.Seq.{Bytes, Text}
use amarr.Ec.TagName.{
  ec_tag_searchfile, ec_tag_partfile_size_full, ec_tag_partfile_source_count_xfer,
  ec_tag_partfile_source_count, ec_tag_partfile_status, ec_tag_partfile_name, ec_tag_partfile_hash,
  ec_tag_category, ec_tag_category_title, ec_tag_category_path, ec_tag_category_comment,
  ec_tag_category_prio, ec_tag_category_color,
}
use amarr.Prelude.{Option, none, some}
use amarr.Ec.Tag.{Tag, Tags, nil, cons, name, subtags}
use amarr.Ec.Tag.Find.{
  find_numeric, get_int, get_long, number_or, string_value, hash_value, byte_value, as_numeric,
}
use amarr.Jamule.Model.{AmuleCategory}
use amarr.Jamule.Response.Reading.{required, required_number}

-- `SearchFileDownloadStatus` and `SearchFile`
pub data SearchFileDownloadStatus : Type 0 where
  new downloaded queued canceled queuedcanceled : SearchFileDownloadStatus

pub record SearchFile : Type 0 where
  pub file_name : Text
  pub hash : Bytes
  pub size_full : ℕ
  pub download_status : SearchFileDownloadStatus
  pub complete_source_count : ℕ
  pub source_count : ℕ

-- `SearchFileDownloadStatus.from_ec_status(ECSearchFileDownloadStatus(value))`
unfoldable pub from_ec_status : ℕ → Result SearchFileDownloadStatus
from_ec_status value =
    if value == 0
    then ok new
    else if value == 1
    then ok downloaded
    else if value == 2
    then ok queued
    else if value == 3
    then ok canceled
    else if value == 4
    then ok queuedcanceled
    else err value_error

-- One round of the loop of `_parse_search_results`
unfoldable pub search_file : Tag → Result SearchFile
search_file t = do
  guard (name t == ec_tag_searchfile) communication
  status_byte ← required (byte_value (subtags t) ec_tag_partfile_status)
  file_name ← required (string_value (subtags t) ec_tag_partfile_name)
  hash ← required (hash_value (subtags t) ec_tag_partfile_hash)
  size ← number_or 0 get_long (find_numeric (subtags t) ec_tag_partfile_size_full)
  status ← from_ec_status status_byte
  xfer ← number_or 0 get_int (find_numeric (subtags t) ec_tag_partfile_source_count_xfer)
  src ← number_or 0 get_int (find_numeric (subtags t) ec_tag_partfile_source_count)
  ok (record {
    file_name = file_name;
    hash = hash;
    size_full = size;
    download_status = status;
    complete_source_count = xfer;
    source_count = src;
  })

-- `_parse_search_results`
unfoldable pub search_files : Tags → Result (List SearchFile)
search_files nil = ok []
search_files (cons t ts) = do f ← search_file t; fs ← search_files ts; ok (f ∷ fs)

-- `[read(t) for t in tags if t.name == n]`
unfoldable pub read_named {ℓ} : {A : Type ℓ} → (Tag → Result A) → ℕ → Tags → Result (List A)
read_named read n nil = ok []
read_named read n (cons t ts) = elim (name t == n) [
  | true ↦ (do a ← read t; rest ← read_named read n ts; ok (a ∷ rest))
  | false ↦ read_named read n ts
]

-- One round of the loop of `_parse_prefs_categories`
unfoldable pub category : Tag → Result AmuleCategory
category cat = do
  id ← required_number get_long (as_numeric (some cat))
  title ← required (string_value (subtags cat) ec_tag_category_title)
  path ← required (string_value (subtags cat) ec_tag_category_path)
  comment ← required (string_value (subtags cat) ec_tag_category_comment)
  priority ← required (byte_value (subtags cat) ec_tag_category_prio)
  color ← required_number get_int (find_numeric (subtags cat) ec_tag_category_color)
  ok (record {
    id = id;
    name = title;
    path = path;
    comment = comment;
    color = color;
    priority = priority;
  })

-- `_parse_prefs_categories`, on its container
unfoldable pub prefs_categories : Option Tag → Result (List AmuleCategory)
prefs_categories none = err attribute_error
prefs_categories (some container) = read_named category ec_tag_category (subtags container)
