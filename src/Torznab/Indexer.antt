-- ===== src/Torznab/Indexer.antt =====
-- torznab/indexer/base.py: the pipeline of a search, from the query to the feed.
pub mod Query
pub mod Normalized
pub mod Cached
pub mod Listing
use amarr.Prelude.{
  ℕ, ◌+◌, ◌*◌, Bool, true, false, not, ◌&&◌, ◌||◌, Option, none, some, List, [], ◌∷◌, ◌++◌, leb,
  ◌==◌, if◌then◌else◌, length,
}
use amarr.Prelude.Int.{ℤ, pos, ◌+ℤ◌}
use amarr.Py.Result.{Exc, Result, ok, err, os_error, timeout, value_error, unicode_error, ◌>>=◌}
use amarr.Py.Seq.{Text, slice}
use amarr.Py.Stateful.{Stateful}
use amarr.Py.Decimal.{decimal, split, none_of}
use amarr.Py.Url.{quote_path}
use amarr.Jamule.Hex.{hex}
use amarr.Jamule.Response.Lists.{SearchFile}
use amarr.Magnet.{for_amarr, to_text, is_member}
use amarr.Cache.{SearchCache, Key}
use amarr.Cache
use amarr.Torrent.Info.{keep_if}
use amarr.Torznab.Feed.{Item, Feed, TorznabAttribute}
use Query.{Unicode, is_blank, normalize_search_query}

-- The sets of extensions
abbrev pub video_extensions : List Text
video_extensions =
    (97 ∷ 118 ∷ 105 ∷ [])
    ∷ (109 ∷ 50 ∷ 116 ∷ 115 ∷ [])
    ∷ (109 ∷ 52 ∷ 118 ∷ [])
    ∷ (109 ∷ 107 ∷ 118 ∷ [])
    ∷ (109 ∷ 111 ∷ 118 ∷ [])
    ∷ (109 ∷ 112 ∷ 52 ∷ [])
    ∷ (109 ∷ 112 ∷ 101 ∷ 103 ∷ [])
    ∷ (109 ∷ 112 ∷ 103 ∷ [])
    ∷ (116 ∷ 115 ∷ [])
    ∷ (119 ∷ 101 ∷ 98 ∷ 109 ∷ [])
    ∷ (119 ∷ 109 ∷ 118 ∷ [])
    ∷ []

abbrev pub excluded_extensions : List Text
excluded_extensions =
    (97 ∷ 115 ∷ 115 ∷ [])
    ∷ (99 ∷ 117 ∷ 101 ∷ [])
    ∷ (103 ∷ 105 ∷ 102 ∷ [])
    ∷ (106 ∷ 112 ∷ 103 ∷ [])
    ∷ (106 ∷ 112 ∷ 101 ∷ 103 ∷ [])
    ∷ (109 ∷ 51 ∷ 117 ∷ [])
    ∷ (109 ∷ 112 ∷ 51 ∷ [])
    ∷ (110 ∷ 102 ∷ 111 ∷ [])
    ∷ (112 ∷ 110 ∷ 103 ∷ [])
    ∷ (114 ∷ 97 ∷ 114 ∷ [])
    ∷ (115 ∷ 114 ∷ 116 ∷ [])
    ∷ (115 ∷ 117 ∷ 98 ∷ [])
    ∷ (116 ∷ 120 ∷ 116 ∷ [])
    ∷ (122 ∷ 105 ∷ 112 ∷ [])
    ∷ []

abbrev pub min_video_size_bytes : ℕ
min_video_size_bytes = 50 * 1024 * 1024

-- `text.rsplit(c, 1)[-1]` where `c` is in the text
unfoldable pub after_last : ℕ → Text → Text
after_last c [] = []
after_last c (x ∷ xs) =
    let rest = after_last c xs in if none_of c xs then (if x == c then xs else x ∷ xs) else rest

-- What the names of the attributes and the other texts of the feed are.
abbrev pub extension_of : Unicode → Text → Text
extension_of unicode file_name =
    if none_of 46 file_name then [] else unicode.lower (after_last 46 file_name)

-- `_is_relevant_video_result`
unfoldable pub is_relevant_video_result : Unicode → SearchFile → Bool
is_relevant_video_result unicode file =
    let extension = extension_of unicode file.file_name in
    if is_member extension excluded_extensions
    then false
    else is_member extension video_extensions
      || (length extension == 0 && leb min_video_size_bytes file.size_full)

-- `_details_url`
abbrev details_query : SearchFile → Text → Text
details_query f name =
    (47 ∷ 100 ∷ 101 ∷ 116 ∷ 97 ∷ 105 ∷ 108 ∷ 115 ∷ 63 ∷ 104 ∷ 97 ∷ 115 ∷ 104 ∷ 61 ∷ [])
    ++ (hex f.hash
        ++ ((38 ∷ 110 ∷ 97 ∷ 109 ∷ 101 ∷ 61 ∷ [])
            ++ (name
                ++ ((38 ∷ 115 ∷ 105 ∷ 122 ∷ 101 ∷ 61 ∷ [])
                    ++ (decimal f.size_full
                        ++ ((38 ∷ 115 ∷ 101 ∷ 101 ∷ 100 ∷ 101 ∷ 114 ∷ 115 ∷ 61 ∷ [])
                            ++ (decimal f.complete_source_count
                                ++ ((38 ∷ 112 ∷ 101 ∷ 101 ∷ 114 ∷ 115 ∷ 61 ∷ [])
                                    ++ decimal f.source_count))))))))

unfoldable pub details_url : Text → SearchFile → Result Text
details_url [] f = ok []
details_url (c ∷ base_url) f = do
  name ← quote_path f.file_name
  ok (c ∷ base_url ++ details_query f name)

abbrev pub attribute : Text → Text → TorznabAttribute
attribute name value = record { name = name; value = value }

abbrev pub category_name : Text
category_name = 99 ∷ 97 ∷ 116 ∷ 101 ∷ 103 ∷ 111 ∷ 114 ∷ 121 ∷ []

abbrev pub size_name : Text
size_name = 115 ∷ 105 ∷ 122 ∷ 101 ∷ []

-- The item of a result
unfoldable pub item_of : Text → SearchFile → Result Item
item_of base_url f = do
  url ← to_text (for_amarr f.hash f.file_name (pos f.size_full))
  comments ← details_url base_url f
  ok (record {
    title = f.file_name;
    enclosure = record { url = url; length = f.size_full };
    attributes =
        attribute category_name (49 ∷ [])
        ∷ attribute (115 ∷ 101 ∷ 101 ∷ 100 ∷ 101 ∷ 114 ∷ 115 ∷ []) (decimal f.complete_source_count)
        ∷ attribute (112 ∷ 101 ∷ 101 ∷ 114 ∷ 115 ∷ []) (decimal f.source_count)
        ∷ attribute size_name (decimal f.size_full)
        ∷ [];
    comments = comments;
  })

unfoldable pub items_of : Text → List SearchFile → Result (List Item)
items_of base_url [] = ok []
items_of base_url (f ∷ fs) = do
  item ← item_of base_url f
  items ← items_of base_url fs
  ok (item ∷ items)

-- `items[offset : offset + limit]`
abbrev pub page_of : {A : Type 0} → List A → ℤ → ℤ → List A
page_of items offset limit = slice items offset (offset +ℤ limit)

abbrev pub feed_of : ℤ → ℕ → List Item → Feed
feed_of offset total items = record {
  channel = record { response = record { offset = offset; total = total }; item = items };
}

-- `_build_feed`
unfoldable pub build_feed : List SearchFile → ℤ → ℤ → Text → Result Feed
build_feed items offset limit base_url = do
  feed_items ← items_of base_url (page_of items offset limit)
  ok (feed_of offset (length items) feed_items)

-- `_empty_query_response`
unfoldable pub empty_query_response : Feed
empty_query_response = feed_of (pos 0) 1 (
    record {
      title =
          78 ∷ 111 ∷ 32 ∷ 113 ∷ 117 ∷ 101 ∷ 114 ∷ 121 ∷ 32 ∷ 112 ∷ 114 ∷ 111 ∷ 118 ∷ 105 ∷ 100 ∷ 101
          ∷ 100 ∷ [];
      enclosure = record {
        url =
            104 ∷ 116 ∷ 116 ∷ 112 ∷ 58 ∷ 47 ∷ 47 ∷ 109 ∷ 111 ∷ 99 ∷ 107 ∷ 46 ∷ 117 ∷ 114 ∷ 108 ∷ [];
        length = 0;
      };
      attributes = attribute category_name (49 ∷ []) ∷ attribute size_name (48 ∷ []) ∷ [];
      comments = [];
    }
    ∷ [])

-- `_SEARCH_ERRORS`, `OSError` and `ValueError`, with their subclasses
abbrev pub is_search_error : Exc → Bool
is_search_error os_error = true
is_search_error timeout = true
is_search_error value_error = true
is_search_error unicode_error = true
is_search_error _ = false

-- An engine: `cache_key`, `_raw_search`, and whether it has a cache. `now` is the clock of the cache.
pub record Engine (W : Type 0) : Type 0 where
  pub cache_key : Text
  pub has_cache : Bool
  pub raw_search : Text → Stateful W (List SearchFile)
  pub now : W → ℕ

module _ {W : Type 0} (ttl : ℕ) (engine : Engine W) where
  abbrev pub use_cache : Bool
  use_cache = engine.has_cache && not (length engine.cache_key == 0)

  abbrev pub lookup : Bool → Text → SearchCache → W → Option (List SearchFile)
  lookup false query cache w = none
  lookup true query cache w = Cache.get ttl (engine.now w) (engine.cache_key, query) cache

  abbrev pub store_results : Bool → Text → List SearchFile → SearchCache → W → SearchCache
  store_results false query results cache w = cache
  store_results true query results cache w =
      Cache.put ttl (engine.now w) (engine.cache_key, query) results cache

  -- What a search of the engine gives: its results are stored, and errors of the search are not.
  abbrev pub searched :
      Text
      → SearchCache
      → Result (List SearchFile) × W
      → Result (List SearchFile) × (SearchCache × W)
  searched query cache (ok results, w) =
      (ok results, (store_results use_cache query results cache w, w))
  searched query cache (err e, w) = (if is_search_error e then ok [] else err e, (cache, w))

  abbrev pub hit_or_search :
      Option (List SearchFile) → Text → Stateful (SearchCache × W) (List SearchFile)
  hit_or_search (some hit) query s = (ok hit, s)
  hit_or_search none query (cache, w) = searched query cache (engine.raw_search query w)

  -- `_raw_search_cached`
  unfoldable pub raw_search_cached : Text → Stateful (SearchCache × W) (List SearchFile)
  raw_search_cached query (cache, w) =
      hit_or_search (lookup use_cache query cache w) query (cache, w)

module _ {W : Type 0} (unicode : Unicode) (ttl : ℕ) (engine : Engine W) where
  abbrev pub feed_from :
      ℤ → ℤ → Text → Result (List SearchFile) × (SearchCache × W) → Result Feed × (SearchCache × W)
  feed_from offset limit base_url (err e, s) = (err e, s)
  feed_from offset limit base_url (ok results, s) =
      (build_feed (keep_if (is_relevant_video_result unicode) results) offset limit base_url, s)

  -- `search`. The categories are not looked at.
  unfoldable pub search : Text → ℤ → ℤ → Text → Stateful (SearchCache × W) Feed
  search query offset limit base_url s =
      let found = raw_search_cached ttl engine (normalize_search_query unicode query) s in
      if is_blank unicode query
      then (ok empty_query_response, s)
      else feed_from offset limit base_url found
