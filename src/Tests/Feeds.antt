-- ===== src/Tests/Feeds.antt =====
-- Searches of an engine and the feeds that come of them.
use amarr.Prelude.{
  ℕ, ◌+◌, ◌≡◌, refl, Bool, true, false, not, ◌||◌, Option, none, some, List, [], ◌∷◌, map, arith,
  get_elem?, ◌==◌,
}
use amarr.Prelude.Int.{pos}
use amarr.Py.Result.{Result, ok, err}
use amarr.Py.Seq.{Text}
use amarr.Py.Utf8.{all_scalar}
use amarr.Py.Url.RoundTrip.{all_octets}
use amarr.Category.Store.{store, empty_store}
use amarr.Jamule.Hex.{all_bytes}
use amarr.Magnet.{is_member, amule_hex_hash, to_ed2k_link, for_amarr}
use amarr.Cache
use amarr.Cache.Laws.{as_new, bytes_hashes}
use amarr.Torrent.Service.{add_torrent}
use amarr.Torznab.Feed.{Item, Feed}
use amarr.Torznab.Indexer.{
  Engine, raw_search_cached, page_of, item_of, items_of, build_feed, feed_of, attribute,
}
use amarr.Torznab.Indexer.Query.{Unicode, normalize_search_query}
use amarr.Torznab.Indexer.Normalized.{is_normalized, normalize_search_query-is_normalized}
use amarr.Torznab.Indexer.Cached.{raw_search_cached_again}
use amarr.Torznab.Indexer.Listing.{magnet_of, add_torrent-build_feed}
use amarr.Torznab.Merge.{merged, merged_feed, all_items}
use amarr.Torznab.Merge.Distinct.{urls, distinct, merged-distinct}
use amarr.Torznab.Merge.Pages.{cut, merged_feed-cut}
use amarr.Tests.Answers.{some_file}
use amarr.Tests.Links.{quiet}

-- A table with the letters of ASCII and the space.
abbrev ascii : Unicode
ascii = record {
  decompose = λ t. t;
  combining = λ c. false;
  is_word = λ c. not (c == 32 || c == 46);
  is_space = λ c. c == 32;
  lower = λ t. t;
}

normalize_search_query-is_normalized_example :
    is_normalized ascii (normalize_search_query ascii (97 ∷ 46 ∷ 32 ∷ 98 ∷ 46 ∷ [])) ≡ true
normalize_search_query-is_normalized_example =
    normalize_search_query-is_normalized ascii refl (97 ∷ 46 ∷ 32 ∷ 98 ∷ 46 ∷ [])

-- The state is the time.
abbrev finder : Engine ℕ
finder = record {
  cache_key = 107 ∷ [];
  has_cache = true;
  raw_search = λ query now. (ok (some_file ∷ []), now + 5);
  now = λ now. now;
}

raw_search_cached_again_example :
    let (found, (kept, after)) = raw_search_cached 600 finder (97 ∷ []) ([], 1000) in
    (found ≡ ok (some_file ∷ []))
    × (after ≡ 1005)
    × (raw_search_cached 600 finder (97 ∷ []) (kept, 1200)
        ≡ (ok (map as_new (some_file ∷ [])), (kept, 1200)))
unfolding bytes_hashes amarr.Py.Table.select
raw_search_cached_again_example =
    raw_search_cached_again 600 finder (97 ∷ []) (some_file ∷ []) [] 1000 1005 1200 (omega arith)
      refl (unfold all_bytes in refl) (unfold Cache.get in refl) refl (omega arith)

abbrev feed_or_empty : Result Feed → Feed
feed_or_empty (ok f) = f
feed_or_empty (err e) = feed_of (pos 0) 0 []

abbrev some_feed : Feed
some_feed = feed_or_empty (build_feed (some_file ∷ []) (pos 0) (pos 100) [])

some_feed-built : build_feed (some_file ∷ []) (pos 0) (pos 100) [] ≡ ok some_feed
unfolding build_feed items_of amarr.Py.Seq.slice amarr.Prelude.Int.◌+ℤ◌ item_of amarr.Magnet.to_text
    for_amarr amarr.Py.Url.quote amarr.Py.Utf8.encode amarr.Py.Utf8.encode_char
    amarr.Torznab.Indexer.details_url
some_feed-built = refl

abbrev text_or_empty : Result Text → Text
text_or_empty (ok t) = t
text_or_empty (err e) = []

abbrev some_link : Text
some_link = text_or_empty (to_ed2k_link (magnet_of some_file))

some_link-written : to_ed2k_link (magnet_of some_file) ≡ ok some_link
unfolding to_ed2k_link for_amarr amarr.Py.Url.quote amarr.Py.Utf8.encode amarr.Py.Utf8.encode_char
some_link-written = refl

add_torrent-build_feed_example :
    (i : Item) × (get_elem? some_feed.channel.item 0 ≡ some i)
    × (add_torrent quiet (some (i.enclosure.url ∷ [])) (some (116 ∷ 118 ∷ [])) (0, empty_store)
        ≡ (ok tt, (1, store empty_store (116 ∷ 118 ∷ []) (amule_hex_hash (magnet_of some_file)))))
unfolding amarr.Py.Seq.slice amarr.Prelude.Int.◌+ℤ◌
add_torrent-build_feed_example =
    add_torrent-build_feed quiet (some_file ∷ []) (pos 0) (pos 100) [] some_feed 0 some_file
      some_link (116 ∷ 118 ∷ []) 0 1 empty_store some_feed-built refl (omega arith)
      (unfold all_octets in refl) (unfold all_scalar in refl) some_link-written refl

abbrev item_named : ℕ → Item
item_named n = record {
  title = n ∷ [];
  enclosure = record { url = n ∷ []; length = n };
  attributes = [];
  comments = [];
}

abbrev two_feeds : List Feed
two_feeds =
    feed_of (pos 0) 2 (item_named 97 ∷ item_named 98 ∷ [])
    ∷ feed_of (pos 0) 2 (item_named 98 ∷ item_named 99 ∷ [])
    ∷ []

merged-distinct_example :
    (distinct (urls (merged two_feeds)) ≡ true)
    × (is_member (98 ∷ []) (urls (merged two_feeds))
        ≡ is_member (98 ∷ []) (urls (all_items two_feeds)))
merged-distinct_example = merged-distinct (98 ∷ []) two_feeds

merged_feed-cut_example :
    (merged_feed (map (cut 2) two_feeds) (pos 1) (pos 1)).channel.item
    ≡ (merged_feed two_feeds (pos 1) (pos 1)).channel.item
merged_feed-cut_example =
    merged_feed-cut two_feeds 1 1
      (unfold distinct is_member amarr.Py.Equality.eq_text in (refl, (refl, tt)))
