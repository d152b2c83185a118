-- ===== src/Torznab/Merge.antt =====
-- torznab/indexer/aggregate.py and `_perform_queries` of torznab/api.py: feeds merged into one.
pub mod Distinct
pub mod Pages
use amarr.Prelude.{
  ℕ, Bool, true, false, ◌||◌, Option, none, some, List, [], ◌∷◌, ◌++◌, if◌then◌else◌, length,
}
use amarr.Prelude.Int.{ℤ, pos, ◌+ℤ◌}
use amarr.Py.Result.{Result, ok, err}
use amarr.Py.Seq.{Text}
use amarr.Py.Stateful.{Stateful, continue, lift, ◌>>=◌}
use amarr.Magnet.{is_member}
use amarr.Torznab.Feed.{Item, Feed}
use amarr.Torznab.Indexer.{page_of, feed_of, empty_query_response}
use amarr.Torznab.Indexer.Query.{Unicode, is_blank}

abbrev pub url_of : Item → Text
url_of i = i.enclosure.url

-- The loop over the items, where `seen` has the URLs so far
unfoldable pub unseen : List Text → List Item → List Item
unseen seen [] = []
unseen seen (i ∷ items) =
    let skipped = unseen seen items in
    let kept = i ∷ unseen (url_of i ∷ seen) items in
    if is_member (url_of i) seen then skipped else kept

-- The items of the feeds, one after the other
unfoldable pub all_items : List Feed → List Item
all_items [] = []
all_items (f ∷ feeds) = f.channel.item ++ all_items feeds

unfoldable pub merged : List Feed → List Item
merged feeds = unseen [] (all_items feeds)

unfoldable pub merged_feed : List Feed → ℤ → ℤ → Feed
merged_feed feeds offset limit =
    feed_of offset (length (merged feeds)) (page_of (merged feeds) offset limit)

-- The feeds of the engines that did not fail, in the order of the engines
unfoldable pub feeds_of : List (Result Feed) → List Feed
feeds_of [] = []
feeds_of (ok f ∷ results) = f ∷ feeds_of results
feeds_of (err e ∷ results) = feeds_of results

-- `AggregateIndexer.search`. `run` gives what the engines' searches return, which run in parallel.
unfoldable pub aggregate :
    {W : Type 0}
    → Unicode
    → (Text → ℤ → ℤ → W → List (Result Feed) × W)
    → Text
    → ℤ
    → ℤ
    → Stateful W Feed
aggregate unicode run query offset limit w =
    let (results, w') = run query (pos 0) (offset +ℤ limit) w in
    if is_blank unicode query
    then (ok empty_query_response, w)
    else (ok (merged_feed (feeds_of results) offset limit), w')

module _ {W : Type 0} (search : Text → ℤ → ℤ → Stateful W Feed) where
  -- Every query, from 0 up to the end of the page
  unfoldable pub search_each : List Text → ℤ → Stateful W (List Feed)
  search_each [] raw_limit = lift (ok [])
  search_each (q ∷ queries) raw_limit = do
    feed ← search q (pos 0) raw_limit
    feeds ← search_each queries raw_limit
    lift (ok (feed ∷ feeds))

  -- `_perform_queries`
  unfoldable pub perform_queries : List Text → ℤ → ℤ → Stateful W Feed
  perform_queries (q ∷ []) offset limit = search q offset limit
  perform_queries queries offset limit = do
    feeds ← search_each queries (offset +ℤ limit)
    lift (ok (merged_feed feeds offset limit))
