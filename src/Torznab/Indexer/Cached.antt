-- ===== src/Torznab/Indexer/Cached.antt =====
-- A search that is repeated, and one that fails: what the cache of an engine does.
use amarr.Prelude.{
  ℕ, ◌+◌, ◌≤◌, ◌<◌, ◌≡◌, refl, ◌∙◌, true, false, none, some, List, [], map, arith, ltb,
  if◌then◌else◌,
}
use amarr.Py.Result.{Exc, ok, err}
use amarr.Py.Seq.{Text}
use amarr.Py.Equality.{eq_text_refl}
use amarr.Jamule.Response.Lists.{SearchFile}
use amarr.Cache.{SearchCache, Key, same_key}
use amarr.Cache
use amarr.Cache.Laws.{as_new, bytes_hashes, get-put}
use amarr.Torznab.Indexer.{Engine, is_search_error, use_cache, lookup, raw_search_cached}

module _ {W : Type 0} (ttl : ℕ) (engine : Engine W) where
  stored :
      (query : Text) (results : List SearchFile) (cache : SearchCache) (w' v : W)
      → 0 < ttl
      → bytes_hashes results ≡ true
      → engine.now v ≤ engine.now w' + ttl
      → Cache.get ttl
          (engine.now v)
          (engine.cache_key, query)
          (Cache.put ttl (engine.now w') (engine.cache_key, query) results cache)
        ≡ some (map as_new results)
  unfolding same_key
  stored query results cache w' v positive hashes fresh =
      let key : Key = (engine.cache_key, query) in
      let early : ltb (engine.now w' + ttl) (engine.now v) ≡ false = ground arith in
      get-put ttl (engine.now w') (engine.now v) key key results cache positive hashes
      ∙ rw (eq_text_refl engine.cache_key, eq_text_refl query, early) refl

  -- A search that is not in the cache asks the engine, and its results are kept: when it is repeated
  -- within the time to live, it gives the same results, as new ones, and the engine is not asked.
  pub raw_search_cached_again :
      (query : Text) (results : List SearchFile) (cache : SearchCache) (w w' v : W)
      → 0 < ttl
      → use_cache ttl engine ≡ true
      → bytes_hashes results ≡ true
      → lookup ttl engine true query cache w ≡ none
      → engine.raw_search query w ≡ (ok results, w')
      → engine.now v ≤ engine.now w' + ttl
      → let (found, (kept, after)) = raw_search_cached ttl engine query (cache, w) in
        (found ≡ ok results)
        × (after ≡ w')
        × (raw_search_cached ttl engine query (kept, v) ≡ (ok (map as_new results), (kept, v)))
  unfolding raw_search_cached
  raw_search_cached_again query results cache w w' v positive on hashes miss asked fresh = (
    rw (on, miss, asked) refl,
    rw (on, miss, asked) refl,
    rw (on, miss, asked, on, stored query results cache w' v positive hashes fresh) refl,
  )

  -- A search that fails for want of the network or of good data gives no results and leaves the cache
  -- as it was, so that the next one asks the engine again; any other exception goes through.
  pub raw_search_cached-error :
      (query : Text) (cache : SearchCache) (w w' : W) (e : Exc)
      → lookup ttl engine (use_cache ttl engine) query cache w ≡ none
      → engine.raw_search query w ≡ (err e, w')
      → raw_search_cached ttl engine query (cache, w)
        ≡ (if is_search_error e then ok [] else err e, (cache, w'))
  unfolding raw_search_cached
  raw_search_cached-error query cache w w' e miss failed = rw (miss, failed) refl
