-- ===== src/Cache/Laws.antt =====
-- A lookup after an insertion: what is found, for how long, and under which key.
use amarr.Prelude.{
  ℕ, ◌+◌, ◌<◌, ◌≡◌, refl, ap, ◌↔◌, Bool, true, false, ◌&&◌, none, some, List, [], ◌∷◌, map, arith,
  ltb, ◌==◌, if◌then◌else◌,
}
use amarr.Py.Result.{ok}
use amarr.Py.Equality.{eq_text_iff}
use amarr.Py.Table
use amarr.Jamule.Hex.{all_bytes, from_hex-hex}
use amarr.Jamule.Response.Lists.{SearchFileDownloadStatus, SearchFile}
use amarr.Cache.{Row, Key, SearchCache, serialize, deserialize, same_key, get, put, fresh}

same_key_iff : (j k : Key) → (same_key j k ≡ true) ↔ (j ≡ k)
unfolding same_key
same_key_iff (a, b) (c, d) = (
  (λ h.
      let left : a ≡ c = (eq_text_iff a c).0 (ground arith) in
      let right : b ≡ d = (eq_text_iff b d).0 (ground arith) in (λ i. (left i, right i))),
  (λ e.
      rw
        (
          (eq_text_iff a c).1 (ap (λ (k : Key). k.0) e),
          (eq_text_iff b d).1 (ap (λ (k : Key). k.1) e),
        )
        refl),
)

-- The status is not stored.
abbrev pub as_new : SearchFile → SearchFile
as_new f = record f { download_status = SearchFileDownloadStatus.new }

unfoldable pub bytes_hashes : List SearchFile → Bool
bytes_hashes [] = true
bytes_hashes (f ∷ fs) = all_bytes f.hash && bytes_hashes fs

deserialize-serialize :
    (results : List SearchFile)
    → bytes_hashes results ≡ true
    → deserialize (serialize results) ≡ ok (map as_new results)
unfolding serialize deserialize bytes_hashes
deserialize-serialize [] h = refl
deserialize-serialize (f ∷ fs) h =
    rw (from_hex-hex f.hash (ground arith), deserialize-serialize fs (ground arith)) refl

-- With a time to live above 0 and hashes of bytes, a lookup after an insertion finds the inserted results
-- under their key, with the status set back to new, until they expire; then it misses; under every
-- other key it finds what it did before.
pub get-put :
    (ttl now later : ℕ) (key other : Key) (results : List SearchFile) (cache : SearchCache)
    → 0 < ttl
    → bytes_hashes results ≡ true
    → get ttl later other (put ttl now key results cache) ≡ (
        if same_key key other
        then (if ltb (now + ttl) later then none else some (map as_new results))
        else get ttl later other cache)
unfolding get put
get-put ttl now later key other results cache positive h =
    let on : (ttl == 0) ≡ false = ground arith in
    let row : Row = record { created_at = now; payload = serialize results } in
    rw (on, Table.select-insert_or_replace same_key same_key_iff key other row cache)
      (found (same_key key other))
  where
    found :
        (b : Bool)
        → fresh ttl later (
            if b
            then some (record { created_at = now; payload = serialize results })
            else Table.select same_key other cache)
          ≡ (if b
              then (if ltb (now + ttl) later then none else some (map as_new results))
              else fresh ttl later (Table.select same_key other cache))
    found true = rw (deserialize-serialize results h) refl
    found false = refl
