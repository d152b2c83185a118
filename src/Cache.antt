-- ===== src/Cache.antt =====
-- cache.py: the search results of an engine and a query, kept for a while. A row holds the JSON value
-- of its payload, not its text, and moments are whole numbers of the unit of the time to live.
pub mod Laws
use amarr.Prelude.{
  ℕ, ◌+◌, ◌≡◌, refl, ◌↔◌, Bool, true, false, ◌&&◌, Option, none, some, List, [], ◌∷◌, map, arith,
  ltb, ◌==◌, if◌then◌else◌,
}
use amarr.Py.Result.{Result, ok, err, ◌>>=◌}
use amarr.Py.Seq.{Bytes, Text}
use amarr.Py.Equality.{eq_text, eq_text_iff}
use amarr.Py.Table
use amarr.Jamule.Hex.{hex, from_hex}
use amarr.Jamule.Response.Lists.{SearchFileDownloadStatus, SearchFile}

-- One object of the payload, under the names of its keys.
pub record Item : Type 0 where
  pub n : Text
  pub h : Text
  pub s : ℕ
  pub c : ℕ
  pub p : ℕ

-- `_serialize`
unfoldable pub serialize : List SearchFile → List Item
serialize [] = []
serialize (r ∷ results) =
    record {
      n = r.file_name;
      h = hex r.hash;
      s = r.size_full;
      c = r.complete_source_count;
      p = r.source_count;
    }
    ∷ serialize results

-- `_deserialize`
unfoldable pub deserialize : List Item → Result (List SearchFile)
deserialize [] = ok []
deserialize (d ∷ items) = do
  hash ← from_hex d.h
  results ← deserialize items
  ok (
      record {
        file_name = d.n;
        hash = hash;
        size_full = d.s;
        download_status = SearchFileDownloadStatus.new;
        complete_source_count = d.c;
        source_count = d.p;
      }
      ∷ results)

pub record Row : Type 0 where
  pub created_at : ℕ
  pub payload : List Item

-- `backend` and `query`, the primary key
abbrev pub Key : Type 0
Key = Text × Text

unfoldable pub same_key : Key → Key → Bool
same_key (a, b) (c, d) = eq_text a c && eq_text b d

abbrev pub SearchCache : Type 0
SearchCache = List (Key × Row)

-- `except (ValueError, KeyError, TypeError): return None`
abbrev pub or_miss : Result (List SearchFile) → Option (List SearchFile)
or_miss (ok results) = some results
or_miss (err e) = none

-- The row of a key, unless it has expired.
abbrev pub fresh : ℕ → ℕ → Option Row → Option (List SearchFile)
fresh ttl now none = none
fresh ttl now (some row) =
    if ltb (row.created_at + ttl) now then none else or_miss (deserialize row.payload)

-- `get` at the moment `now`
unfoldable pub get : ℕ → ℕ → Key → SearchCache → Option (List SearchFile)
get ttl now key cache = if ttl == 0 then none else fresh ttl now (Table.select same_key key cache)

-- `put` at the moment `now`
unfoldable pub put : ℕ → ℕ → Key → List SearchFile → SearchCache → SearchCache
put ttl now key results cache =
    if ttl == 0
    then cache
    else Table.insert_or_replace same_key key
        (record { created_at = now; payload = serialize results }) cache
