-- ===== src/Torznab/Api.antt =====
-- The queries of torznab/api.py.
use amarr.Prelude.{Option, none, some, List, [], ◌∷◌, ◌++◌, if◌then◌else◌}
use amarr.Prelude.Int.{ℤ}
use amarr.Py.Result.{Result, ok, err}
use amarr.Py.Seq.{Text}
use amarr.Py.Decimal.{int, int_text}
use amarr.Torznab.Indexer.Query.{Unicode, is_blank}

pub data SearchMode : Type 0 where
  default tv : SearchMode

abbrev or_none : Result ℤ → Option ℤ
or_none (ok n) = some n
or_none (err e) = none

abbrev or_default : ℤ → Option ℤ → ℤ
or_default fallback none = fallback
or_default fallback (some n) = n

-- `_to_int_or_none` and `_to_int`: `int` raises nothing but `ValueError`.
unfoldable pub to_int_or_none : Option Text → Option ℤ
to_int_or_none none = none
to_int_or_none (some t) = or_none (int t)

unfoldable pub to_int : Option Text → ℤ → ℤ
to_int value fallback = or_default fallback (to_int_or_none value)

-- `str(n).zfill(2)`: the zeros come after a sign.
abbrev pub two_digits : Text → Text
two_digits [] = 48 ∷ 48 ∷ []
two_digits (c ∷ []) = 48 ∷ c ∷ []
two_digits (c ∷ d ∷ cs) = c ∷ d ∷ cs

abbrev pub padded_text : ℤ → Text
padded_text n = two_digits (int_text n)

abbrev pub episode_queries : Text → ℤ → ℤ → List Text
episode_queries query season episode =
    (query ++ 32 ∷ 83 ∷ (padded_text season ++ 69 ∷ padded_text episode))
    ∷ (query ++ 32 ∷ (int_text season ++ 120 ∷ padded_text episode))
    ∷ (query ++ 32 ∷ (int_text season ++ padded_text episode))
    ∷ []

abbrev pub numbered_queries : Text → Option ℤ → Option ℤ → List Text
numbered_queries query (some season) (some episode) = episode_queries query season episode
numbered_queries query _ _ = query ∷ []

-- `_search_queries`
unfoldable pub search_queries : Unicode → Text → SearchMode → Option Text → Option Text → List Text
search_queries unicode query SearchMode.default season episode = query ∷ []
search_queries unicode query tv season episode =
    if is_blank unicode query
    then query ∷ []
    else numbered_queries query (to_int_or_none season) (to_int_or_none episode)
