-- ===== src/Torznab/Indexer/Query.antt =====
-- `_normalize_search_query` of torznab/indexer/base.py. The tables of Unicode are a parameter.
use amarr.Prelude.{ℕ, Bool, true, false, not, ◌&&◌, ◌||◌, [], ◌∷◌, if◌then◌else◌}
use amarr.Py.Seq.{Text}

-- `unicodedata.normalize("NFD", _)`, `unicodedata.combining`, `\w`, `\s` and `str.lower`
pub record Unicode : Type 0 where
  pub decompose : Text → Text
  pub combining : ℕ → Bool
  pub is_word : ℕ → Bool
  pub is_space : ℕ → Bool
  pub lower : Text → Text

-- `not query.strip()`
unfoldable pub is_blank : Unicode → Text → Bool
is_blank unicode [] = true
is_blank unicode (c ∷ cs) = unicode.is_space c && is_blank unicode cs

module _ (unicode : Unicode) where
  -- The characters that are no combining marks
  unfoldable pub without_marks : Text → Text
  without_marks [] = []
  without_marks (c ∷ cs) =
      let rest = without_marks cs in if unicode.combining c then rest else c ∷ rest

  abbrev pub is_symbol : ℕ → Bool
  is_symbol c = not (unicode.is_word c || unicode.is_space c)

  -- `_NON_WORD_RE.sub(" ", text)` and `_WHITESPACE_RE.sub(" ", text)`: a run gives one space. The flag
  -- says that the character before was in the run.
  unfoldable pub sub_runs : (ℕ → Bool) → Bool → Text → Text
  sub_runs in_run inside [] = []
  sub_runs in_run inside (c ∷ cs) =
      let run = sub_runs in_run true cs in
      let rest = sub_runs in_run false cs in
      if in_run c then (if inside then run else 32 ∷ run) else c ∷ rest

  -- `strip()`
  unfoldable pub lstrip_blanks : Text → Text
  lstrip_blanks [] = []
  lstrip_blanks (c ∷ cs) =
      let rest = lstrip_blanks cs in if unicode.is_space c then rest else c ∷ cs

  unfoldable pub rstrip_blanks : Text → Text
  rstrip_blanks [] = []
  rstrip_blanks (c ∷ cs) =
      let rest = rstrip_blanks cs in if is_blank unicode (c ∷ cs) then [] else c ∷ rest

  -- `_normalize_search_query`
  unfoldable pub normalize_search_query : Text → Text
  normalize_search_query query =
      let spaced = sub_runs is_symbol false (without_marks (unicode.decompose query)) in
      rstrip_blanks (lstrip_blanks (sub_runs unicode.is_space false spaced))
