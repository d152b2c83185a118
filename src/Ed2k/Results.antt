-- ===== src/Ed2k/Results.antt =====
-- ed2k/core.py: the filter on the words of a query, file names, and `SearchResult`.
use amarr.Prelude.{
  ℕ, ◌+◌, ◌*◌, ◌^◌, Bool, true, false, ◌&&◌, ◌||◌, Option, none, some, List, [], ◌∷◌, ltb, ◌==◌,
  if◌then◌else◌,
}
use amarr.Prelude.{elem}
use amarr.Py.Result.{Result, ok, err, type_error, ◌>>=◌}
use amarr.Py.Seq.{Bytes, Text}
use amarr.Torznab.Indexer.Query.{Unicode, is_blank, without_marks}
use amarr.Ed2k.Tags.{
  TagName, special, long, TagValue, text, number, float, boolean, nothing, same_name,
}
use amarr.Ed2k.Server.{Found, TagMap, words_of}

abbrev pub ft_filename : TagName
ft_filename = special 0x01

abbrev pub ft_filesize : TagName
ft_filesize = special 0x02

abbrev pub ft_filesize_hi : TagName
ft_filesize_hi = special 0x3A

abbrev pub ft_sources : TagName
ft_sources = special 0x15

abbrev pub ft_complete_sources : TagName
ft_complete_sources = special 0x30

-- `"kad_sources"`
abbrev pub kad_sources : TagName
kad_sources = long (107 ∷ 97 ∷ 100 ∷ 95 ∷ 115 ∷ 111 ∷ 117 ∷ 114 ∷ 99 ∷ 101 ∷ 115 ∷ [])

-- `unicodedata.normalize("NFKD", _)` and `str.casefold`, beside the tables of Unicode
pub record Folding : Type 0 where
  pub unicode : Unicode
  pub normalize : Text → Text
  pub casefold : Text → Text

-- `tags.get(name)`
unfoldable pub get_tag : TagName → TagMap → Option TagValue
get_tag name [] = none
get_tag name ((n, v) ∷ tags) =
    let later = get_tag name tags in if same_name n name then some v else later

-- `_fold`
unfoldable pub fold : Folding → Text → Text
fold f s = f.casefold (without_marks f.unicode (f.normalize s))

unfoldable pub fold_words : Folding → List Text → List Text
fold_words f [] = []
fold_words f (w ∷ words) =
    let rest = fold_words f words in if is_blank f.unicode w then rest else fold f w ∷ rest

-- `w in low`
unfoldable pub starts_with : Text → Text → Bool
starts_with [] s = true
starts_with (c ∷ cs) [] = false
starts_with (c ∷ cs) (d ∷ ds) = c == d && starts_with cs ds

unfoldable pub is_in : Text → Text → Bool
is_in w [] = starts_with w []
is_in w (c ∷ cs) = starts_with w (c ∷ cs) || is_in w cs

unfoldable pub all_in : List Text → Text → Bool
all_in [] low = true
all_in (w ∷ words) low = is_in w low && all_in words low

-- The name of a file, folded: none, or a value that is no text, counts as the empty text.
abbrev folded_name : Folding → Option TagValue → Text
folded_name f none = fold f []
folded_name f (some (text s)) = fold f s
folded_name f (some _) = []

unfoldable pub keep_matching : Folding → List Text → List Found → List Found
keep_matching f words [] = []
keep_matching f words ((hash, tags) ∷ results) =
    let rest = keep_matching f words results in
    if all_in words (folded_name f (get_tag ft_filename tags)) then (hash, tags) ∷ rest else rest

abbrev matching : Folding → List Text → List Found → List Found
matching f [] results = results
matching f (w ∷ words) results = keep_matching f (w ∷ words) results

-- `filter_by_query`
unfoldable pub filter_by_query : Folding → List Found → Text → List Found
filter_by_query f results query = matching f (fold_words f (words_of f.unicode query)) results

-- `sanitize_filename`, with "_" for what is no part of a file name
abbrev is_invalid : ℕ → Bool
is_invalid c = ltb c 32 || c == 0xFFFD || elem c (60 ∷ 62 ∷ 58 ∷ 34 ∷ 47 ∷ 92 ∷ 124 ∷ 63 ∷ 42 ∷ [])

unfoldable pub replace_invalid : Text → Text
replace_invalid [] = []
replace_invalid (c ∷ cs) =
    let rest = replace_invalid cs in if is_invalid c then 95 ∷ rest else c ∷ rest

-- `rstrip(" .")`
abbrev add_unless_trailing : ℕ → Text → Text
add_unless_trailing c [] = if c == 32 || c == 46 then [] else c ∷ []
add_unless_trailing c (d ∷ rest) = c ∷ d ∷ rest

unfoldable pub rstrip_dots : Text → Text
rstrip_dots [] = []
rstrip_dots (c ∷ cs) = add_unless_trailing c (rstrip_dots cs)

abbrev or_no_name : Text → Text
or_no_name [] = 110 ∷ 111 ∷ 95 ∷ 110 ∷ 97 ∷ 109 ∷ 101 ∷ []
or_no_name (c ∷ cs) = c ∷ cs

unfoldable pub sanitize_filename : Text → Text
sanitize_filename name = or_no_name (rstrip_dots (replace_invalid name))

-- A size is the value of its tag, or a float and the integer that was added to it.
pub data Size : Type 0 where
  plain : TagValue → Size
  float_plus : Bytes → ℕ → Size

pub record SearchResult : Type 0 where
  pub file_hash : Bytes
  pub name : Text
  pub raw_name : Text
  pub size : Size
  pub sources : TagValue
  pub complete_sources : TagValue
  pub tags : TagMap

abbrev bool_number : Bool → ℕ
bool_number true = 1
bool_number false = 0

-- `size + high`, and `tags[FT_FILESIZE_HI] << 32`
abbrev plus : TagValue → ℕ → Result Size
plus (number n) high = ok (plain (number (n + high)))
plus (boolean b) high = ok (plain (number (bool_number b + high)))
plus (float bs) high = ok (float_plus bs high)
plus _ high = err type_error

abbrev shifted : TagValue → Result ℕ
shifted (number n) = ok (n * 2 ^ 32)
shifted (boolean b) = ok (bool_number b * 2 ^ 32)
shifted _ = err type_error

abbrev value_or : TagValue → Option TagValue → TagValue
value_or default none = default
value_or default (some v) = v

abbrev size_of : TagValue → Option TagValue → Result Size
size_of low none = ok (plain low)
size_of low (some v) = do high ← shifted v; plus low high

abbrev raw_name_of : Option TagValue → Text
raw_name_of (some (text (c ∷ cs))) = c ∷ cs
raw_name_of _ = 40 ∷ 110 ∷ 111 ∷ 32 ∷ 110 ∷ 97 ∷ 109 ∷ 101 ∷ 41 ∷ []

-- `SearchResult.from_tags`
unfoldable pub from_tags : Bytes → TagMap → Result SearchResult
from_tags file_hash tags = do
  size ← size_of (value_or (number 0) (get_tag ft_filesize tags)) (get_tag ft_filesize_hi tags)
  ok (record {
    file_hash = file_hash;
    name = sanitize_filename (raw_name_of (get_tag ft_filename tags));
    raw_name = raw_name_of (get_tag ft_filename tags);
    size = size;
    sources = value_or (value_or nothing (get_tag ft_sources tags)) (get_tag kad_sources tags);
    complete_sources = value_or nothing (get_tag ft_complete_sources tags);
    tags = tags;
  })

unfoldable pub results_of : List Found → Result (List SearchResult)
results_of [] = ok []
results_of ((hash, tags) ∷ found) = do
  r ← from_tags hash tags
  rest ← results_of found
  ok (r ∷ rest)
