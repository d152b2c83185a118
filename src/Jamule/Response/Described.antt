-- ===== src/Jamule/Response/Described.antt =====
-- Lists of search results and of categories as tags, and what jamule/response.py reads from them.
use amarr.Prelude.{ℕ, ◌≡◌, ◌≢◌, refl, true, false, some, List, [], ◌∷◌, ◌==◌, arith}
use amarr.Py.Result.{Exc, Result, ok, err, ◌>>=◌, communication}
use amarr.Ec.OpCode.{ec_op_search_results, ec_op_set_preferences}
use amarr.Ec.TagName.{
  ec_tag_searchfile, ec_tag_partfile_size_full, ec_tag_partfile_source_count_xfer,
  ec_tag_partfile_source_count, ec_tag_partfile_status, ec_tag_partfile_name, ec_tag_partfile_hash,
  ec_tag_category, ec_tag_category_title, ec_tag_category_path, ec_tag_category_comment,
  ec_tag_category_prio, ec_tag_category_color, ec_tag_prefs_categories,
}
use amarr.Py.Seq.{Bytes}
use amarr.Ec.Tag.{Tag, Tags, tag, nil, cons, name, value, subtags, custom, ubyte, string, hash16}
use amarr.Ec.Tag.Find.{append_tags, find_custom, first_of_type, as_numeric, get_int, get_long}
use amarr.Ec.Tag.First.{
  first_value, string_value-first_value, hash_value-first_value, byte_value-first_value,
}
use amarr.Jamule.Response.Numbers.{
  IsInt, IsLong, OrZero, Required, required_number-Required, number_or-OrZero, get_int-IsInt,
  get_long-IsLong,
}
use amarr.Jamule.Model.{AmuleCategory}
use amarr.Jamule.Request.{request}
use amarr.Jamule.Response.Lists.{
  SearchFileDownloadStatus, new, downloaded, queued, canceled, queuedcanceled, SearchFile,
  from_ec_status, search_file, search_files, read_named, category,
}
use amarr.Jamule.Response.Lists
use amarr.Jamule.Response.{search_results, prefs_categories, response_of, parse}

abbrev pub status_value : SearchFileDownloadStatus → ℕ
status_value new = 0
status_value downloaded = 1
status_value queued = 2
status_value canceled = 3
status_value queuedcanceled = 4

-- The tag of a search result: its subtags in any order, among others.
pub record IsSearchResult (t : Tag) (f : SearchFile) : Type 0 where
  pub is_named : name t ≡ ec_tag_searchfile
  pub file_name : first_value ec_tag_partfile_name (subtags t) ≡ some (string f.file_name)
  pub hash : first_value ec_tag_partfile_hash (subtags t) ≡ some (hash16 f.hash)
  pub status :
      first_value ec_tag_partfile_status (subtags t) ≡ some (ubyte (status_value f.download_status))
  pub size : OrZero IsLong f.size_full (first_value ec_tag_partfile_size_full (subtags t))
  pub sources : OrZero IsInt f.source_count (first_value ec_tag_partfile_source_count (subtags t))
  pub complete :
      OrZero IsInt f.complete_source_count
        (first_value ec_tag_partfile_source_count_xfer (subtags t))

-- The tag of a category.
pub record IsCategoryTag (t : Tag) (c : AmuleCategory) : Type 0 where
  pub is_named : name t ≡ ec_tag_category
  pub id : IsLong c.id (value t)
  pub title : first_value ec_tag_category_title (subtags t) ≡ some (string c.name)
  pub path : first_value ec_tag_category_path (subtags t) ≡ some (string c.path)
  pub comment : first_value ec_tag_category_comment (subtags t) ≡ some (string c.comment)
  pub priority : first_value ec_tag_category_prio (subtags t) ≡ some (ubyte c.priority)
  pub color : Required IsInt c.color (first_value ec_tag_category_color (subtags t))

-- Tags with what they describe
module _ {A : Type 0} where
  abbrev pub tags_of : List (Tag × A) → Tags
  tags_of [] = nil
  tags_of ((t, a) ∷ entries) = cons t (tags_of entries)

  abbrev pub described : List (Tag × A) → List A
  described [] = []
  described ((t, a) ∷ entries) = a ∷ described entries

  abbrev pub All : (Tag → A → Type 0) → List (Tag × A) → Type 0
  All P [] = Unit {0}
  All P ((t, a) ∷ entries) = P t a × All P entries

from_ec_status-status_value :
    (s : SearchFileDownloadStatus) → from_ec_status (status_value s) ≡ ok s
unfolding from_ec_status
from_ec_status-status_value new = refl
from_ec_status-status_value downloaded = refl
from_ec_status-status_value queued = refl
from_ec_status-status_value canceled = refl
from_ec_status-status_value queuedcanceled = refl

search_file-IsSearchResult : (t : Tag) (f : SearchFile) → IsSearchResult t f → search_file t ≡ ok f
unfolding search_file
search_file-IsSearchResult t f r =
    let named : (name t == ec_tag_searchfile) ≡ true = ground (arith, r.is_named) in
    rw
      (
        named,
        byte_value-first_value ec_tag_partfile_status _ (subtags t) r.status,
        string_value-first_value ec_tag_partfile_name f.file_name (subtags t) r.file_name,
        hash_value-first_value ec_tag_partfile_hash f.hash (subtags t) r.hash,
        number_or-OrZero IsLong get_long ec_tag_partfile_size_full f.size_full (subtags t) _
            (get_long-IsLong f.size_full) refl r.size,
        from_ec_status-status_value f.download_status,
        number_or-OrZero IsInt get_int ec_tag_partfile_source_count_xfer f.complete_source_count
            (subtags t) _ (get_int-IsInt f.complete_source_count) refl r.complete,
        number_or-OrZero IsInt get_int ec_tag_partfile_source_count f.source_count (subtags t) _
            (get_int-IsInt f.source_count) refl r.sources,
      )
      refl

category-IsCategoryTag : (t : Tag) (c : AmuleCategory) → IsCategoryTag t c → category t ≡ ok c
unfolding category as_numeric
category-IsCategoryTag t c r =
    let (numeric, id) = get_long-IsLong c.id (value t) r.id in
    rw
      (
        numeric,
        id,
        string_value-first_value ec_tag_category_title c.name (subtags t) r.title,
        string_value-first_value ec_tag_category_path c.path (subtags t) r.path,
        string_value-first_value ec_tag_category_comment c.comment (subtags t) r.comment,
        byte_value-first_value ec_tag_category_prio c.priority (subtags t) r.priority,
        required_number-Required get_int ec_tag_category_color c.color (subtags t)
            (get_int-IsInt c.color) r.color,
      )
      refl

search_files-tags_of :
    (entries : List (Tag × SearchFile))
    → All IsSearchResult entries
    → search_files (tags_of entries) ≡ ok (described entries)
unfolding search_files
search_files-tags_of [] all = refl
search_files-tags_of ((t, f) ∷ entries) (is, all) =
    rw (search_file-IsSearchResult t f is, search_files-tags_of entries all) refl

read_named-cons :
    {A : Type 0} (read : Tag → Result A) (n : ℕ) (t : Tag) (a : A) (ts : Tags) (more : List A)
    → (name t == n) ≡ true
    → read t ≡ ok a
    → read_named read n ts ≡ ok more
    → read_named read n (cons t ts) ≡ ok (a ∷ more)
unfolding read_named
read_named-cons read n t a ts more named first rest = rw (named, first, rest, read_named) refl

read_named-tags_of :
    (entries : List (Tag × AmuleCategory))
    → All IsCategoryTag entries
    → read_named category ec_tag_category (tags_of entries) ≡ ok (described entries)
unfolding read_named
read_named-tags_of [] all = refl
read_named-tags_of ((t, c) ∷ entries) (is, all) =
    let named : (name t == ec_tag_category) ≡ true = ground (arith, is.is_named) in
    read_named-cons category ec_tag_category t c (tags_of entries) (described entries) named
      (category-IsCategoryTag t c is) (read_named-tags_of entries all)

-- The container of the categories, as the first tag of an answer
abbrev pub categories_container : List (Tag × AmuleCategory) → Bytes → Tags → Tags
categories_container entries bs further =
    cons (tag ec_tag_prefs_categories ec_tag_prefs_categories (custom bs) (tags_of entries)) further

-- Take tags that describe search results: by the first subtag of each name, each has the file's name as a
-- text, the hash, the status as a byte, and the numbers in any class that can be read at their width or,
-- where they are 0, not at all. Then the results come out in the order of the tags. So do the categories
-- in a container that is the first tag of an answer, when each tag has its number as its value and, by the
-- first subtag of each name, the three texts, the priority as a byte and the color in a class of at most 32
-- bits.
pub parse-tags_of :
    (results : List (Tag × SearchFile)) (categories : List (Tag × AmuleCategory)) (bs : Bytes)
    (further : Tags)
    → All IsSearchResult results
    → All IsCategoryTag categories
    → (parse (request ec_op_search_results (tags_of results))
        ≡ ok (search_results (described results)))
      × (parse (request ec_op_set_preferences (categories_container categories bs further))
          ≡ ok (prefs_categories (described categories)))
unfolding parse response_of find_custom first_of_type name subtags value Lists.prefs_categories
parse-tags_of results categories bs further are_results are_categories = (
  rw (search_files-tags_of results are_results) refl,
  rw (read_named-tags_of categories are_categories) refl,
)

-- A step that raises, or is followed by one that does, raises.
abbrev Raises {ℓ} : {A : Type ℓ} → Result A → Type ℓ
Raises r = (e : Exc) × (r ≡ err e)

>>=-Raises :
    {A B : Type 0} (step : Result A) (next : A → Result B)
    → ((a : A) → Raises (next a))
    → Raises (step >>= next)
>>=-Raises (ok a) next later = later a
>>=-Raises (err e) next later = (e, refl)

search_files-Raises :
    (before after : Tags) (t : Tag)
    → (name t == ec_tag_searchfile) ≡ false
    → Raises (search_files (append_tags before (cons t after)))
unfolding search_files search_file
search_files-Raises nil after t other = rw (other) (communication, refl)
search_files-Raises (cons u us) after t other =
    let (e, raised) = search_files-Raises us after t other in
    >>=-Raises (search_file u) _ (λ f. (e, rw (raised) refl))

-- One tag of another name is enough: no search result is returned.
pub parse-foreign_tag :
    (before after : Tags) (t : Tag)
    → name t ≢ ec_tag_searchfile
    → (e : Exc) × (parse (request ec_op_search_results (append_tags before (cons t after))) ≡ err e)
unfolding parse response_of
parse-foreign_tag before after t other =
    let (e, raised) = search_files-Raises before after t (ground arith) in (e, rw (raised) refl)
