-- ===== src/Tests/Answers.antt =====
-- Responses of aMule, read from packets.
use amarr.Prelude.{◌≡◌, refl, [], ◌∷◌, arith, inl, inr}
use amarr.Py.Result.{Exc, ok, err}
use amarr.Ec.OpCode.{ec_op_noop, ec_op_search_results, ec_op_set_preferences}
use amarr.Ec.TagName.{
  ec_tag_partfile, ec_tag_searchfile, ec_tag_partfile_size_full, ec_tag_partfile_source_count_xfer,
  ec_tag_partfile_source_count, ec_tag_partfile_status, ec_tag_partfile_name, ec_tag_partfile_hash,
  ec_tag_category, ec_tag_category_title, ec_tag_category_path, ec_tag_category_comment,
  ec_tag_category_prio, ec_tag_category_color,
}
use amarr.Ec.Tag.{Tag, tag, name, subtags, value, nil, cons, ubyte, uint, string, hash16}
use amarr.Ec.Tag.Find.{append_tags}
use amarr.Jamule.Model.{AmuleCategory}
use amarr.Jamule.Request.{leaf, request}
use amarr.Jamule.Response.{noop, search_results, prefs_categories, response_of, parse}
use amarr.Jamule.Response.Lists.{SearchFile, queued}
use amarr.Jamule.Response.Connected.{int_to_ipv4}
use amarr.Jamule.Response.Answers.{announced_by, parse-announced_by}
use amarr.Jamule.Response.Described.{
  IsSearchResult, IsCategoryTag, categories_container, parse-tags_of, parse-foreign_tag,
}
use amarr.Jamule.Response.Addresses.{IsAddressOf, int_to_ipv4-IsAddressOf}

parse-announced_by_example : ec_op_noop ≡ announced_by noop
parse-announced_by_example =
    parse-announced_by (request ec_op_noop nil) noop (unfold parse response_of in refl)

abbrev pub some_file : SearchFile
some_file = record {
  file_name = 97 ∷ 46 ∷ 99 ∷ [];
  hash = 1 ∷ 2 ∷ 3 ∷ 4 ∷ 5 ∷ 6 ∷ 7 ∷ 8 ∷ 9 ∷ 10 ∷ 11 ∷ 12 ∷ 13 ∷ 14 ∷ 15 ∷ 16 ∷ [];
  size_full = 700_000_000;
  download_status = queued;
  complete_source_count = 3;
  source_count = 12;
}

abbrev pub some_category : AmuleCategory
some_category = record {
  id = 2;
  name = 116 ∷ 118 ∷ [];
  path = 47 ∷ 116 ∷ 118 ∷ [];
  comment = [];
  color = 255;
  priority = 1;
}

-- Numbers in the smallest class, and the counts first.
abbrev file_tag : Tag
file_tag = tag ec_tag_searchfile ec_tag_searchfile (ubyte 7) (
    cons (leaf ec_tag_partfile_source_count (ubyte 12)) (
      cons (leaf ec_tag_partfile_source_count_xfer (ubyte 3)) (
        cons (leaf ec_tag_partfile_status (ubyte 2)) (
          cons (leaf ec_tag_partfile_name (string some_file.file_name)) (
            cons (leaf ec_tag_partfile_size_full (uint 700_000_000))
              (cons (leaf ec_tag_partfile_hash (hash16 some_file.hash)) nil))))))

file_tag-IsSearchResult : IsSearchResult file_tag some_file
unfolding name subtags value
file_tag-IsSearchResult = record {
  is_named = refl;
  file_name = refl;
  hash = refl;
  status = refl;
  size = inl (inr (inr refl));
  sources = inl refl;
  complete = inl refl;
}

abbrev category_tag : Tag
category_tag = tag ec_tag_category ec_tag_category (ubyte 2) (
    cons (leaf ec_tag_category_title (string some_category.name)) (
      cons (leaf ec_tag_category_path (string some_category.path)) (
        cons (leaf ec_tag_category_comment (string [])) (
          cons (leaf ec_tag_category_color (ubyte 255))
            (cons (leaf ec_tag_category_prio (ubyte 1)) nil)))))

category_tag-IsCategoryTag : IsCategoryTag category_tag some_category
unfolding name subtags value
category_tag-IsCategoryTag = record {
  is_named = refl;
  id = inl (inl refl);
  title = refl;
  path = refl;
  comment = refl;
  priority = refl;
  color = (ubyte 255, refl, inl refl);
}

parse-tags_of_example :
    (parse (request ec_op_search_results (cons file_tag nil))
      ≡ ok (search_results (some_file ∷ [])))
    × (parse (
          request ec_op_set_preferences
            (categories_container ((category_tag, some_category) ∷ []) [] nil))
        ≡ ok (prefs_categories (some_category ∷ [])))
parse-tags_of_example =
    parse-tags_of ((file_tag, some_file) ∷ []) ((category_tag, some_category) ∷ []) [] nil
      (file_tag-IsSearchResult, tt) (category_tag-IsCategoryTag, tt)

abbrev foreign_tag : Tag
foreign_tag = leaf ec_tag_partfile (ubyte 1)

parse-foreign_tag_example :
    (e : Exc) × (parse
        (request ec_op_search_results (append_tags (cons file_tag nil) (cons foreign_tag nil)))
      ≡ err e)
parse-foreign_tag_example =
    parse-foreign_tag (cons file_tag nil) nil foreign_tag (unfold name in λ e. absurd (omega arith))

int_to_ipv4-IsAddressOf_example : IsAddressOf (int_to_ipv4 3_232_235_777) 3_232_235_777
int_to_ipv4-IsAddressOf_example = int_to_ipv4-IsAddressOf 3_232_235_777 (omega arith)
