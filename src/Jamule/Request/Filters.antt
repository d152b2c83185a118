-- ===== src/Jamule/Request/Filters.antt =====
-- Searches with filters have a form on the wire.
use amarr.Prelude.{
  ℕ, suc, ◌≤◌, some, ◌<◌, ◌≡◌, refl, not, ◌&&◌, ◌==◌, true, Option, none, arith, elem,
}
use amarr.Py.Seq.{Text}
use amarr.Ec.TagName.{
  tag_names, ec_tag_unknown, ec_tag_search_type, ec_tag_search_name, ec_tag_search_file_type,
  ec_tag_search_extension, ec_tag_search_min_size, ec_tag_search_max_size,
  ec_tag_search_availability,
}
use amarr.Ec.OpCode.{ec_op_search_start}
use amarr.Py.Struct.{be_bytes}
use amarr.Ec.Encoding.{ulong_to_bytes}
use amarr.Ec.Tag.{Tags, tag, nil, cons, string, ubyte, subtags, ulong, count}
use amarr.Ec.Tag.Values.{encode_value}
use amarr.Ec.Tag.Wire.{contents_size, content_size, IsEncodable, AreEncodable}
use amarr.Ec.Packet.RoundTrip.{IsSendable}
use amarr.Jamule.Request.{
  leaf, SearchType, search_type_value, search_request, SearchFilters, text_filter, number_filter,
  filter_tags, filters_or_default,
}
use amarr.Jamule.Request.Queries.{IsTextFilter, IsNumberFilter, ArePossibleFilters, IsTagText}
use amarr.Jamule.Request.Leaves.{
  known-IsName, leaf-IsEncodable, text-IsEncodable, request-IsSendable,
}

count-text_filter :
    (n : ℕ) (t : Option Text) (tags : Tags) → count (text_filter n t tags) ≤ suc (count tags)
count-text_filter n none tags = omega arith
count-text_filter n (some t) tags = omega arith

count-number_filter :
    (n : ℕ) (v : Option ℕ) (tags : Tags) → count (number_filter n v tags) ≤ suc (count tags)
count-number_filter n none tags = omega arith
count-number_filter n (some v) tags = omega arith

count-filter_tags : (f : SearchFilters) → count (filter_tags f) ≤ 5
count-filter_tags f = omega (
  arith,
  count-text_filter ec_tag_search_file_type f.filetype _,
  count-text_filter ec_tag_search_extension f.extension _,
  count-number_filter ec_tag_search_min_size f.min_size _,
  count-number_filter ec_tag_search_max_size f.max_size _,
  count-number_filter ec_tag_search_availability f.availability nil,
)

module _ (parse_float : Text → Option Text) where
  search_type_value-small : (type : SearchType) → search_type_value type < 256
  unfolding search_type_value
  search_type_value-small type = ground arith

  text_filter-AreEncodable :
      (n : ℕ) (t : Option Text) (tags : Tags)
      → (elem n tag_names && not (n == ec_tag_unknown)) ≡ true
      → IsTextFilter t
      → AreEncodable parse_float true tags
      → AreEncodable parse_float true (text_filter n t tags)
  text_filter-AreEncodable n none tags name fits rest = rest
  text_filter-AreEncodable n (some t) tags name fits rest =
      (text-IsEncodable parse_float n t name fits, rest)

  number_filter-AreEncodable :
      (n : ℕ) (v : Option ℕ) (tags : Tags)
      → (elem n tag_names && not (n == ec_tag_unknown)) ≡ true
      → IsNumberFilter v
      → AreEncodable parse_float true tags
      → AreEncodable parse_float true (number_filter n v tags)
  unfolding encode_value ulong_to_bytes be_bytes
  number_filter-AreEncodable n none tags name fits rest = rest
  number_filter-AreEncodable n (some v) tags name fits rest =
      (leaf-IsEncodable parse_float n (ulong v) name fits (omega arith), rest)

  filter_tags-AreEncodable :
      (f : SearchFilters) → ArePossibleFilters f → AreEncodable parse_float true (filter_tags f)
  unfolding elem
  filter_tags-AreEncodable f (filetype, extension, min_size, max_size, availability) =
      text_filter-AreEncodable ec_tag_search_file_type f.filetype _ refl filetype (
        text_filter-AreEncodable ec_tag_search_extension f.extension _ refl extension (
          number_filter-AreEncodable ec_tag_search_min_size f.min_size _ refl min_size (
            number_filter-AreEncodable ec_tag_search_max_size f.max_size _ refl max_size (
              number_filter-AreEncodable ec_tag_search_availability f.availability nil refl
                availability tt))))

  pub search-IsSendable :
      (query : Text) (type : SearchType) (filters : Option SearchFilters)
      → IsTagText 8 query
      → ArePossibleFilters (filters_or_default filters)
      → IsSendable parse_float (search_request query type filters)
  unfolding search_request elem encode_value contents_size content_size subtags
  search-IsSendable query type filters (plain, small) possible =
      let name =
        leaf-IsEncodable parse_float ec_tag_search_name (string query) refl plain (omega arith) in
      let whole : IsEncodable parse_float true (
          tag ec_tag_search_type ec_tag_search_type (ubyte (search_type_value type))
            (cons (leaf ec_tag_search_name (string query)) nil)) =
        (
          refl,
          known-IsName ec_tag_search_type refl,
          search_type_value-small type,
          ground arith,
          refl,
          omega arith,
          (name, tt),
        ) in
      let f = filters_or_default filters in
      request-IsSendable parse_float ec_op_search_start (search_request query type filters).tags
        refl (whole, filter_tags-AreEncodable f possible) (omega (arith, count-filter_tags f))
