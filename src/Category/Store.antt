-- ===== src/Category/Store.antt =====
-- `SqliteCategoryStore` of category/store.py: two tables. A `None` hash matches no row, as in SQL.
use amarr.Prelude.{Option, none, some, List, [], map}
use amarr.Py.Seq.{Text}
use amarr.Py.Equality.{eq_text}
use amarr.Py.Table

-- `Category` of torrent/models.py
pub record Category : Type 0 where
  pub name : Text
  pub save_path : Text

pub record CategoryStore : Type 0 where
  pub file_categories : List (Text × Text)
  pub categories : List (Text × Text)

-- `_init_schema` on a new database
abbrev pub empty_store : CategoryStore
empty_store = record { file_categories = []; categories = [] }

-- `store`
unfoldable pub store : CategoryStore → Text → Text → CategoryStore
store s category hash = record s {
  file_categories = Table.insert_or_replace eq_text hash category s.file_categories;
}

-- `get_category`
unfoldable pub get_category : CategoryStore → Option Text → Option Text
get_category s none = none
get_category s (some hash) = Table.select eq_text hash s.file_categories

-- `delete`
unfoldable pub delete : CategoryStore → Text → CategoryStore
delete s hash = record s { file_categories = Table.delete eq_text hash s.file_categories }

-- `add_category`
unfoldable pub add_category : CategoryStore → Category → CategoryStore
add_category s c = record s {
  categories = Table.insert_or_replace eq_text c.name c.save_path s.categories;
}

-- `get_categories`, as the rows of the set
abbrev pub rows_to_set : List (Text × Text) → List Category
rows_to_set rows = map (λ (row : Text × Text). record { name = row.0; save_path = row.1 }) rows

unfoldable pub get_categories : CategoryStore → List Category
get_categories s = rows_to_set s.categories
