-- ===== src/Category/Laws.antt =====
-- The store against its abstract view: a map from hashes to categories and one from names to paths.
use amarr.Prelude.{◌≡◌, refl, true, Option, none, some, List, [], ◌∷◌, if◌then◌else◌}
use amarr.Py.Seq.{Text}
use amarr.Py.Equality.{eq_text, eq_text_iff}
use amarr.Py.Table
use amarr.Category.Store.{
  Category, CategoryStore, empty_store, store, get_category, delete, add_category,
}

-- The path of a category in the catalog.
abbrev pub path_of : CategoryStore → Text → Option Text
path_of s name = Table.select eq_text name s.categories

-- What a client can ask of a store.
pub record View : Type 0 where
  pub assigned : Text → Option Text
  pub catalog : Text → Option Text

abbrev pub view : CategoryStore → View
view s = record { assigned = λ hash. get_category s (some hash); catalog = path_of s }

pub data Operation : Type 0 where
  store_op : Text → Text → Operation
  delete_op : Text → Operation
  add_op : Category → Operation

unfoldable pub run : CategoryStore → Operation → CategoryStore
run s (store_op category hash) = store s category hash
run s (delete_op hash) = delete s hash
run s (add_op c) = add_category s c

-- The specification: point updates of the two maps.
abbrev pub update : Text → Option Text → (Text → Option Text) → Text → Option Text
update k v f j = if eq_text k j then v else f j

abbrev pub run_spec : View → Operation → View
run_spec v (store_op category hash) = record v { assigned = update hash (some category) v.assigned }
run_spec v (delete_op hash) = record v { assigned = update hash none v.assigned }
run_spec v (add_op c) = record v { catalog = update c.name (some c.save_path) v.catalog }

abbrev pub SameView : View → View → Type 0
SameView a b = ((k : Text) → a.assigned k ≡ b.assigned k) × ((k : Text) → a.catalog k ≡ b.catalog k)

-- Every operation of the store is the point update of its map, and leaves the other map alone.
pub run-refines :
    (s : CategoryStore) (op : Operation) → SameView (view (run s op)) (run_spec (view s) op)
unfolding run store delete add_category get_category
run-refines s (store_op category hash) = (
  (λ k. Table.select-insert_or_replace eq_text eq_text_iff hash k category s.file_categories),
  (λ k. refl),
)
run-refines s (delete_op hash) =
    ((λ k. Table.select-delete eq_text eq_text_iff hash k s.file_categories), (λ k. refl))
run-refines s (add_op c) = (
  (λ k. refl),
  (λ k. Table.select-insert_or_replace eq_text eq_text_iff c.name k c.save_path s.categories),
)

pub record IsKeyed (s : CategoryStore) : Type 0 where
  pub hashes : Table.unique eq_text s.file_categories ≡ true
  pub names : Table.unique eq_text s.categories ≡ true

unfoldable pub run_all : CategoryStore → List Operation → CategoryStore
run_all s [] = s
run_all s (op ∷ ops) = run_all (run s op) ops

run-IsKeyed : (s : CategoryStore) (op : Operation) → IsKeyed s → IsKeyed (run s op)
unfolding run store delete add_category
run-IsKeyed s (store_op category hash) k = record {
  hashes =
      Table.unique-insert_or_replace eq_text eq_text_iff hash category s.file_categories k.hashes;
  names = k.names;
}
run-IsKeyed s (delete_op hash) k = record {
  hashes = Table.unique-delete eq_text eq_text_iff hash s.file_categories k.hashes;
  names = k.names;
}
run-IsKeyed s (add_op c) k = record {
  hashes = k.hashes;
  names =
      Table.unique-insert_or_replace eq_text eq_text_iff c.name c.save_path s.categories k.names;
}

pub run_all-IsKeyed :
    (s : CategoryStore) (ops : List Operation) → IsKeyed s → IsKeyed (run_all s ops)
unfolding run_all
run_all-IsKeyed s [] k = k
run_all-IsKeyed s (op ∷ ops) k = run_all-IsKeyed (run s op) ops (run-IsKeyed s op k)

pub empty_store-IsKeyed : IsKeyed empty_store
unfolding Table.unique
empty_store-IsKeyed = record { hashes = refl; names = refl }
