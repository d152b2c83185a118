-- ===== src/Category/History.antt =====
-- The store after a history of operations: the last word on each hash and on each name counts.
use amarr.Prelude.{
  ◌≡◌, refl, ap, ◌∙◌, true, Option, none, some, List, [], ◌∷◌, arith, if◌then◌else◌,
}
use amarr.Py.Seq.{Text}
use amarr.Py.Equality.{eq_text, eq_text_iff}
use amarr.Py.Table
use amarr.Category.Store.{
  Category, CategoryStore, empty_store, rows_to_set, get_category, get_categories,
}
use amarr.Category.Laws.{
  Operation, store_op, delete_op, add_op, run, run_all, run-refines, path_of, run_all-IsKeyed,
  empty_store-IsKeyed,
}

-- The category that was last stored under a hash and not deleted since; the second argument is what
-- held before.
abbrev pub last_category : Text → Option Text → List Operation → Option Text
last_category hash before [] = before
last_category hash before (store_op category h ∷ ops) =
    last_category hash (if eq_text h hash then some category else before) ops
last_category hash before (delete_op h ∷ ops) =
    last_category hash (if eq_text h hash then none else before) ops
last_category hash before (add_op c ∷ ops) = last_category hash before ops

-- The path with which a category of the name was last added.
abbrev pub last_path : Text → Option Text → List Operation → Option Text
last_path name before [] = before
last_path name before (add_op c ∷ ops) =
    last_path name (if eq_text c.name name then some c.save_path else before) ops
last_path name before (store_op category h ∷ ops) = last_path name before ops
last_path name before (delete_op h ∷ ops) = last_path name before ops

-- The paths of all categories of a name.
abbrev pub paths_named : Text → List Category → List Text
paths_named name [] = []
paths_named name (c ∷ cs) =
    let rest = paths_named name cs in if eq_text c.name name then c.save_path ∷ rest else rest

abbrev pub to_list {ℓ} : {A : Type ℓ} → Option A → List A
to_list none = []
to_list (some a) = a ∷ []

paths_named-absent :
    (name : Text) (rows : List (Text × Text))
    → Table.absent eq_text name rows ≡ true
    → paths_named name (rows_to_set rows) ≡ []
unfolding Table.absent
paths_named-absent name [] absent = refl
paths_named-absent name ((n, path) ∷ rows) absent =
    ground (arith, paths_named-absent name rows, eq_text_iff n name, eq_text_iff name n)

paths_named-unique :
    (name : Text) (rows : List (Text × Text))
    → Table.unique eq_text rows ≡ true
    → paths_named name (rows_to_set rows) ≡ to_list (Table.select eq_text name rows)
unfolding Table.unique Table.select
paths_named-unique name [] unique = refl
paths_named-unique name ((n, path) ∷ rows) unique =
    ground (arith, paths_named-unique name rows, paths_named-absent n rows, eq_text_iff n name)

get_category-run_all :
    (s : CategoryStore) (ops : List Operation) (hash : Text)
    → get_category (run_all s ops) (some hash) ≡ last_category hash (get_category s (some hash)) ops
unfolding run_all
get_category-run_all s [] hash = refl
get_category-run_all s (store_op category h ∷ ops) hash =
    get_category-run_all (run s (store_op category h)) ops hash
    ∙ ap (λ before. last_category hash before ops) ((run-refines s (store_op category h)).0 hash)
get_category-run_all s (delete_op h ∷ ops) hash =
    get_category-run_all (run s (delete_op h)) ops hash
    ∙ ap (λ before. last_category hash before ops) ((run-refines s (delete_op h)).0 hash)
get_category-run_all s (add_op c ∷ ops) hash =
    get_category-run_all (run s (add_op c)) ops hash
    ∙ ap (λ before. last_category hash before ops) ((run-refines s (add_op c)).0 hash)

path_of-run_all :
    (s : CategoryStore) (ops : List Operation) (name : Text)
    → path_of (run_all s ops) name ≡ last_path name (path_of s name) ops
unfolding run_all
path_of-run_all s [] name = refl
path_of-run_all s (store_op category h ∷ ops) name =
    path_of-run_all (run s (store_op category h)) ops name
    ∙ ap (λ before. last_path name before ops) ((run-refines s (store_op category h)).1 name)
path_of-run_all s (delete_op h ∷ ops) name =
    path_of-run_all (run s (delete_op h)) ops name
    ∙ ap (λ before. last_path name before ops) ((run-refines s (delete_op h)).1 name)
path_of-run_all s (add_op c ∷ ops) name =
    path_of-run_all (run s (add_op c)) ops name
    ∙ ap (λ before. last_path name before ops) ((run-refines s (add_op c)).1 name)

-- After any operations on a new database, a hash has the category that was last stored under it and not
-- deleted since, and the categories that are listed hold each name that was added exactly once, with the
-- path with which it was last added.
pub run_all-last :
    (ops : List Operation) (hash name : Text)
    → (get_category (run_all empty_store ops) (some hash) ≡ last_category hash none ops)
      × (paths_named name (get_categories (run_all empty_store ops))
          ≡ to_list (last_path name none ops))
unfolding get_category get_categories Table.select
run_all-last ops hash name =
    let keyed = run_all-IsKeyed empty_store ops empty_store-IsKeyed in
    (
      get_category-run_all empty_store ops hash,
      paths_named-unique name (run_all empty_store ops).categories keyed.names
          ∙ ap to_list (path_of-run_all empty_store ops name),
    )
