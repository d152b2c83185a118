-- ===== src/Torrent/Info/Merge.antt =====
-- The merge of aMule's lists in torrent/service.py: which hashes the view shows, and that it shows each once.
use amarr.Prelude.{
  ◌≡◌, refl, ap, Bool, true, false, not, ◌&&◌, ◌||◌, Option, List, [], ◌∷◌, ◌++◌, map, arith,
}
use amarr.Py.Seq.{Text}
use amarr.Py.Equality.{eq_optional_iff}
use amarr.Jamule.Model.SharedFile.{SharedFileTag}
use amarr.Jamule.Model.PartFile.{PartFileTag}
use amarr.Torrent.Info.{
  shared_file, part_file, hash_of, part_hash, shared_hash, occurs, keep_if, merge_files,
}

abbrev Hashes : Type 0
Hashes = List (Option Text)

occurs-append :
    (h : Option Text) (xs ys : Hashes) → occurs h (xs ++ ys) ≡ (occurs h xs || occurs h ys)
unfolding occurs
occurs-append h [] ys = refl
occurs-append h (x ∷ xs) ys = ground (arith, occurs-append h xs ys)

occurs-later : (h x : Option Text) (xs : Hashes) → occurs h xs ≡ true → occurs h (x ∷ xs) ≡ true
unfolding occurs
occurs-later h x xs o = ground arith

-- Every hash differs from the later ones.
unfoldable pub distinct : Hashes → Bool
distinct [] = true
distinct (x ∷ xs) = not (occurs x xs) && distinct xs

distinct-append :
    (xs ys : Hashes)
    → distinct xs ≡ true
    → distinct ys ≡ true
    → ((h : Option Text) → occurs h xs ≡ true → occurs h ys ≡ false)
    → distinct (xs ++ ys) ≡ true
unfolding distinct occurs
distinct-append [] ys dx dy sep = dy
distinct-append (x ∷ xs) ys dx dy sep =
    let here : occurs x (x ∷ xs) ≡ true = rw ((eq_optional_iff x x).1 refl) refl in
    let fresh = sep x here in
    let rest = λ (d : distinct xs ≡ true).
      distinct-append xs ys d dy (λ h o. sep h (occurs-later h x xs o)) in
    ground (arith, rest, occurs-append x xs ys, fresh)

-- The hashes of the shared files that are kept.
abbrev kept : Hashes → List SharedFileTag → List SharedFileTag
kept queue shared = keep_if (λ f. not (occurs (shared_hash f) queue)) shared

occurs-kept :
    (h : Option Text) (queue : Hashes) (shared : List SharedFileTag)
    → occurs h (map shared_hash (kept queue shared))
      ≡ (occurs h (map shared_hash shared) && not (occurs h queue))
unfolding occurs keep_if
occurs-kept h queue [] = refl
occurs-kept h queue (f ∷ fs) =
    ground (arith, occurs-kept h queue fs, (eq_optional_iff h (shared_hash f)).0)

distinct-kept :
    (queue : Hashes) (shared : List SharedFileTag)
    → distinct (map shared_hash shared) ≡ true
    → distinct (map shared_hash (kept queue shared)) ≡ true
unfolding distinct keep_if
distinct-kept queue [] d = refl
distinct-kept queue (f ∷ fs) d =
    ground (arith, distinct-kept queue fs, occurs-kept (shared_hash f) queue fs)

map-append : {A B : Type 0} (f : A → B) (xs ys : List A) → map f (xs ++ ys) ≡ map f xs ++ map f ys
map-append f [] ys = refl
map-append f (x ∷ xs) ys = ap (λ l. f x ∷ l) (map-append f xs ys)

map-map :
    {A B C : Type 0} (g : B → C) (f : A → B) (xs : List A)
    → map g (map f xs) ≡ map (λ x. g (f x)) xs
map-map g f [] = refl
map-map g f (x ∷ xs) = ap (λ l. g (f x) ∷ l) (map-map g f xs)

merge_files-hashes :
    (queue : List PartFileTag) (shared : List SharedFileTag)
    → map hash_of (merge_files queue shared)
      ≡ map shared_hash (kept (map part_hash queue) shared) ++ map part_hash queue
unfolding merge_files
merge_files-hashes queue shared =
    rw
      (
        map-append hash_of (map shared_file (kept (map part_hash queue) shared))
            (map part_file queue),
        map-map hash_of shared_file (kept (map part_hash queue) shared),
        map-map hash_of part_file queue,
      )
      refl

-- A hash is shown when it is shared or in the queue.
pub merge_files-occurs :
    (h : Option Text) (queue : List PartFileTag) (shared : List SharedFileTag)
    → occurs h (map hash_of (merge_files queue shared))
      ≡ (occurs h (map shared_hash shared) || occurs h (map part_hash queue))
merge_files-occurs h queue shared =
    rw
      (
        merge_files-hashes queue shared,
        occurs-append h (map shared_hash (kept (map part_hash queue) shared)) (map part_hash queue),
        occurs-kept h (map part_hash queue) shared,
      )
      (ground arith)

pub merge_files-distinct :
    (queue : List PartFileTag) (shared : List SharedFileTag)
    → distinct (map part_hash queue) ≡ true
    → distinct (map shared_hash shared) ≡ true
    → distinct (map hash_of (merge_files queue shared)) ≡ true
merge_files-distinct queue shared dq ds = rw (merge_files-hashes queue shared) (
    distinct-append (map shared_hash (kept (map part_hash queue) shared)) (map part_hash queue)
      (distinct-kept (map part_hash queue) shared ds) dq
      (λ h o. ground (arith, occurs-kept h (map part_hash queue) shared)))
