-- ===== src/Torrent/Info/View.antt =====
-- The view of torrents as a whole: complete lists give it, and it shows the hashes of the lists, each once.
use amarr.Prelude.{
  ◌≡◌, refl, ap, sym, Bool, true, false, not, ◌&&◌, ◌||◌, Option, none, some, List, [], ◌∷◌, ◌++◌,
  map, arith,
}
use amarr.Py.Result.{Result, ok, err, >>=-eq-ok, ok-injective}
use amarr.Py.Seq.{Text}
use amarr.Py.Equality.{eq_optional, eq_optional_iff}
use amarr.Category.Store.{CategoryStore, get_category}
use amarr.Jamule.Model.SharedFile.{SharedFileTag}
use amarr.Jamule.Model.PartFile.{PartFileTag}
use amarr.Torrent.Models.{TorrentInfo}
use amarr.Torrent.Info.{
  AmuleFile, shared_file, part_file, hash_of, part_hash, shared_hash, occurs, keep_if, merge_files,
  in_category, to_info, to_infos, torrent_infos, shared_to_info, transferring_to_info, compute_eta,
}
use amarr.Torrent.Info.Merge.{distinct, merge_files-occurs, merge_files-distinct}

-- What `to_infos` returns has the hashes of the files.
abbrev pub info_hash : TorrentInfo → Option Text
info_hash i = some i.hash

to_info-hash :
    (path : Text) (c : Option Text) (f : AmuleFile) (i : TorrentInfo)
    → to_info path c f ≡ ok i
    → info_hash i ≡ hash_of f
unfolding to_info shared_to_info transferring_to_info
to_info-hash path c (shared_file f) i e = ground arith
to_info-hash path c (part_file f) i e = ground arith

to_infos-hashes :
    (path : Text) (c : Option Text) (fs : List AmuleFile) (infos : List TorrentInfo)
    → to_infos path c fs ≡ ok infos
    → map info_hash infos ≡ map hash_of fs
unfolding to_infos
to_infos-hashes path c [] infos e = rw (sym (ok-injective e)) refl
to_infos-hashes path c (f ∷ fs) infos e =
    let (i, ei, e') = >>=-eq-ok (to_info path c f) _ e in
    let (is, eis, e'') = >>=-eq-ok (to_infos path c fs) _ e' in
    rw (sym (ok-injective e''), to_info-hash path c f i ei, to_infos-hashes path c fs is eis) refl

-- The test of a category looks at the hash alone.
abbrev pub hash_in_category : CategoryStore → Option Text → Option Text → Bool
hash_in_category store none h = true
hash_in_category store (some c) h = eq_optional (get_category store h) (some c)

occurs-in_category :
    (store : CategoryStore) (c h : Option Text) (fs : List AmuleFile)
    → occurs h (map hash_of (keep_if (in_category store c) fs))
      ≡ (occurs h (map hash_of fs) && hash_in_category store c h)
unfolding occurs keep_if
occurs-in_category store c h [] = refl
occurs-in_category store none h (f ∷ fs) = ground (arith, occurs-in_category store none h fs)
occurs-in_category store (some c) h (f ∷ fs) =
    ground (arith, occurs-in_category store (some c) h fs, (eq_optional_iff h (hash_of f)).0)

distinct-in_category :
    (store : CategoryStore) (c : Option Text) (fs : List AmuleFile)
    → distinct (map hash_of fs) ≡ true
    → distinct (map hash_of (keep_if (in_category store c) fs)) ≡ true
unfolding distinct keep_if
distinct-in_category store c [] d = refl
distinct-in_category store c (f ∷ fs) d =
    ground (arith, distinct-in_category store c fs, occurs-in_category store c (hash_of f) fs)

abbrev is_some {ℓ} : {A : Type ℓ} → Option A → Bool
is_some none = false
is_some (some a) = true

-- The fields that the view needs.
unfoldable pub complete_shared : SharedFileTag → Bool
complete_shared f = is_some f.file_hash_hex_string && is_some f.file_name && is_some f.size_full

unfoldable pub complete_part : PartFileTag → Bool
complete_part f = complete_shared f.shared && is_some f.size_done && is_some f.speed

unfoldable pub every {ℓ} : {A : Type ℓ} → (A → Bool) → List A → Bool
every p [] = true
every p (x ∷ xs) = p x && every p xs

abbrev complete : AmuleFile → Bool
complete (shared_file f) = complete_shared f
complete (part_file f) = complete_part f

abbrev is_ok {ℓ} : {A : Type ℓ} → Result A → Bool
is_ok (ok a) = true
is_ok (err e) = false

is_ok-ok {ℓ} : {A : Type ℓ} (r : Result A) → is_ok r ≡ true → (a : A) × (r ≡ ok a)
is_ok-ok (ok a) h = (a, refl)
is_ok-ok (err e) h = cc

to_info-complete :
    (path : Text) (c : Option Text) (f : AmuleFile)
    → complete f ≡ true
    → is_ok (to_info path c f) ≡ true
unfolding to_info shared_to_info transferring_to_info compute_eta complete_shared complete_part
to_info-complete path c (shared_file f) e = ground arith
to_info-complete path c (part_file f) e = ground arith

to_infos-complete :
    (path : Text) (c : Option Text) (fs : List AmuleFile)
    → every complete fs ≡ true
    → is_ok (to_infos path c fs) ≡ true
unfolding to_infos every
to_infos-complete path c [] e = refl
to_infos-complete path c (f ∷ fs) e =
    ground (arith, to_info-complete path c f, to_infos-complete path c fs)

every-keep_if :
    {A : Type 0} (p q : A → Bool) (xs : List A) → every p xs ≡ true → every p (keep_if q xs) ≡ true
unfolding every keep_if
every-keep_if p q [] e = refl
every-keep_if p q (x ∷ xs) e = ground (arith, every-keep_if p q xs)

every-append :
    {A : Type 0} (p : A → Bool) (xs ys : List A)
    → every p xs ≡ true
    → every p ys ≡ true
    → every p (xs ++ ys) ≡ true
unfolding every
every-append p [] ys e e' = e'
every-append p (x ∷ xs) ys e e' = ground (arith, every-append p xs ys)

every-map :
    {A B : Type 0} (p : B → Bool) (f : A → B) (xs : List A)
    → every p (map f xs) ≡ every (λ x. p (f x)) xs
unfolding every
every-map p f [] = refl
every-map p f (x ∷ xs) = ap (λ b. p (f x) && b) (every-map p f xs)

merge_files-complete :
    (queue : List PartFileTag) (shared : List SharedFileTag)
    → every complete_part queue ≡ true
    → every complete_shared shared ≡ true
    → every complete (merge_files queue shared) ≡ true
unfolding merge_files
merge_files-complete queue shared eq es =
    let known = λ (f : SharedFileTag). not (occurs (shared_hash f) (map part_hash queue)) in
    every-append complete (map shared_file (keep_if known shared)) (map part_file queue)
      (rw (every-map complete shared_file (keep_if known shared))
        (every-keep_if complete_shared known shared es))
      (rw (every-map complete part_file queue) eq)

-- The view of complete lists is returned, and a hash stands in it exactly when it stands in one of the
-- lists and its category is the one asked for.
pub torrent_infos-occurs :
    (path : Text) (store : CategoryStore) (category : Option Text) (queue : List PartFileTag)
    (shared : List SharedFileTag)
    → every complete_part queue ≡ true
    → every complete_shared shared ≡ true
    → (infos : List TorrentInfo) × (torrent_infos path store category queue shared ≡ ok infos)
      × ((h : Option Text)
          → occurs h (map info_hash infos) ≡ (
              (occurs h (map shared_hash shared) || occurs h (map part_hash queue))
              && hash_in_category store category h))
unfolding torrent_infos
torrent_infos-occurs path store category queue shared eq es =
    let files = merge_files queue shared in
    let chosen = keep_if (in_category store category) files in
    let (infos, e) = is_ok-ok (to_infos path category chosen) (
      to_infos-complete path category chosen (
        every-keep_if complete (in_category store category) files
          (merge_files-complete queue shared eq es))) in
    (
      infos,
      e,
      (λ h.
          rw
            (
              to_infos-hashes path category chosen infos e,
              occurs-in_category store category h files,
              merge_files-occurs h queue shared,
            )
            refl),
    )

-- When no hash is twice in the queue and none twice among the shared files, the view of complete lists
-- has no hash twice, though a file that is downloaded is in both lists.
pub torrent_infos-distinct :
    (path : Text) (store : CategoryStore) (category : Option Text) (queue : List PartFileTag)
    (shared : List SharedFileTag)
    → every complete_part queue ≡ true
    → every complete_shared shared ≡ true
    → distinct (map part_hash queue) ≡ true
    → distinct (map shared_hash shared) ≡ true
    → (infos : List TorrentInfo) × (torrent_infos path store category queue shared ≡ ok infos)
      × (distinct (map info_hash infos) ≡ true)
unfolding torrent_infos
torrent_infos-distinct path store category queue shared eq es dq ds =
    let (infos, e, _) = torrent_infos-occurs path store category queue shared eq es in
    let hashes =
      to_infos-hashes path category
        (keep_if (in_category store category) (merge_files queue shared)) infos e in
    (
      infos,
      e,
      rw (hashes) (
          distinct-in_category store category (merge_files queue shared)
            (merge_files-distinct queue shared dq ds)),
    )
