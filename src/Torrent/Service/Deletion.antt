-- ===== src/Torrent/Service/Deletion.antt =====
-- What `delete_torrent` does to the categories, whatever aMule and the disk answer.
use amarr.Prelude.{
  ◌≡◌, refl, ap, ◌∙◌, subst, Bool, true, false, ◌||◌, Option, none, some, List, [], ◌∷◌, map, arith,
  if◌then◌else◌, ◌⊎◌, inl, inr,
}
use amarr.Py.Result.{Result, ok, err, Exc}
use amarr.Py.Seq.{Text}
use amarr.Py.Equality.{eq_text, eq_text_iff, eq_optional}
use amarr.Py.Table
use amarr.Category.Store.{CategoryStore, get_category}
use amarr.Category.Store
use amarr.Jamule.Hex.{from_hex}
use amarr.Jamule.Model.{DownloadCommand}
use amarr.Jamule.Model.PartFile.{PartFileTag}
use amarr.Torrent.Info.{occurs, part_hash}
use amarr.Torrent.Service.{
  Client, State, Action, continue, ◌>>=◌, give, lift, call, update, true_text, path_to_remove,
  remove_if_found, find_shared, delete_shared_file_by_hash, delete_file, delete_each,
  delete_torrent,
}

abbrev pub Result-cases {ℓ} :
    {A : Type ℓ} (r : Result A) → ((a : A) × (r ≡ ok a)) ⊎ ((e : Exc) × (r ≡ err e))
Result-cases (ok a) = inl (a, refl)
Result-cases (err e) = inr (e, refl)

-- `hash in hashes`
unfoldable pub listed : Text → List Text → Bool
listed k [] = false
listed k (h ∷ hs) = eq_text h k || listed k hs

abbrev pub category_of : {W : Type 0} → State W → Text → Option Text
category_of s k = get_category s.1 (some k)

-- An action that leaves the categories alone, also where it fails.
abbrev Keeps : {W A : Type 0} → Action W A → Type 0
Keeps {W = W} m = (s : State W) → (m s).1.1 ≡ s.1

if-Keeps :
    {W A : Type 0} (b : Bool) (m n : Action W A) → Keeps m → Keeps n → Keeps (if b then m else n)
if-Keeps true m n km kn = km
if-Keeps false m n km kn = kn

continue-Keeps :
    {W A B : Type 0} (c : CategoryStore) (p : Result A × State W) (f : A → Action W B)
    → p.1.1 ≡ c
    → ((a : A) → Keeps (f a))
    → (continue p f).1.1 ≡ c
continue-Keeps c (ok a, s) f e kf = kf a s ∙ e
continue-Keeps c (err x, s) f e kf = e

-- The categories after a run of the loop, whether it ends or is broken off.
abbrev Cleared : {W : Type 0} → List Text → State W → Result (Unit {0}) × State W → Type 0
Cleared hashes s (r, s') =
    (k : Text)
    → (listed k hashes ≡ false → category_of s' k ≡ category_of s k)
      × (r ≡ ok tt → listed k hashes ≡ true → category_of s' k ≡ none)

module _ {W : Type 0} (amule : Client W) where
  remove_if_found-Keeps : (p : Option Text) → Keeps (remove_if_found amule p)
  remove_if_found-Keeps none s = refl
  remove_if_found-Keeps (some p) s = refl

  delete_file-Keeps :
      (downloading : List (Option Text)) (delete_files : Option Text) (hash : Text)
      → Keeps (delete_file amule downloading delete_files hash)
  unfolding delete_file delete_shared_file_by_hash
  delete_file-Keeps downloading delete_files hash =
      if-Keeps (occurs (some hash) downloading)
        (lift (from_hex hash) >>= λ id.
          call (amule.send_download_command id DownloadCommand.delete))
        (if eq_optional delete_files (some true_text)
          then delete_shared_file_by_hash amule hash
          else give tt)
        (λ s. continue-Keeps s.1 (lift (from_hex hash) s) _ refl (λ id s'. refl))
        (if-Keeps (eq_optional delete_files (some true_text))
          (delete_shared_file_by_hash amule hash) (give tt)
          (λ s.
            continue-Keeps s.1 (call amule.get_shared_files s)
              (λ shared. remove_if_found amule (path_to_remove (find_shared hash shared))) refl
              (λ shared. remove_if_found-Keeps (path_to_remove (find_shared hash shared))))
          (λ s. refl))

  -- One round of the loop, from what the file's removal gave.
  cons-Cleared :
      (hash : Text) (hashes : List Text) (s : State W) (p : Result (Unit {0}) × State W)
      (next : Action W (Unit {0}))
      → p.1.1 ≡ s.1
      → ((s' : State W) → Cleared hashes s' (next s'))
      → Cleared
          (hash ∷ hashes)
          s
          (continue (continue p (λ _. update (λ c. Store.delete c hash))) (λ _. next))
  unfolding listed Store.delete get_category
  cons-Cleared hash hashes s (ok a, (w, c)) next e ih k =
      let (kept, gone) = ih (w, Store.delete c hash) k in
      let removed = Table.select-delete eq_text eq_text_iff hash k c.file_categories in
      let same : category_of (w, c) k ≡ category_of s k = ap (λ d. get_category d (some k)) e in
      ((λ n. ground (arith, kept, removed, same)), (λ o l. ground (arith, kept, gone, removed, o)))
  cons-Cleared hash hashes s (err x, (w, c)) next e ih k =
      ((λ n. ap (λ d. get_category d (some k)) e), (λ o l. cc))

  delete_each-Cleared :
      (downloading : List (Option Text)) (delete_files : Option Text) (hashes : List Text)
      (s : State W)
      → Cleared hashes s (delete_each amule downloading delete_files hashes s)
  unfolding delete_each listed
  delete_each-Cleared downloading delete_files [] s = λ k. ((λ n. refl), (λ o l. cc))
  delete_each-Cleared downloading delete_files (hash ∷ hashes) s =
      cons-Cleared hash hashes s (delete_file amule downloading delete_files hash s)
        (delete_each amule downloading delete_files hashes)
        (delete_file-Keeps downloading delete_files hash s)
        (delete_each-Cleared downloading delete_files hashes)

  delete_torrent-Cleared_from :
      (delete_files : Option Text) (hashes : List Text) (s : State W)
      (p : Result (List PartFileTag) × State W)
      → p.1.1 ≡ s.1
      → Cleared hashes s
          (continue p (λ files. delete_each amule (map part_hash files) delete_files hashes))
  delete_torrent-Cleared_from delete_files hashes s (ok files, s') e k =
      let (kept, gone) = delete_each-Cleared (map part_hash files) delete_files hashes s' k in
      ((λ n. kept n ∙ ap (λ d. get_category d (some k)) e), gone)
  delete_torrent-Cleared_from delete_files hashes s (err x, s') e k =
      ((λ n. ap (λ d. get_category d (some k)) e), (λ o l. cc))

  delete_torrent-Cleared :
      (hashes : List Text) (delete_files : Option Text) (s : State W)
      → Cleared hashes s (delete_torrent amule hashes delete_files s)
  unfolding delete_torrent
  delete_torrent-Cleared hashes delete_files s =
      delete_torrent-Cleared_from delete_files hashes s (call amule.get_download_queue s) refl

  -- When `delete_torrent` succeeds, no listed hash has a category, and every other hash has the one that
  -- it had.
  pub category_of-delete_torrent :
      (hashes : List Text) (delete_files : Option Text) (s s' : State W) (k : Text)
      → delete_torrent amule hashes delete_files s ≡ (ok tt, s')
      → category_of s' k ≡ (if listed k hashes then none else category_of s k)
  category_of-delete_torrent hashes delete_files s s' k e =
      let cleared : Cleared hashes s (ok tt, s') =
        subst (Cleared hashes s) e (delete_torrent-Cleared hashes delete_files s) in
      let (kept, gone) = cleared k in ground (arith, kept, gone refl)

  -- Also where `delete_torrent` fails, a hash that is not listed keeps its category.
  pub category_of-delete_torrent_other :
      (hashes : List Text) (delete_files : Option Text) (s : State W) (k : Text)
      → listed k hashes ≡ false
      → category_of (delete_torrent amule hashes delete_files s).1 k ≡ category_of s k
  category_of-delete_torrent_other hashes delete_files s k other =
      (delete_torrent-Cleared hashes delete_files s k).0 other
