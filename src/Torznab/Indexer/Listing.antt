-- ===== src/Torznab/Indexer/Listing.antt =====
-- From a search result to a download: the items of a feed, given to the torrent service.
use amarr.Prelude.{
  ℕ, zero, suc, ◌≤◌, ◌≡◌, refl, ap, sym, ◌∙◌, true, some, List, [], ◌∷◌, length, get_elem?, arith,
}
use amarr.Prelude.Int.{ℤ, pos}
use amarr.Py.Result.{ok, >>=-eq-ok, ok-injective}
use amarr.Py.Seq.{Text}
use amarr.Py.Equality.{eq_text_refl}
use amarr.Py.Utf8.{all_scalar}
use amarr.Py.Url.RoundTrip.{all_octets}
use amarr.Category.Store.{CategoryStore}
use amarr.Category.Store
use amarr.Jamule.Response.Lists.{SearchFile}
use amarr.Magnet.{
  MagnetLink, amarr_tracker, for_amarr, to_text, to_ed2k_link, is_amarr, is_member, amule_hex_hash,
}
use amarr.Magnet.RoundTrip.{is_named, all_named}
use amarr.Torrent.Service.{Client, add_torrent}
use amarr.Torrent.Service.Addition.{add_torrent-to_text}
use amarr.Torznab.Feed.{Item, Feed}
use amarr.Torznab.Indexer.{item_of, items_of, page_of, build_feed}

-- The magnet link of a result
abbrev pub magnet_of : SearchFile → MagnetLink
magnet_of f = for_amarr f.hash f.file_name (pos f.size_full)

item_of-url :
    (base_url : Text) (f : SearchFile) (i : Item)
    → item_of base_url f ≡ ok i
    → to_text (magnet_of f) ≡ ok i.enclosure.url
unfolding item_of
item_of-url base_url f i e = ground arith

-- The items stand where their results stand.
items_of-get_elem? :
    (base_url : Text) (fs : List SearchFile) (items : List Item) (k : ℕ) (f : SearchFile)
    → items_of base_url fs ≡ ok items
    → get_elem? fs k ≡ some f
    → (i : Item) × (get_elem? items k ≡ some i) × (item_of base_url f ≡ ok i)
unfolding items_of
items_of-get_elem? base_url [] items k f e h = absurd cc
items_of-get_elem? base_url (g ∷ fs) items zero f e h =
    let (i, ei, e') = >>=-eq-ok (item_of base_url g) _ e in
    let (is, eis, e'') = >>=-eq-ok (items_of base_url fs) _ e' in
    let whole : items ≡ i ∷ is = sym (ok-injective e'') in
    (i, ap (λ l. get_elem? l 0) whole, ground arith)
items_of-get_elem? base_url (g ∷ fs) items (suc k) f e h =
    let (i, ei, e') = >>=-eq-ok (item_of base_url g) _ e in
    let (is, eis, e'') = >>=-eq-ok (items_of base_url fs) _ e' in
    let whole : items ≡ i ∷ is = sym (ok-injective e'') in
    let (j, there, made) = items_of-get_elem? base_url fs is k f eis h in
    (j, ap (λ l. get_elem? l (suc k)) whole ∙ there, made)

tracker-named : all_named (amarr_tracker ∷ []) ≡ true
unfolding all_named all_scalar
tracker-named = refl

magnet_of-is_amarr : (f : SearchFile) → is_amarr (magnet_of f) ≡ true
unfolding is_amarr is_member for_amarr
magnet_of-is_amarr f = ground (arith, eq_text_refl amarr_tracker)

-- When a feed could be built, a result of its page with at least 16 bytes of hash and a name that is not
-- empty and has no surrogates stands in the feed at its place, and its URL can be added as a torrent:
-- aMule is given the ed2k link of the result, and the category is stored under the hash of the result.
pub add_torrent-build_feed :
    {W : Type 0} (amule : Client W) (results : List SearchFile) (offset limit : ℤ) (base_url : Text)
    (feed : Feed) (k : ℕ) (f : SearchFile) (link category : Text) (w w' : W) (s : CategoryStore)
    → build_feed results offset limit base_url ≡ ok feed
    → get_elem? (page_of results offset limit) k ≡ some f
    → 16 ≤ length f.hash
    → all_octets f.hash ≡ true
    → is_named f.file_name ≡ true
    → to_ed2k_link (magnet_of f) ≡ ok link
    → amule.download_ed2k_link link w ≡ (ok tt, w')
    → (i : Item) × (get_elem? feed.channel.item k ≡ some i)
      × (add_torrent amule (some (i.enclosure.url ∷ [])) (some category) (w, s)
          ≡ (ok tt, (w', Store.store s category (amule_hex_hash (magnet_of f)))))
unfolding build_feed for_amarr
add_torrent-build_feed amule results offset limit base_url feed k f link category w w' s built at
      sixteen octets named ed2k sent =
    let (items, ei, e') = >>=-eq-ok (items_of base_url (page_of results offset limit)) _ built in
    let (i, there, made) =
      items_of-get_elem? base_url (page_of results offset limit) items k f ei at in
    (
      i,
      ap (λ (r : Feed). get_elem? r.channel.item k) (sym (ok-injective e')) ∙ there,
      add_torrent-to_text amule (magnet_of f) i.enclosure.url link category w w' s sixteen octets
          named tracker-named (magnet_of-is_amarr f) (item_of-url base_url f i made) ed2k sent,
    )
