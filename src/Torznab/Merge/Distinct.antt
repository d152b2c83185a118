-- ===== src/Torznab/Merge/Distinct.antt =====
-- What a merged feed has: every URL of the feeds, each once.
use amarr.Prelude.{
  ◌≡◌, refl, ap, Bool, true, not, ◌&&◌, List, [], ◌∷◌, map, arith, Bool-cases, inl, inr,
}
use amarr.Py.Seq.{Text}
use amarr.Py.Equality.{eq_text, eq_text_iff, eq_text_refl}
use amarr.Magnet.{is_member}
use amarr.Torznab.Feed.{Item, Feed}
use amarr.Torznab.Merge.{url_of, unseen, all_items, merged}

unfoldable pub distinct : List Text → Bool
distinct [] = true
distinct (t ∷ ts) = not (is_member t ts) && distinct ts

abbrev pub urls : List Item → List Text
urls items = map url_of items

pub unseen-occurs :
    (u : Text) (seen : List Text) (items : List Item)
    → is_member u (urls (unseen seen items)) ≡ (is_member u (urls items) && not (is_member u seen))
unfolding unseen is_member
unseen-occurs u seen [] = refl
unseen-occurs u seen (i ∷ items) = elim (Bool-cases (eq_text u (url_of i))) [
  | inl same ↦
      let e : u ≡ url_of i = (eq_text_iff u (url_of i)).0 same in
      let e' = ap (λ t. is_member t seen) e in ground (arith, e', same, unseen-occurs u seen items)
  | inr other ↦
      ground (arith, other, unseen-occurs u seen items, unseen-occurs u (url_of i ∷ seen) items)
]

pub unseen-distinct :
    (seen : List Text) (items : List Item) → distinct (urls (unseen seen items)) ≡ true
unfolding unseen distinct is_member
unseen-distinct seen [] = refl
unseen-distinct seen (i ∷ items) = ground (
  arith,
  eq_text_refl (url_of i),
  unseen-occurs (url_of i) (url_of i ∷ seen) items,
  unseen-distinct seen items,
  unseen-distinct (url_of i ∷ seen) items,
)

-- A merged feed has no URL twice, and it has exactly the URLs of the feeds that it merges.
pub merged-distinct :
    (u : Text) (feeds : List Feed)
    → (distinct (urls (merged feeds)) ≡ true)
      × (is_member u (urls (merged feeds)) ≡ is_member u (urls (all_items feeds)))
unfolding merged is_member
merged-distinct u feeds =
    (unseen-distinct [] (all_items feeds), ground (arith, unseen-occurs u [] (all_items feeds)))
