-- ===== src/Torznab/Merge/Pages/Kept.antt =====
-- How many items of a list are kept, and what is seen after it.
use amarr.Prelude.{
  ℕ, zero, suc, ◌+◌, ◌≤◌, ◌≡◌, refl, ap, sym, ◌∙◌, Bool, true, false, not, List, [], ◌∷◌, ◌++◌,
  arith, Bool-cases, inl, inr, if◌then◌else◌, length, take,
}
use amarr.Py.Seq.{Text}
use amarr.Py.Equality.{eq_text, eq_text_iff}
use amarr.Magnet.{is_member}
use amarr.Torrent.Info.{keep_if}
use amarr.Torznab.Feed.{Item}
use amarr.Torznab.Merge.{url_of, unseen}
use amarr.Torznab.Merge.Distinct.{urls, distinct}

abbrev is_new : List Text → Item → Bool
is_new seen i = not (is_member (url_of i) seen)

-- A URL that no item has makes no difference.
keep_if-absent :
    (t : Text) (seen : List Text) (items : List Item)
    → is_member t (urls items) ≡ false
    → keep_if (is_new (t ∷ seen)) items ≡ keep_if (is_new seen) items
unfolding keep_if is_member
keep_if-absent t seen [] h = refl
keep_if-absent t seen (i ∷ items) h = elim (Bool-cases (eq_text (url_of i) t)) [
  | inl same ↦
      let back = (eq_text_iff t (url_of i)).1 (sym ((eq_text_iff (url_of i) t).0 same)) in
      absurd (ground arith)
  | inr other ↦ rw (other, keep_if-absent t seen items (ground arith)) refl
]

-- Without repeated URLs the items that are kept are those that are not seen before.
unseen-keep_if :
    (seen : List Text) (items : List Item)
    → distinct (urls items) ≡ true
    → unseen seen items ≡ keep_if (is_new seen) items
unfolding unseen keep_if distinct
unseen-keep_if seen [] h = refl
unseen-keep_if seen (i ∷ items) h = elim (Bool-cases (is_member (url_of i) seen)) [
  | inl old ↦ rw (old) (unseen-keep_if seen items (ground arith))
  | inr fresh ↦ rw (fresh) (
      ap (λ l. i ∷ l)
        (unseen-keep_if (url_of i ∷ seen) items (ground arith)
          ∙ keep_if-absent (url_of i) seen items (ground arith)))
]

-- One more URL that was seen costs at most one item.
length-keep_if_more :
    (t : Text) (seen : List Text) (items : List Item)
    → distinct (urls items) ≡ true
    → length (keep_if (is_new seen) items) ≤ suc (length (keep_if (is_new (t ∷ seen)) items))
unfolding keep_if distinct is_member
length-keep_if_more t seen [] h = omega arith
length-keep_if_more t seen (i ∷ items) h = elim (Bool-cases (eq_text (url_of i) t)) [
  | inl same ↦
      let e : url_of i ≡ t = (eq_text_iff (url_of i) t).0 same in
      let absent : is_member t (urls items) ≡ false =
        ap (λ u. is_member u (urls items)) (sym e) ∙ ground arith in
      ground (arith, same, ap length (keep_if-absent t seen items absent))
  | inr other ↦ ground (arith, other, length-keep_if_more t seen items)
]

length-keep_if_all : (items : List Item) → length items ≤ length (keep_if (is_new []) items)
unfolding keep_if is_member
length-keep_if_all [] = omega arith
length-keep_if_all (i ∷ items) = omega (arith, length-keep_if_all items)

length-keep_if :
    (seen : List Text) (items : List Item)
    → distinct (urls items) ≡ true
    → length items ≤ length (keep_if (is_new seen) items) + length seen
unfolding keep_if is_member
length-keep_if [] items h = omega (arith, length-keep_if_all items)
length-keep_if (t ∷ seen) items h =
    omega (arith, length-keep_if_more t seen items h, length-keep_if seen items h)

pub length-unseen_le :
    (seen : List Text) (items : List Item)
    → distinct (urls items) ≡ true
    → length items ≤ length (unseen seen items) + length seen
length-unseen_le seen items h =
    omega (arith, length-keep_if seen items h, ap length (unseen-keep_if seen items h))

-- What has been seen after the items
unfoldable pub seen_after : List Text → List Item → List Text
seen_after seen [] = seen
seen_after seen (i ∷ items) =
    let skipped = seen_after seen items in
    let kept = seen_after (url_of i ∷ seen) items in
    if is_member (url_of i) seen then skipped else kept

pub unseen-append :
    (seen : List Text) (a r : List Item)
    → unseen seen (a ++ r) ≡ unseen seen a ++ unseen (seen_after seen a) r
unfolding unseen seen_after
unseen-append seen [] r = refl
unseen-append seen (i ∷ a) r =
    ground (arith, unseen-append seen a r, unseen-append (url_of i ∷ seen) a r)

pub length-seen_after :
    (seen : List Text) (items : List Item)
    → length (seen_after seen items) ≡ length seen + length (unseen seen items)
unfolding unseen seen_after
length-seen_after seen [] = omega arith
length-seen_after seen (i ∷ items) =
    ground (arith, length-seen_after seen items, length-seen_after (url_of i ∷ seen) items)

member-take :
    (n : ℕ) (t : Text) (items : List Item)
    → is_member t (urls items) ≡ false
    → is_member t (urls (take n items)) ≡ false
unfolding is_member
member-take zero t items h = refl
member-take (suc n) t [] h = refl
member-take (suc n) t (i ∷ items) h = ground (arith, member-take n t items)

pub distinct-take :
    (n : ℕ) (items : List Item)
    → distinct (urls items) ≡ true
    → distinct (urls (take n items)) ≡ true
unfolding distinct
distinct-take zero items h = refl
distinct-take (suc n) [] h = refl
distinct-take (suc n) (i ∷ items) h =
    ground (arith, distinct-take n items, member-take n (url_of i) items)
