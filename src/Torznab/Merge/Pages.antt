-- ===== src/Torznab/Merge/Pages.antt =====
-- Pages of merged feeds: asking every engine for the first `offset + limit` results is enough.
mod Kept
use amarr.Prelude.{
  ℕ, zero, suc, ◌+◌, ◌-◌, ◌≤◌, ◌<◌, ◌≡◌, refl, ap, sym, ◌∙◌, Bool, true, false, List, [], ◌∷◌, ◌++◌,
  append_assoc, map, arith, leb, Bool-cases, inl, inr, length, take, drop, take_all, take-append_le,
  take-append_ge, take-append-drop, length-take, drop-drop, min,
}
use amarr.Prelude.Int.{pos, pos-+ℤ}
use amarr.Py.Seq.{Text, slice}
use amarr.Torznab.Feed.{Item, Feed, Channel}
use amarr.Torznab.Merge.{unseen, all_items, merged, merged_feed}
use amarr.Torznab.Merge.Distinct.{urls, distinct}
use Kept.{unseen-append, seen_after, length-seen_after, length-unseen_le, distinct-take}

-- No engine gives a URL twice.
abbrev pub AllDistinct : List Feed → Type 0
AllDistinct [] = Unit {0}
AllDistinct (f ∷ feeds) = (distinct (urls f.channel.item) ≡ true) × AllDistinct feeds

-- A feed of the first results only
abbrev pub cut : ℕ → Feed → Feed
cut n f = record {
  channel = record { response = f.channel.response; item = take n f.channel.item };
}

take-unseen_long :
    (n : ℕ) (seen : List Text) (a r : List Item)
    → n ≤ length (unseen seen a)
    → take n (unseen seen (a ++ r)) ≡ take n (unseen seen a)
take-unseen_long n seen a r h =
    ap (take n) (unseen-append seen a r) ∙ take-append_le n (unseen seen a) _ h

-- A list that is used up: the rest of the page comes from the lists after it.
take-unseen_short :
    (n : ℕ) (seen : List Text) (a r r' : List Item)
    → (length (unseen seen a) ≤ n
        → take (n - length (unseen seen a)) (unseen (seen_after seen a) r)
          ≡ take (n - length (unseen seen a)) (unseen (seen_after seen a) r'))
    → take n (unseen seen (a ++ r)) ≡ take n (unseen seen (a ++ r'))
take-unseen_short n seen a r r' h = elim (Bool-cases (leb n (length (unseen seen a)))) [
  | inl fits ↦
      let le : n ≤ length (unseen seen a) = ground arith in
      take-unseen_long n seen a r le ∙ sym (take-unseen_long n seen a r' le)
  | inr more ↦
      let ge : length (unseen seen a) ≤ n = ground arith in
      rw
        (
          unseen-append seen a r,
          unseen-append seen a r',
          take-append_ge n (unseen seen a) (unseen (seen_after seen a) r) ge,
          take-append_ge n (unseen seen a) (unseen (seen_after seen a) r') ge,
          h,
        )
        refl
]

-- A list that is longer than what is asked for: its first part fills the page.
take-unseen_prefix :
    (n m : ℕ) (seen : List Text) (a r r' : List Item)
    → distinct (urls a) ≡ true
    → m < length a
    → n + length seen ≤ m
    → take n (unseen seen (take m a ++ r)) ≡ take n (unseen seen (a ++ r'))
take-unseen_prefix n m seen a r r' d long h =
    let fits : n ≤ length (unseen seen (take m a)) =
      omega (arith, length-take m a, length-unseen_le seen (take m a) (distinct-take m a d)) in
    let whole : take m a ++ (drop m a ++ r') ≡ a ++ r' =
      sym (append_assoc (take m a) (drop m a) r') ∙ ap (λ l. l ++ r') (take-append-drop m a) in
    take-unseen_long n seen (take m a) r fits
    ∙ (sym (take-unseen_long n seen (take m a) (drop m a ++ r') fits)
        ∙ ap (λ l. take n (unseen seen l)) whole)

take-unseen_whole :
    (m : ℕ) (seen : List Text) (n : ℕ) (feeds : List Feed)
    → AllDistinct feeds
    → n + length seen ≤ m
    → take n (unseen seen (all_items (map (cut m) feeds))) ≡ take n (unseen seen (all_items feeds))
unfolding all_items
take-unseen_whole m seen n [] d h = refl
take-unseen_whole m seen n (f ∷ feeds) (d, ds) h =
    elim (Bool-cases (leb (length f.channel.item) m)) [
      | inl whole ↦ rw (take_all m f.channel.item (ground arith)) (
          take-unseen_short n seen f.channel.item _ _ (λ used.
            take-unseen_whole m (seen_after seen f.channel.item)
              (n - length (unseen seen f.channel.item)) feeds ds
              (omega (arith, length-seen_after seen f.channel.item))))
      | inr long ↦ take-unseen_prefix n m seen f.channel.item _ _ d (ground arith) h
    ]

drop-take :
    {A : Type 0} (o l n : ℕ) (xs : List A) → o + l ≡ n → drop o (take n xs) ≡ take l (drop o xs)
drop-take zero l n xs e = let e' : n ≡ l = omega arith in ap (λ k. take k xs) e'
drop-take (suc o) l zero xs e = absurd (omega arith)
drop-take (suc o) l (suc n) [] e = sym (take_all l [] (omega arith))
drop-take (suc o) l (suc n) (x ∷ xs) e = drop-take o l n xs (omega arith)

-- The page that the aggregate serves: the first `limit` items after `offset` of the merged feeds.
page-of_merged :
    (feeds : List Feed) (o l : ℕ)
    → (merged_feed feeds (pos o) (pos l)).channel.item ≡ take l (drop o (merged feeds))
unfolding merged_feed slice
page-of_merged feeds o l =
    let e : o + l - o ≡ l = omega arith in
    rw (pos-+ℤ o l) (ap (λ k. take k (drop o (merged feeds))) e)

-- When no engine gives a URL twice, a page of the merged feeds is the same whether the engines give
-- all of their results or only the first `offset + limit` of them.
pub merged_feed-cut :
    (feeds : List Feed) (offset limit : ℕ)
    → AllDistinct feeds
    → (merged_feed (map (cut (offset + limit)) feeds) (pos offset) (pos limit)).channel.item
      ≡ (merged_feed feeds (pos offset) (pos limit)).channel.item
unfolding merged
merged_feed-cut feeds offset limit d =
    page-of_merged (map (cut (offset + limit)) feeds) offset limit
    ∙ (sym (drop-take offset limit (offset + limit) _ refl)
        ∙ (ap (drop offset)
              (take-unseen_whole (offset + limit) [] (offset + limit) feeds d (omega arith))
            ∙ (drop-take offset limit (offset + limit) _ refl
                ∙ sym (page-of_merged feeds offset limit))))
