-- ===== src/Torznab/Indexer/Normalized.antt =====
-- What a normalized query looks like.
use amarr.Prelude.{
  ◌≡◌, refl, Bool, true, false, not, ◌&&◌, ◌||◌, [], ◌∷◌, ◌==◌, arith, Bool-cases, inl, inr,
}
use amarr.Py.Seq.{Text}
use amarr.Torznab.Indexer.Query.{
  Unicode, is_blank, without_marks, is_symbol, sub_runs, lstrip_blanks, rstrip_blanks,
  normalize_search_query,
}

module _ (unicode : Unicode) where
  no_symbols : Text → Bool
  no_symbols [] = true
  no_symbols (c ∷ cs) = (unicode.is_word c || unicode.is_space c) && no_symbols cs

  -- Words with one space between them. The flag says that a space, or the start, comes before.
  pub words_from : Bool → Text → Bool
  words_from before [] = not before
  words_from before (c ∷ cs) = elim (unicode.is_space c) [
    | true ↦ c == 32 && not before && words_from true cs
    | false ↦ unicode.is_word c && words_from false cs
  ]

  abbrev pub is_normalized : Text → Bool
  is_normalized [] = true
  is_normalized (c ∷ cs) = words_from true (c ∷ cs)

  -- The same before the text is stripped
  collapsed : Bool → Text → Bool
  collapsed before [] = true
  collapsed before (c ∷ cs) = elim (unicode.is_space c) [
    | true ↦ c == 32 && not before && collapsed true cs
    | false ↦ unicode.is_word c && collapsed false cs
  ]

  module _ (space : unicode.is_space 32 ≡ true) where
    no_symbols-sub_runs :
        (inside : Bool) (t : Text)
        → no_symbols (sub_runs unicode (is_symbol unicode) inside t) ≡ true
    unfolding no_symbols sub_runs
    no_symbols-sub_runs inside [] = refl
    no_symbols-sub_runs inside (c ∷ cs) =
        ground (arith, no_symbols-sub_runs true cs, no_symbols-sub_runs false cs)

    collapsed-sub_runs :
        (inside : Bool) (t : Text)
        → no_symbols t ≡ true
        → collapsed inside (sub_runs unicode unicode.is_space inside t) ≡ true
    unfolding no_symbols collapsed sub_runs
    collapsed-sub_runs inside [] h = refl
    collapsed-sub_runs inside (c ∷ cs) h =
        ground (arith, collapsed-sub_runs true cs, collapsed-sub_runs false cs)

    collapsed-lstrip_blanks :
        (before : Bool) (t : Text)
        → collapsed before t ≡ true
        → collapsed true (lstrip_blanks unicode t) ≡ true
    unfolding collapsed lstrip_blanks
    collapsed-lstrip_blanks before [] h = refl
    collapsed-lstrip_blanks before (c ∷ cs) h = ground (arith, collapsed-lstrip_blanks true cs)

    rstrip_blanks_blank : (t : Text) → is_blank unicode t ≡ true → rstrip_blanks unicode t ≡ []
    unfolding is_blank rstrip_blanks
    rstrip_blanks_blank [] h = refl
    rstrip_blanks_blank (c ∷ cs) h = rw (h) refl

    words_from-rstrip_blanks :
        (before : Bool) (t : Text)
        → collapsed before t ≡ true
        → is_blank unicode t ≡ false
        → words_from before (rstrip_blanks unicode t) ≡ true
    unfolding collapsed is_blank rstrip_blanks words_from
    words_from-rstrip_blanks before [] h b = cc
    words_from-rstrip_blanks before (c ∷ cs) h b = elim (Bool-cases (is_blank unicode cs)) [
      | inl blank ↦ ground (arith, rstrip_blanks_blank cs blank)
      | inr more ↦
          ground (arith, words_from-rstrip_blanks true cs, words_from-rstrip_blanks false cs)
    ]

    is_normalized-words_from : (t : Text) → words_from true t ≡ true → is_normalized t ≡ true
    is_normalized-words_from [] h = refl
    is_normalized-words_from (c ∷ cs) h = h

    -- Where the space of ASCII counts as a space, a normalized query is empty or consists of words with
    -- one space between them: no symbol, no space at either end, no two spaces.
    pub normalize_search_query-is_normalized :
        (query : Text) → is_normalized (normalize_search_query unicode query) ≡ true
    unfolding normalize_search_query
    normalize_search_query-is_normalized query =
        stripped
          (sub_runs unicode (is_symbol unicode) false
            (without_marks unicode (unicode.decompose query)))
          (no_symbols-sub_runs false (without_marks unicode (unicode.decompose query)))
      where
        stripped :
            (spaced : Text)
            → no_symbols spaced ≡ true
            → is_normalized (
                rstrip_blanks unicode
                  (lstrip_blanks unicode (sub_runs unicode unicode.is_space false spaced)))
              ≡ true
        stripped spaced h =
            let t = lstrip_blanks unicode (sub_runs unicode unicode.is_space false spaced) in
            let c = collapsed-lstrip_blanks false _ (collapsed-sub_runs false spaced h) in
            elim (Bool-cases (is_blank unicode t)) [
              | inl blank ↦ rw (rstrip_blanks_blank t blank) refl
              | inr more ↦ is_normalized-words_from _ (words_from-rstrip_blanks true t c more)
            ]
