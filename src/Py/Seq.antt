-- ===== src/Py/Seq.antt =====
-- Indexing and slicing of `bytes`, at any integer position.
use amarr.Prelude.{
  ℕ, suc, ◌+◌, ◌-◌, ◌≡◌, sym, ap, ◌∙◌, Option, none, some, List, ◌∷◌, ◌++◌, arith, ltb,
  if◌then◌else◌, length, get_elem?, take, drop, take-append, drop-append, drop-drop, get_elem?-drop,
}
use amarr.Prelude.Int.{ℤ, pos, negsuc}
use amarr.Py.Result.{Result, ok, err, index_error}

abbrev pub Bytes : Type 0
Bytes = List ℕ

abbrev pub Text : Type 0
Text = List ℕ

abbrev pub or_index_error {ℓ} : {A : Type ℓ} → Option A → Result A
or_index_error none = err index_error
or_index_error (some a) = ok a

-- `xs[i]`: a negative index counts from the end.
unfoldable pub get_index : Bytes → ℤ → Result ℕ
get_index xs (pos i) = or_index_error (get_elem? xs i)
get_index xs (negsuc i) =
    if ltb i (length xs) then or_index_error (get_elem? xs (length xs - suc i)) else err index_error

-- The position that a slice bound stands for. Bounds past the end are clipped by `take` and `drop`.
abbrev pub bound {ℓ} : {A : Type ℓ} → List A → ℤ → ℕ
bound xs (pos i) = i
bound xs (negsuc i) = length xs - suc i

-- `xs[i:j]`
unfoldable pub slice {ℓ} : {A : Type ℓ} → List A → ℤ → ℤ → List A
slice xs i j = take (bound xs j - bound xs i) (drop (bound xs i) xs)

-- `xs[i:]` and `xs[:j]` at natural positions.
abbrev pub slice_from : Bytes → ℕ → Bytes
slice_from xs i = drop i xs

-- What stands at position `i` of `xs`.
abbrev pub At : Bytes → ℕ → Bytes → Type 0
At xs i s = drop i xs ≡ s

pub At-append :
    (xs : Bytes) (i j : ℕ) (a s : Bytes) → i + length a ≡ j → At xs i (a ++ s) → At xs j s
At-append xs i j a s e h =
    sym (drop-drop i (length a) j xs e) ∙ (ap (drop (length a)) h ∙ drop-append a s)

pub get_index-At :
    (xs : Bytes) (i : ℕ) (b : ℕ) (s : Bytes) → At xs i (b ∷ s) → get_index xs (pos i) ≡ ok b
unfolding get_index
get_index-At xs i b s h = ap or_index_error (sym (get_elem?-drop i xs) ∙ ap (λ l. get_elem? l 0) h)

pub slice-At :
    (xs : Bytes) (i j : ℕ) (a s : Bytes)
    → i + length a ≡ j
    → At xs i (a ++ s)
    → slice xs (pos i) (pos j) ≡ a
unfolding slice
slice-At xs i j a s e h = let n : j - i ≡ length a = omega arith in rw (n, h) (take-append a s)
