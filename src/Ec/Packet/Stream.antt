-- ===== src/Ec/Packet/Stream.antt =====
-- The input of the packet parser: a stream that delivers chunks, and `PacketParser._read_n`.
use amarr.Prelude.{
  ℕ, zero, suc, ◌-◌, ◌≤◌, ◌<◌, ◌≡◌, refl, ap, ◌∙◌, sym, Bool, true, false, List, [], ◌∷◌, ◌++◌,
  arith, leb, if◌then◌else◌, length, length-append, take, drop, take-append, drop-append,
  Bool-cases, inl, inr, take-append_ge, drop-append_ge, take-append_le, drop-append_le,
}
use amarr.Py.Result.{Result, ok, err, invalid_ec, ◌>>=◌}
use amarr.Py.Seq.{Bytes}

-- What is still to come, as one chunk for each `read` that is not cut short by its argument.
abbrev pub Stream : Type 0
Stream = List Bytes

abbrev pub contents : Stream → Bytes
contents [] = []
contents (c ∷ cs) = c ++ contents cs

-- An empty chunk is the end of the stream.
abbrev pub is_open : Stream → Bool
is_open [] = true
is_open ([] ∷ cs) = false
is_open ((b ∷ c) ∷ cs) = is_open cs

-- `PacketParser._read_n`: `read` returns at most what is asked for, and at least a byte before the
-- end; it is called until the bytes are there.
unfoldable pub read_n : ℕ → Stream → Result (Bytes × Stream)
read_n zero s = ok ([], s)
read_n (suc n) [] = err invalid_ec
read_n (suc n) ([] ∷ cs) = err invalid_ec
read_n (suc n) ((b ∷ c) ∷ cs) =
    let whole = do (more, rest) ← read_n (n - length c) cs; ok (b ∷ c ++ more, rest)
    in if leb (length c) n then whole else ok (take (suc n) (b ∷ c), drop (suc n) (b ∷ c) ∷ cs)

is_open-drop :
    (n : ℕ) (c : Bytes) (cs : Stream) → n < length c → is_open (drop n c ∷ cs) ≡ is_open cs
is_open-drop n [] cs h = absurd (omega arith)
is_open-drop zero (b ∷ c) cs h = refl
is_open-drop (suc n) (b ∷ c) cs h = is_open-drop n c cs (omega arith)

-- The bytes come in the order of the stream and the rest stays, however the stream was cut.
pub read_n-take :
    (n : ℕ) (s : Stream)
    → is_open s ≡ true
    → n ≤ length (contents s)
    → (rest : Stream) × (read_n n s ≡ ok (take n (contents s), rest))
      × (contents rest ≡ drop n (contents s))
      × (is_open rest ≡ true)
unfolding read_n
read_n-take zero s o h = (s, refl, refl, o)
read_n-take (suc n) [] o h = absurd (omega arith)
read_n-take (suc n) ([] ∷ cs) o h = cc
read_n-take (suc n) ((b ∷ c) ∷ cs) o h = elim (Bool-cases (leb (length c) n)) [
  | inl whole ↦
      let small : length c ≤ n = ground arith in
      let (rest, e, left, o') =
        read_n-take (n - length c) cs o (omega (arith, length-append c (contents cs))) in
      (
        rest,
        rw (whole, e, take-append_ge n c (contents cs) small),
        left ∙ sym (drop-append_ge n c (contents cs) small),
        o',
      )
  | inr part ↦
      let large : n < length c = ground arith in
      let shorter : n ≤ length c = omega arith in
      (
        drop n c ∷ cs,
        rw (part, take-append_le n c (contents cs) shorter),
        sym (drop-append_le n c (contents cs) shorter),
        is_open-drop n c cs large ∙ o,
      )
]

-- If the stream ends first, the read raises, however the stream was cut.
read_n_short :
    (n : ℕ) (s : Stream) → is_open s ≡ true → length (contents s) < n → read_n n s ≡ err invalid_ec
unfolding read_n
read_n_short zero s o h = absurd (omega arith)
read_n_short (suc n) [] o h = refl
read_n_short (suc n) ([] ∷ cs) o h = refl
read_n_short (suc n) ((b ∷ c) ∷ cs) o h =
    let whole : leb (length c) n ≡ true = ground (arith, length-append c (contents cs)) in
    rw (whole, read_n_short (n - length c) cs o (omega (arith, length-append c (contents cs))))

pub read_n-append :
    (s : Stream) (a t : Bytes)
    → is_open s ≡ true
    → contents s ≡ a ++ t
    → (rest : Stream) × (read_n (length a) s ≡ ok (a, rest))
      × (contents rest ≡ t)
      × (is_open rest ≡ true)
read_n-append s a t o e =
    let fits : length a ≤ length (contents s) = omega (arith, ap length e, length-append a t) in
    let (rest, r, left, o') = read_n-take (length a) s o fits in
    (
      rest,
      r ∙ ap (λ l. ok (l, rest)) (ap (take (length a)) e ∙ take-append a t),
      left ∙ (ap (drop (length a)) e ∙ drop-append a t),
      o',
    )
