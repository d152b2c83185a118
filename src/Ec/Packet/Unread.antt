-- ===== src/Ec/Packet/Unread.antt =====
-- Where `PacketParser.parse` of jamule/ec/packet.py leaves its stream, also when it raises.
use amarr.Prelude.{
  ℕ, zero, suc, ◌-◌, ◌≡◌, refl, Option, [], ◌∷◌, leb, ◌==◌, if◌then◌else◌, length, drop, Bool-cases,
  inl, inr, false, sym, subst, not,
}
use amarr.Py.Result.{Result, ok, err, ◌>>=◌, ◌>>◌, guard, invalid_ec}
use amarr.Py.Seq.{Bytes, Text}
use amarr.Prelude.Int.{pos}
use amarr.Ec.Encoding.{read_uint32}
use amarr.Ec.Packet.{Packet}
use amarr.Ec.Packet.Stream.{Stream, read_n}
use amarr.Ec.Packet.Flags.{TransmissionFlags, known_flags}
use amarr.Ec.Packet.Parser.{
  Inflated, Transport, parse_flags, parse_accepts, read_uint, parse_transport, parse_packet,
  decompress, parse_application,
}

-- After `_read_n`. A read that gives nothing ends it.
unfoldable pub skip : ℕ → Stream → Stream
skip zero s = s
skip (suc n) [] = []
skip (suc n) ([] ∷ cs) = cs
skip (suc n) ((b ∷ c) ∷ cs) =
    let whole = skip (n - length c) cs in
    if leb (length c) n then whole else drop (suc n) (b ∷ c) ∷ cs

-- A payload is asked for only when it is not empty.
abbrev after_size : Stream → Result (ℕ × Stream) → Stream
after_size s (err e) = skip 4 s
after_size s (ok (size, rest)) = if size == 0 then rest else skip size rest

abbrev after_accepts : {A : Type 0} → Stream → Result (A × Stream) → Stream
after_accepts s (err e) = skip 4 s
after_accepts s (ok (accepts, rest)) = after_size rest (read_uint rest)

abbrev after_flags : Stream → Result (TransmissionFlags × Stream) → Stream
after_flags s (err e) = skip 4 s
after_flags s (ok (flags, rest)) = after_accepts rest (parse_accepts flags.accepts rest)

-- After `parse`. Only its first part, `_parse_transport`, reads from the stream.
unfoldable pub unread : Stream → Stream
unread s = after_flags s (parse_flags s)

-- What a step leaves of the stream, where it succeeds; `rest` is in its value.
abbrev Leaves {ℓ} : {A : Type ℓ} → (A → Stream) → Result A → Stream → Type 0
Leaves rest (ok a) s = s ≡ rest a
Leaves rest (err e) s = Unit {0}

-- What follows a step starts from what it leaves.
>>=-Leaves {ℓ κ} :
    {A : Type ℓ} {B : Type κ} (before : A → Stream) (after : B → Stream) (r : Result A)
    (next : A → Result B) (s : Stream)
    → Leaves before r s
    → ((a : A) → Leaves after (next a) (before a))
    → Leaves after (r >>= next) s
>>=-Leaves before after (ok a) next s h k = subst (Leaves after (next a)) (sym h) (k a)
>>=-Leaves before after (err e) next s h k = tt

-- Work that reads nothing leaves what there was.
pure-Leaves {ℓ κ} :
    {A : Type ℓ} {B : Type κ} (after : B → Stream) (r : Result A) (f : A → B) (s : Stream)
    → ((a : A) → s ≡ after (f a))
    → Leaves after (r >>= λ a. ok (f a)) s
pure-Leaves after (ok a) f s h = h a
pure-Leaves after (err e) f s h = tt

abbrev snd {ℓ} : {A : Type ℓ} → A × Stream → Stream
snd p = p.1

read_n-Leaves : (n : ℕ) (s : Stream) → Leaves snd (read_n n s) (skip n s)
unfolding read_n skip
read_n-Leaves zero s = refl
read_n-Leaves (suc n) [] = tt
read_n-Leaves (suc n) ([] ∷ cs) = tt
read_n-Leaves (suc n) ((b ∷ c) ∷ cs) = elim (Bool-cases (leb (length c) n)) [
  | inl whole ↦ rw (whole) (
      >>=-Leaves snd snd (read_n (n - length c) cs) _ _ (read_n-Leaves (n - length c) cs)
        (λ got. refl))
  | inr part ↦ rw (part) refl
]

read_uint-Leaves : (s : Stream) → Leaves snd (read_uint s) (skip 4 s)
unfolding read_uint
read_uint-Leaves s =
    >>=-Leaves snd snd (read_n 4 s) _ (skip 4 s) (read_n-Leaves 4 s)
      (λ got. pure-Leaves snd (read_uint32 got.0 false (pos 0)) _ got.1 (λ n. refl))

parse_flags-Leaves : (s : Stream) → Leaves snd (parse_flags s) (skip 4 s)
unfolding parse_flags
parse_flags-Leaves s =
    >>=-Leaves snd snd (read_uint s) _ (skip 4 s) (read_uint-Leaves s)
      (λ got. pure-Leaves snd (known_flags got.0) _ got.1 (λ n. refl))

abbrev after_transport : Transport → Stream
after_transport t = t.3

-- The end of the transport: the size and the payload.
module _ (more : Bytes → Result Bytes) (value : Bytes → Stream → Transport)
    (keeps : (payload : Bytes) (s : Stream) → s ≡ after_transport (value payload s)) where
  payload-Leaves :
      (size : ℕ) (s : Stream)
      → Leaves after_transport
          (guard (not (size == 0)) invalid_ec
            >> (read_n size s >>= λ got. more got.0 >>= λ payload. ok (value payload got.1)))
          (if size == 0 then s else skip size s)
  payload-Leaves size s = elim (Bool-cases (size == 0)) [
    | inl empty ↦ rw (empty) tt
    | inr some ↦ rw (some) (
        >>=-Leaves snd after_transport (read_n size s) _ (skip size s) (read_n-Leaves size s)
          (λ got.
            pure-Leaves after_transport (more got.0) _ got.1 (λ payload. keeps payload got.1)))
  ]

  size-Leaves :
      (s : Stream) (r : Result (ℕ × Stream))
      → Leaves after_transport
          (r >>= λ sized.
            guard (not (sized.0 == 0)) invalid_ec
            >> (read_n sized.0 sized.1 >>= λ got.
                more got.0 >>= λ payload. ok (value payload got.1)))
          (after_size s r)
  size-Leaves s (ok (size, rest)) = payload-Leaves size rest
  size-Leaves s (err e) = tt

module _ (parse_float : Text → Option Text) (inflate : Bytes → ℕ → Option Inflated)
    (stack : ℕ) where
  abbrev after_known : TransmissionFlags → Option TransmissionFlags × Stream → Result Transport
  after_known flags (accepts, s) = do
    (size, s₃) ← read_uint s
    guard (not (size == 0)) invalid_ec
    (raw, s₄) ← read_n size s₃
    payload ← (if flags.zlib_compressed then decompress parse_float inflate stack raw else ok raw)
    ok (flags, accepts, payload, s₄)

  accepts-Leaves :
      (flags : TransmissionFlags) (s : Stream) (r : Result (Option TransmissionFlags × Stream))
      → Leaves after_transport (r >>= after_known flags) (after_accepts s r)
  accepts-Leaves flags s (ok (accepts, rest)) =
      size-Leaves
        (λ raw. if flags.zlib_compressed then decompress parse_float inflate stack raw else ok raw)
        (λ payload end. (flags, accepts, payload, end)) (λ payload end. refl) rest (read_uint rest)
  accepts-Leaves flags s (err e) = tt

  flags-Leaves :
      (s : Stream) (r : Result (TransmissionFlags × Stream))
      → Leaves after_transport
          (r >>= λ known. parse_accepts known.0.accepts known.1 >>= after_known known.0)
          (after_flags s r)
  flags-Leaves s (ok (flags, rest)) = accepts-Leaves flags rest (parse_accepts flags.accepts rest)
  flags-Leaves s (err e) = tt

  parse_packet-Leaves :
      (s : Stream) → Leaves snd (parse_packet parse_float inflate stack s) (unread s)
  unfolding parse_packet parse_transport unread
  parse_packet-Leaves s =
      >>=-Leaves after_transport snd (parse_transport parse_float inflate stack s) _ (unread s)
        (flags-Leaves s (parse_flags s))
        (λ (flags, accepts, payload, rest).
          pure-Leaves snd (parse_application parse_float inflate stack flags accepts payload) _ rest
            (λ p. refl))

  -- Where `parse` succeeds it leaves what it has not read, as `unread` says.
  pub parse_packet-unread :
      (s rest : Stream) (p : Packet)
      → parse_packet parse_float inflate stack s ≡ ok (p, rest)
      → unread s ≡ rest
  parse_packet-unread s rest p h = subst (λ r. Leaves snd r (unread s)) h (parse_packet-Leaves s)
