-- ===== src/Ec/Packet/RoundTrip/Transport.antt =====
-- The transport layer: flags, accept flags, length and payload.
use amarr.Prelude.{
  ℕ, ◌+◌, ◌≤◌, ◌<◌, ◌^◌, ◌≡◌, ◌≢◌, refl, ap, ◌∙◌, sym, Bool, true, false, not, Option, none, some,
  [], ◌++◌, append_assoc, append-nil, arith, ◌==◌, if◌then◌else◌, length,
}
use native.Mathlib.Nat.{mod-eq_of_lt}
use amarr.Prelude.Int.{pos}
use amarr.Py.Result.{Result, ok, ◌>>◌, ok-injective}
use amarr.Py.Seq.{Bytes, Text}
use amarr.Py.Struct.{be_bytes, length-be_bytes}
use amarr.Ec.Encoding.{uint_to_bytes, read_uint32}
use amarr.Ec.Encoding.RoundTrip.{read_uint32-At}
use amarr.Ec.Packet.{Packet}
use amarr.Ec.Packet.Flags.{TransmissionFlags, to_uint, known_flags-to_uint}
use amarr.Ec.Packet.Stream.{Stream, contents, is_open, read_n, read_n-append}
use amarr.Ec.Packet.Writer.{accepts_bytes, encode_payload, write_transport, write, check_id}
use amarr.Ec.Packet.Parser.{
  Inflated, max_decompressed_size, read_uint, parse_flags, parse_accepts, decompress,
  parse_transport,
}

-- The payload that goes over the wire.
abbrev pub transmitted : (Bytes → Bytes) → Packet → Bytes → Bytes
transmitted compress p raw = if p.flags.zlib_compressed then compress raw else raw

-- Zlib, as documented: a compressed text within the limit comes back whole, with nothing left
-- over and the end of the stream seen.
abbrev pub InflatesBack : (Bytes → Bytes) → (Bytes → ℕ → Option Inflated) → Type 0
InflatesBack compress inflate =
    (x : Bytes)
    → length x ≤ max_decompressed_size
    → inflate (compress x) (max_decompressed_size + 1)
      ≡ some (record { chunk = x; unconsumed_tail = []; flushed = some []; eof = true })

-- The accept flags are there exactly when the flags announce them.
abbrev pub Announced : Bool → Option TransmissionFlags → Type 0
Announced true none = ⊥
Announced true (some f) = Unit {0}
Announced false none = Unit {0}
Announced false (some f) = ⊥

abbrev pub AcceptsAnnounced : Packet → Type 0
AcceptsAnnounced p = Announced p.flags.accepts p.accepts

read_uint-At :
    (n : ℕ) (s : Stream) (t : Bytes)
    → n < 2 ^ 32
    → is_open s ≡ true
    → contents s ≡ uint_to_bytes n ++ t
    → (rest : Stream) × (read_uint s ≡ ok (n, rest)) × (contents rest ≡ t) × (is_open rest ≡ true)
unfolding read_uint uint_to_bytes
read_uint-At n s t h o c =
    let field : Bytes = be_bytes 4 n in
    let c' : contents s ≡ field ++ t = c ∙ ap (λ k. be_bytes 4 k ++ t) (mod-eq_of_lt h) in
    let (rest, r, left, o') = read_n-append s field t o c' in
    let four : length field ≡ 4 = length-be_bytes 4 n in
    let r4 : read_n 4 s ≡ ok (field, rest) = ap (λ k. read_n k s) (sym four) ∙ r in
    let value : read_uint32 field false (pos 0) ≡ ok n =
      read_uint32-At false field 0 n [] (ground arith) (sym (append-nil field)) in
    (rest, rw (r4, value), left, o')

parse_flags-At :
    (f : TransmissionFlags) (s : Stream) (t : Bytes)
    → is_open s ≡ true
    → contents s ≡ uint_to_bytes (to_uint f) ++ t
    → (rest : Stream) × (parse_flags s ≡ ok (f, rest)) × (contents rest ≡ t) × (is_open rest ≡ true)
unfolding parse_flags
parse_flags-At f s t o c =
    let (k, small) = known_flags-to_uint f in
    let (rest, r, left, o') = read_uint-At (to_uint f) s t small o c in (rest, rw (r, k), left, o')

parse_accepts-At :
    (b : Bool) (accepts : Option TransmissionFlags) (s : Stream) (a t : Bytes)
    → Announced b accepts
    → accepts_bytes b accepts ≡ ok a
    → is_open s ≡ true
    → contents s ≡ a ++ t
    → (rest : Stream) × (parse_accepts b s ≡ ok (accepts, rest))
      × (contents rest ≡ t)
      × (is_open rest ≡ true)
unfolding parse_accepts accepts_bytes
parse_accepts-At true none s a t h e o c = absurd h
parse_accepts-At false (some f) s a t h e o c = absurd h
parse_accepts-At false none s a t h e o c =
    let none_written : [] ≡ a = ok-injective e in
    (s, refl, c ∙ ap (λ l. l ++ t) (sym none_written), o)
parse_accepts-At true (some f) s a t h e o c =
    let written : uint_to_bytes (to_uint f) ≡ a = ok-injective e in
    let (rest, r, left, o') = parse_flags-At f s t o (c ∙ ap (λ l. l ++ t) (sym written)) in
    (rest, rw r, left, o')

-- What stands on the wire in front of `after`, bracketed to the right.
abbrev pub framed : (Bytes → Bytes) → Packet → Bytes → Bytes → Bytes → Bytes
framed compress p accepts raw after =
    uint_to_bytes (to_uint p.flags)
    ++ (accepts
        ++ (uint_to_bytes (length (transmitted compress p raw))
            ++ (transmitted compress p raw ++ after)))

accepts_written :
    (b : Bool) (accepts : Option TransmissionFlags)
    → Announced b accepts
    → (a : Bytes) × (accepts_bytes b accepts ≡ ok a)
unfolding accepts_bytes
accepts_written true none h = absurd h
accepts_written true (some f) h = (uint_to_bytes (to_uint f), refl)
accepts_written false accepts h = ([], refl)

check_passed :
    (b : Bool) (id : Option ℕ) (m : Result Bytes) {bs : Bytes}
    → (check_id b id >> m) ≡ ok bs
    → m ≡ ok bs
check_passed true none m h = cc
check_passed true (some n) m h = h
check_passed false id m h = h

-- The id is there when the flags announce it, though it is not sent.
abbrev pub HasId : Packet → Type 0
HasId p = check_id p.flags.has_id p.id ≡ ok tt

-- `write` succeeds when the payload can be encoded and what the flags announce is there.
pub write-AcceptsAnnounced :
    (compress : Bytes → Bytes) (p : Packet) (raw : Bytes)
    → AcceptsAnnounced p
    → HasId p
    → encode_payload p ≡ ok raw
    → (bs : Bytes) × (write compress p ≡ ok bs)
unfolding write write_transport
write-AcceptsAnnounced compress p raw h i e =
    let (a, written) = accepts_written p.flags.accepts p.accepts h in
    let sent = transmitted compress p raw in
    (
      uint_to_bytes (to_uint p.flags) ++ (a ++ (uint_to_bytes (length sent) ++ sent)),
      rw (i, written, e),
    )

-- A successful `write` has written the framed payload.
pub write-eq-framed :
    (compress : Bytes → Bytes) (p : Packet) (raw bs after : Bytes)
    → AcceptsAnnounced p
    → encode_payload p ≡ ok raw
    → write compress p ≡ ok bs
    → (a : Bytes) × (accepts_bytes p.flags.accepts p.accepts ≡ ok a)
      × (bs ++ after ≡ framed compress p a raw after)
unfolding write write_transport
write-eq-framed compress p raw bs after h e w =
    let (a, written) = accepts_written p.flags.accepts p.accepts h in
    let sent = transmitted compress p raw in
    let passed = check_passed p.flags.has_id p.id (write_transport compress p) w in
    let bytes : uint_to_bytes (to_uint p.flags) ++ (a ++ (uint_to_bytes (length sent) ++ sent))
        ≡ bs =
      ok-injective (sym (rw (written, e)) ∙ passed) in
    (a, written, ap (λ l. l ++ after) (sym bytes) ∙ simp append_assoc)

module _ (parse_float : Text → Option Text) (compress : Bytes → Bytes)
    (inflate : Bytes → ℕ → Option Inflated) (stack : ℕ) (z : InflatesBack compress inflate) where
  received :
      (b : Bool) (raw : Bytes)
      → length raw ≤ max_decompressed_size
      → (if b
          then decompress parse_float inflate stack (if b then compress raw else raw)
          else ok (if b then compress raw else raw))
        ≡ ok raw
  unfolding decompress
  received true raw small = rw (z raw small, append-nil raw) (ground arith)
  received false raw small = refl

  -- The transport layer gives back the flags and the payload.
  pub parse_transport-framed :
      (p : Packet) (accepts raw after : Bytes) (s : Stream)
      → AcceptsAnnounced p
      → accepts_bytes p.flags.accepts p.accepts ≡ ok accepts
      → length raw ≤ max_decompressed_size
      → length (transmitted compress p raw) ≢ 0
      → length (transmitted compress p raw) < 2 ^ 32
      → is_open s ≡ true
      → contents s ≡ framed compress p accepts raw after
      → (rest : Stream) × (parse_transport parse_float inflate stack s
          ≡ ok (p.flags, p.accepts, raw, rest))
        × (contents rest ≡ after)
  unfolding parse_transport
  parse_transport-framed p accepts raw after s h e small ne lt o c =
      let sent : Bytes = transmitted compress p raw in
      let size = length sent in
      let (s1, r1, c1, o1) = parse_flags-At p.flags s _ o c in
      let (s2, r2, c2, o2) = parse_accepts-At p.flags.accepts p.accepts s1 accepts _ h e o1 c1 in
      let (s3, r3, c3, o3) = read_uint-At size s2 (sent ++ after) lt o2 c2 in
      let (s4, r4, c4, o4) = read_n-append s3 sent after o3 c3 in
      let full : not (size == 0) ≡ true = ground arith in
      (s4, rw (r1, r2, r3, full, r4, received p.flags.zlib_compressed raw small), c4)
