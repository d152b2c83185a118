-- ===== src/Ed2k/Server.antt =====
-- ed2k/server.py: the packets of an eD2k server.
use amarr.Prelude.{
  ℕ, zero, suc, ◌+◌, ◌^◌, Bool, true, List, [], ◌∷◌, ◌++◌, ltb, leb, ◌==◌, if◌then◌else◌, length,
  take, drop,
}
use amarr.Prelude.Int.{pos}
use amarr.Py.Result.{Result, ok, err, struct_error, os_error, timeout, ◌>>=◌}
use amarr.Py.Seq.{Bytes, Text, slice}
use amarr.Py.Struct.{le_bytes, unpack_le_from}
use amarr.Py.Utf8
use amarr.Torznab.Indexer.Query.{Unicode, lstrip_blanks, rstrip_blanks}
use amarr.Ed2k.Tags.{TagName, TagValue, tt_string, tt_uint32, read_tag, same_name}

abbrev pub pr_ed2k : ℕ
pr_ed2k = 0xE3

abbrev pub pr_packed : ℕ
pr_packed = 0xD4

abbrev pub op_loginrequest : ℕ
op_loginrequest = 0x01

abbrev pub op_searchrequest : ℕ
op_searchrequest = 0x16

abbrev pub op_reject : ℕ
op_reject = 0x05

abbrev pub op_searchresult : ℕ
op_searchresult = 0x33

abbrev pub op_idchange : ℕ
op_idchange = 0x40

-- `struct.pack` of one little-endian integer of `size` bytes
unfoldable pub pack_le : ℕ → ℕ → Result Bytes
pack_le size v = if ltb v (256 ^ size) then ok (le_bytes size v) else err struct_error

-- `_old_tag`, `_str_tag` and `_u32_tag`
unfoldable pub old_tag : ℕ → ℕ → Bytes → Bytes
old_tag ttype name_byte value_bytes = ttype ∷ (le_bytes 2 1 ++ name_byte ∷ value_bytes)

unfoldable pub str_tag : ℕ → Text → Result Bytes
str_tag name_byte s = do
  d ← Utf8.encode s
  size ← pack_le 2 (length d)
  ok (old_tag tt_string name_byte (size ++ d))

unfoldable pub u32_tag : ℕ → ℕ → Result Bytes
u32_tag name_byte v = do value ← pack_le 4 v; ok (old_tag tt_uint32 name_byte value)

-- `query.split()`: a character goes to the word that follows it without a blank.
abbrev start_word : ℕ → List Text → List Text
start_word c [] = (c ∷ []) ∷ []
start_word c (w ∷ words) = (c ∷ w) ∷ words

abbrev first_is_blank : Unicode → Text → Bool
first_is_blank unicode [] = true
first_is_blank unicode (c ∷ cs) = unicode.is_space c

unfoldable pub words_of : Unicode → Text → List Text
words_of unicode [] = []
words_of unicode (c ∷ cs) =
    let words = words_of unicode cs in
    if unicode.is_space c
    then words
    else if first_is_blank unicode cs
    then (c ∷ []) ∷ words
    else start_word c words

unfoldable pub term : Text → Result Bytes
term w = do d ← Utf8.encode w; size ← pack_le 2 (length d); ok (0x01 ∷ (size ++ d))

-- The loop: AND of the tree so far and the next word
unfoldable pub and_words : Bytes → List Text → Result Bytes
and_words tree [] = ok tree
and_words tree (w ∷ words) = do t ← term w; and_words (0x00 ∷ 0x00 ∷ (tree ++ t)) words

abbrev search_tree : Unicode → Text → List Text → Result Bytes
search_tree unicode query (w ∷ v ∷ words) = do t ← term w; and_words t (v ∷ words)
search_tree unicode query _ = term (rstrip_blanks unicode (lstrip_blanks unicode query))

-- `build_search_tree`
unfoldable pub build_search_tree : Unicode → Text → Result Bytes
build_search_tree unicode query = search_tree unicode query (words_of unicode query)

-- A dictionary of tags, and a result with its hash
abbrev pub TagMap : Type 0
TagMap = List (TagName × TagValue)

abbrev pub Found : Type 0
Found = Bytes × TagMap

-- `tags[name] = val`
unfoldable pub set_tag : TagName → TagValue → TagMap → TagMap
set_tag name value [] = (name, value) ∷ []
set_tag name value ((n, v) ∷ tags) =
    let rest = set_tag name value tags in
    if same_name n name then (n, value) ∷ tags else (n, v) ∷ rest

-- The tags of a result; the first argument is how many are left.
unfoldable pub read_tags : ℕ → Bytes → ℕ → TagMap → Result (TagMap × ℕ)
read_tags zero payload off tags = ok (tags, off)
read_tags (suc n) payload off tags = do
  (name, value, next) ← read_tag payload off
  read_tags n payload next (set_tag name value tags)

unfoldable pub read_results : ℕ → Bytes → ℕ → Result (List Found)
read_results zero payload off = ok []
read_results (suc n) payload off =
    let more = do
      ntags ← unpack_le_from 4 payload (off + 22)
      (tags, next) ← read_tags ntags payload (off + 26) []
      results ← read_results n payload next
      ok ((slice payload (pos off) (pos (off + 16)), tags) ∷ results)
    in if ltb (length payload) (off + 26) then ok [] else more

-- `parse_search_result`
unfoldable pub parse_search_result : Bytes → Result (List Found)
parse_search_result payload = do count ← unpack_le_from 4 payload 0; read_results count payload 4

-- `send_packet`: what is written to the socket
unfoldable pub packet_bytes : ℕ → ℕ → Bytes → Result Bytes
packet_bytes proto opcode payload = do
  size ← pack_le 4 (length (opcode ∷ payload))
  ok (proto ∷ (size ++ opcode ∷ payload))

-- The buffer of a connection, and what `recv` will deliver: an empty chunk is the end, and after the
-- last chunk nothing comes before the timeout.
pub record Incoming : Type 0 where
  pub buf : Bytes
  pub chunks : List Bytes

-- `_read_exact`, with what it leaves of the buffer also when it raises
abbrev cut_buffer : ℕ → Bytes → List Bytes → Result Bytes × Incoming
cut_buffer n buf chunks = (ok (take n buf), record { buf = drop n buf; chunks = chunks })

unfoldable pub read_chunks : ℕ → Bytes → List Bytes → Result Bytes × Incoming
read_chunks n buf [] =
    if leb n (length buf)
    then cut_buffer n buf []
    else (err timeout, record { buf = buf; chunks = [] })
read_chunks n buf (c ∷ chunks) =
    let more = read_chunks n (buf ++ c) chunks in
    if leb n (length buf)
    then cut_buffer n buf (c ∷ chunks)
    else if length c == 0
    then (err os_error, record { buf = buf; chunks = chunks })
    else more

unfoldable pub read_exact : ℕ → Incoming → Result Bytes × Incoming
read_exact n s = read_chunks n s.buf s.chunks
