-- ===== src/Tests/Servers.antt =====
-- Sessions with two eD2k servers: one has dropped the connection, one refuses every client.
use amarr.Prelude.{
  ℕ, suc, ◌≡◌, refl, true, false, some, List, [], ◌∷◌, ◌++◌, ◌==◌, if◌then◌else◌, arith, inl,
}
use amarr.Py.Result.{ok, err, os_error}
use amarr.Py.Seq.{Bytes, Text}
use amarr.Ed2k.Tags.{number, nothing, special, text}
use amarr.Ed2k.Server.{Found, op_idchange, op_reject, op_searchresult, parse_search_result}
use amarr.Ed2k.Session.{Server, search}
use amarr.Ed2k.Results.{Folding, SearchResult, plain, filter_by_query, results_of}
use amarr.Ed2k.Session.Reconnect.{Opens, Answers, search-reconnects}
use amarr.Ed2k.Session.Ends.{ended, search-ended}
use amarr.Ed2k.Session.Failures.{Refuses, search-Refuses}

abbrev file_hash : Bytes
file_hash = 1 ∷ 2 ∷ 3 ∷ 4 ∷ 5 ∷ 6 ∷ 7 ∷ 8 ∷ 9 ∷ 10 ∷ 11 ∷ 12 ∷ 13 ∷ 14 ∷ 15 ∷ 16 ∷ []

-- One result, with its name
abbrev results : Bytes
results =
    1
    ∷ 0
    ∷ 0
    ∷ 0
    ∷ (file_hash ++ 0 ∷ 0 ∷ 0 ∷ 0 ∷ 0 ∷ 0 ∷ 1 ∷ 0 ∷ 0 ∷ 0 ∷ 0x82 ∷ 1 ∷ 2 ∷ 0 ∷ 97 ∷ 98 ∷ [])

abbrev found : List Found
found = (file_hash, (special 1, text (97 ∷ 98 ∷ [])) ∷ []) ∷ []

results-parsed : parse_search_result results ≡ ok found
unfolding parse_search_result amarr.Ed2k.Server.read_results amarr.Ed2k.Server.read_tags
    amarr.Ed2k.Tags.read_tag amarr.Ed2k.Tags.value_at amarr.Ed2k.Tags.decode_str
    amarr.Py.Utf8.decode amarr.Py.Struct.unpack_le_from amarr.Py.Struct.of_le amarr.Py.Seq.get_index
    amarr.Py.Seq.slice amarr.Ed2k.Server.set_tag amarr.Py.Utf8.decode_char
results-parsed = refl

-- The state counts the calls. The first search that is sent fails.
abbrev restarted : Server ℕ
restarted = record {
  connect = λ w. (ok tt, suc w);
  login = λ w. (ok tt, suc w);
  send_search = λ query w. (if w == 0 then err os_error else ok tt, suc w);
  recv_packet = λ w. (
    if w == 4
        then ok (0x38, [])
        else if w == 5
        then ok (op_idchange, [])
        else ok (op_searchresult, results),
    suc w,
  );
  close = suc;
  now = λ w. 0;
}

-- Unicode as far as ASCII goes
abbrev ascii : Folding
ascii = record {
  unicode = record {
    decompose = λ s. s;
    combining = λ c. false;
    is_word = λ c. true;
    is_space = λ c. c == 32;
    lower = λ s. s;
  };
  normalize = λ s. s;
  casefold = λ s. s;
}

abbrev listing : SearchResult
listing = record {
  file_hash = file_hash;
  name = 97 ∷ 98 ∷ [];
  raw_name = 97 ∷ 98 ∷ [];
  size = plain (number 0);
  sources = nothing;
  complete_sources = nothing;
  tags = (special 1, text (97 ∷ 98 ∷ [])) ∷ [];
}

found-listed : results_of (filter_by_query ascii found (97 ∷ [])) ≡ ok (listing ∷ [])
unfolding results_of filter_by_query amarr.Ed2k.Results.fold_words amarr.Ed2k.Server.words_of
    amarr.Torznab.Indexer.Query.is_blank amarr.Ed2k.Results.keep_matching amarr.Ed2k.Results.all_in
    amarr.Ed2k.Results.is_in amarr.Ed2k.Results.get_tag amarr.Ed2k.Results.fold
    amarr.Torznab.Indexer.Query.without_marks amarr.Ed2k.Results.starts_with
    amarr.Ed2k.Results.from_tags amarr.Ed2k.Results.sanitize_filename amarr.Ed2k.Results.rstrip_dots
    amarr.Ed2k.Results.replace_invalid amarr.Prelude.elem
found-listed = refl

-- A message of the server comes before the greeting.
restarted-Opens : Opens restarted 1 1 2 6
restarted-Opens = record {
  connected = 3;
  logged_in = 4;
  payload = [];
  connects = refl;
  logs_in = refl;
  confirms = (ground arith, 0x38, [], 5, refl, refl, (ground arith, refl));
}

restarted-Answers : Answers restarted 1 (97 ∷ []) found 0 6 8
restarted-Answers = record {
  asked = 7;
  payload = results;
  sends = refl;
  answers = (ground arith, refl);
  parses = results-parsed;
}

search-reconnects_example :
    search restarted 1 ascii 2 600 (97 ∷ []) (record { connected = true; timer = true }, 0)
    ≡ some (
      results_of (filter_by_query ascii found (97 ∷ [])),
      (record { connected = true; timer = true }, 8),
    )
search-reconnects_example =
    search-reconnects restarted 1 ascii 2 600 0 1 0 (97 ∷ []) found os_error 0 1 6 8 true
      (ground arith, ground arith, ground arith) (refl, inl refl) restarted-Opens restarted-Answers

abbrev full : Server ℕ
full = record {
  connect = λ w. (ok tt, suc w);
  login = λ w. (ok tt, suc w);
  send_search = λ query w. (ok tt, suc w);
  recv_packet = λ w. (ok (op_reject, []), suc w);
  close = suc;
  now = λ w. w;
}

full-Refuses : (w : ℕ) → Refuses full 1 w (suc (suc (suc w)))
full-Refuses w = record {
  connected = suc w;
  logged_in = suc (suc w);
  payload = [];
  connects = refl;
  logs_in = refl;
  refuses = refl;
  patient = ground arith;
}

search-Refuses_example :
    search full 1 ascii 1 600 (97 ∷ []) (record { connected = false; timer = true }, 0)
    ≡ some (err os_error, (record { connected = false; timer = false }, 6))
search-Refuses_example =
    search-Refuses full 1 ascii 0 600 (97 ∷ []) 0 3 6 true (full-Refuses 0) (full-Refuses 3)

search-ended_example :
    ended (search full 3 ascii 5 600 (97 ∷ []) (record { connected = true; timer = false }, 0))
    ≡ true
search-ended_example =
    search-ended full 3 ascii 600 (97 ∷ []) (record { connected = true; timer = false }, 0)
      (λ w. ground arith)
