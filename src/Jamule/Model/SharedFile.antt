-- ===== src/Jamule/Model/SharedFile.antt =====
-- `SharedFileTag` of jamule/model.py and the accessors with a default for missing tags.
use amarr.Prelude.{ℕ, Option, none, some}
use amarr.Prelude.Int.{ℤ}
use amarr.Py.Result.{Result, ok, ◌>>=◌}
use amarr.Py.Seq.{Text}
use amarr.Ec.Tag.{Tags}
use amarr.Ec.Tag.Find.{
  find_numeric, get_short, get_int, get_long, optional_number, number_or, string_value, hash_value,
  byte_value,
}
use amarr.Ec.TagName.{
  ec_tag_partfile_hash, ec_tag_partfile_name, ec_tag_knownfile_filename, ec_tag_partfile_ed2k_link,
  ec_tag_partfile_size_full, ec_tag_knownfile_comment, ec_tag_knownfile_rating,
  ec_tag_knownfile_prio, ec_tag_knownfile_req_count, ec_tag_knownfile_req_count_all,
  ec_tag_knownfile_accept_count, ec_tag_knownfile_accept_count_all, ec_tag_knownfile_xferred,
  ec_tag_knownfile_xferred_all, ec_tag_knownfile_complete_sources_low,
  ec_tag_knownfile_complete_sources_high, ec_tag_knownfile_complete_sources,
  ec_tag_knownfile_on_queue,
}
use amarr.Jamule.Hex.{hex}
use amarr.Jamule.Model.{to_signed_byte}

abbrev pub default_to : ℕ → Option ℕ → ℕ
default_to default none = default
default_to default (some n) = n

abbrev pub map_option {ℓ κ} : {A : Type ℓ} {B : Type κ} → (A → B) → Option A → Option B
map_option f none = none
map_option f (some a) = some (f a)

-- `_byte_or`, `_short_or`, `_int_or`, `_long_or`
unfoldable pub byte_or : Tags → ℕ → ℕ → ℕ
byte_or subtags name default = default_to default (byte_value subtags name)

unfoldable pub short_or : Tags → ℕ → ℕ → Result ℕ
short_or subtags name default = number_or default get_short (find_numeric subtags name)

unfoldable pub int_or : Tags → ℕ → ℕ → Result ℕ
int_or subtags name default = number_or default get_int (find_numeric subtags name)

unfoldable pub long_or : Tags → ℕ → ℕ → Result ℕ
long_or subtags name default = number_or default get_long (find_numeric subtags name)

pub record SharedFileTag : Type 0 where
  pub file_hash_hex_string : Option Text
  pub file_name : Option Text
  pub file_path : Option Text
  pub size_full : Option ℕ
  pub file_ed2k_link : Option Text
  pub up_prio : ℤ
  pub get_requests : ℕ
  pub get_all_requests : ℕ
  pub get_accepts : ℕ
  pub get_all_accepts : ℕ
  pub get_xferred : ℕ
  pub get_all_xferred : ℕ
  pub get_complete_sources_low : ℕ
  pub get_complete_sources_high : ℕ
  pub get_complete_sources : ℕ
  pub get_on_queue : ℕ
  pub get_comment : Option Text
  pub get_rating : Option ℤ

-- `SharedFileTag.from_subtags`
unfoldable pub shared_file_from_subtags : Tags → Result SharedFileTag
shared_file_from_subtags subtags = do
  size_full ← optional_number get_long (find_numeric subtags ec_tag_partfile_size_full)
  requests ← short_or subtags ec_tag_knownfile_req_count 0
  all_requests ← int_or subtags ec_tag_knownfile_req_count_all 0
  accepts ← short_or subtags ec_tag_knownfile_accept_count 0
  all_accepts ← int_or subtags ec_tag_knownfile_accept_count_all 0
  xferred ← long_or subtags ec_tag_knownfile_xferred 0
  all_xferred ← long_or subtags ec_tag_knownfile_xferred_all 0
  low ← short_or subtags ec_tag_knownfile_complete_sources_low 0
  high ← short_or subtags ec_tag_knownfile_complete_sources_high 0
  sources ← short_or subtags ec_tag_knownfile_complete_sources 0
  on_queue ← short_or subtags ec_tag_knownfile_on_queue 0
  ok (record {
    file_hash_hex_string = map_option hex (hash_value subtags ec_tag_partfile_hash);
    file_name = string_value subtags ec_tag_partfile_name;
    file_path = string_value subtags ec_tag_knownfile_filename;
    size_full = size_full;
    file_ed2k_link = string_value subtags ec_tag_partfile_ed2k_link;
    up_prio = to_signed_byte (byte_or subtags ec_tag_knownfile_prio 0);
    get_requests = requests;
    get_all_requests = all_requests;
    get_accepts = accepts;
    get_all_accepts = all_accepts;
    get_xferred = xferred;
    get_all_xferred = all_xferred;
    get_complete_sources_low = low;
    get_complete_sources_high = high;
    get_complete_sources = sources;
    get_on_queue = on_queue;
    get_comment = string_value subtags ec_tag_knownfile_comment;
    get_rating = map_option to_signed_byte (byte_value subtags ec_tag_knownfile_rating);
  })
