-- ===== src/Jamule/Response/Connected.antt =====
-- `BuddyState`, `ConnectionState` and `_int_to_ipv4` of jamule/response.py.
use amarr.Prelude.{
  ℕ, ◌%◌, ◌^◌, Bool, not, Option, none, some, [], ◌∷◌, ◌++◌, bit_and, ◌==◌, if◌then◌else◌,
}
use amarr.Py.Result.{Result, ok, ◌>>=◌}
use amarr.Py.Seq.{Bytes, Text}
use amarr.Py.Struct.{be_bytes}
use amarr.Py.Decimal.{decimal}
use amarr.Ec.TagName.{
  ec_tag_server, ec_tag_server_ping, ec_tag_server_prio, ec_tag_server_failed, ec_tag_server_static,
  ec_tag_server_version, ec_tag_server_desc, ec_tag_server_users, ec_tag_server_users_max,
  ec_tag_server_files, ec_tag_ed2k_id, ec_tag_kad_id, ec_tag_client_id,
}
use amarr.Ec.Tag.{Tag, Ipv4, subtags, value}
use amarr.Ec.Tag.Find.{
  find_numeric, get_int, optional_number, string_value, as_byte, as_ipv4, ipv4_value,
}
use amarr.Jamule.Model.SharedFile.{map_option}
use amarr.Jamule.Response.Reading.{required_number, first_named}

pub data BuddyState : Type 0 where
  disconnected connecting connected : BuddyState

-- `BuddyState.from_byte`
unfoldable pub from_byte : ℕ → Option BuddyState
from_byte value =
    if value == 0
    then some disconnected
    else if value == 1
    then some connecting
    else if value == 2
    then some connected
    else none

pub record ConnectionState : Type 0 where
  pub ed2k_connected : Bool
  pub ed2k_connecting : Bool
  pub kad_connected : Bool
  pub kad_firewalled : Bool
  pub kad_running : Bool
  pub server_ipv4 : Option Ipv4
  pub server_ping : Option ℕ
  pub server_prio : Option ℕ
  pub server_failed : Option ℕ
  pub server_static : Option Bool
  pub server_version : Option Text
  pub server_description : Option Text
  pub server_users : Option ℕ
  pub server_users_max : Option ℕ
  pub server_files : Option ℕ
  pub ed2k_id : Option ℕ
  pub kad_id : Option ℕ
  pub client_id : Option ℕ

-- `(byte & mask) != 0`
abbrev pub bit : ℕ → ℕ → Bool
bit byte mask = not (bit_and byte mask == 0)

-- `raw != 0`
abbrev pub is_set : ℕ → Bool
is_set n = not (n == 0)

-- `sub_num` and `sub_str`, on a tag that may be `None`
unfoldable pub sub_num : Option Tag → ℕ → Result (Option ℕ)
sub_num none name = ok none
sub_num (some t) name = optional_number get_int (find_numeric (subtags t) name)

unfoldable pub sub_str : Option Tag → ℕ → Option Text
sub_str none name = none
sub_str (some t) name = string_value (subtags t) name

-- `ConnectionState.from_con_state_tag`
unfoldable pub from_con_state_tag : Tag → Result ConnectionState
from_con_state_tag t = do
  byte ← required_number get_int (as_byte (some t))
  let server = first_named (subtags t) ec_tag_server
  static_raw ← sub_num server ec_tag_server_static
  ed2k_id ← optional_number get_int (find_numeric (subtags t) ec_tag_ed2k_id)
  kad_id ← optional_number get_int (find_numeric (subtags t) ec_tag_kad_id)
  client_id ← optional_number get_int (find_numeric (subtags t) ec_tag_client_id)
  ping ← sub_num server ec_tag_server_ping
  prio ← sub_num server ec_tag_server_prio
  failed ← sub_num server ec_tag_server_failed
  users ← sub_num server ec_tag_server_users
  users_max ← sub_num server ec_tag_server_users_max
  files ← sub_num server ec_tag_server_files
  ok (record {
    ed2k_connected = bit byte 0x01;
    ed2k_connecting = bit byte 0x02;
    kad_connected = bit byte 0x04;
    kad_firewalled = bit byte 0x08;
    kad_running = bit byte 0x10;
    server_ipv4 = ipv4_value (as_ipv4 server);
    server_ping = ping;
    server_prio = prio;
    server_failed = failed;
    server_static = map_option is_set static_raw;
    server_version = sub_str server ec_tag_server_version;
    server_description = sub_str server ec_tag_server_desc;
    server_users = users;
    server_users_max = users_max;
    server_files = files;
    ed2k_id = ed2k_id;
    kad_id = kad_id;
    client_id = client_id;
  })

-- `".".join(...)`
abbrev pub dotted : Bytes → Text
dotted [] = []
dotted (b ∷ []) = decimal b
dotted (b ∷ c ∷ bs) = decimal b ++ 46 ∷ dotted (c ∷ bs)

-- `_int_to_ipv4`
unfoldable pub int_to_ipv4 : ℕ → Text
int_to_ipv4 value = dotted (be_bytes 4 (value % 2 ^ 32))
