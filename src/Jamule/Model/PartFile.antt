-- ===== src/Jamule/Model/PartFile.antt =====
-- `PartFileTag` of jamule/model.py.
use amarr.Prelude.{ℕ, Bool, not, Option, ◌==◌}
use amarr.Prelude.Int.{ℤ}
use amarr.Py.Result.{Result, ok, ◌>>=◌}
use amarr.Ec.Tag.{Tags}
use amarr.Ec.Tag.Find.{find_numeric, get_short, get_long, optional_number}
use amarr.Ec.TagName.{
  ec_tag_partfile_partmetid, ec_tag_partfile_size_xfer, ec_tag_partfile_size_done,
  ec_tag_partfile_speed, ec_tag_partfile_status, ec_tag_partfile_stopped,
  ec_tag_partfile_source_count, ec_tag_partfile_source_count_not_current,
  ec_tag_partfile_source_count_xfer, ec_tag_partfile_source_count_a4af, ec_tag_partfile_prio,
  ec_tag_partfile_cat, ec_tag_partfile_last_seen_comp, ec_tag_partfile_last_recv,
  ec_tag_partfile_download_active, ec_tag_partfile_available_parts, ec_tag_partfile_a4afauto,
  ec_tag_partfile_hashed_part_count, ec_tag_partfile_lost_corruption,
  ec_tag_partfile_gained_compression, ec_tag_partfile_saved_ich,
}
use amarr.Jamule.Model.{FileStatus, from_value, to_signed_byte}
use amarr.Jamule.Model.SharedFile.{
  SharedFileTag, shared_file_from_subtags, byte_or, short_or, int_or, long_or,
}

-- The subclass has the fields of `SharedFileTag`, reached as its own.
pub record PartFileTag : Type 0 where
  pub shared : SharedFileTag
  pub open shared use *
  pub part_met_id : Option ℕ
  pub size_xfer : Option ℕ
  pub size_done : Option ℕ
  pub file_status : FileStatus
  pub stopped : Bool
  pub source_count : ℕ
  pub source_not_curr_count : ℕ
  pub source_xfer_count : ℕ
  pub source_count_a4af : ℕ
  pub speed : Option ℕ
  pub down_prio : ℤ
  pub file_cat : ℕ
  pub last_seen_complete : ℕ
  pub last_date_changed : ℕ
  pub download_active_time : ℕ
  pub available_part_count : ℕ
  pub a4af_auto : Bool
  pub hashing_progress : Bool
  pub get_lost_due_to_corruption : ℕ
  pub get_gain_due_to_compression : ℕ
  pub total_packets_saved_due_to_ich : ℕ

abbrev byte_flag : Tags → ℕ → Bool
byte_flag subtags name = not (byte_or subtags name 0 == 0)

-- `PartFileTag.from_subtags`. A missing status is `FileStatus.UNKNOWN`, of value 6.
unfoldable pub part_file_from_subtags : Tags → Result PartFileTag
part_file_from_subtags subtags = do
  base ← shared_file_from_subtags subtags
  part_met ← optional_number get_short (find_numeric subtags ec_tag_partfile_partmetid)
  size_xfer ← optional_number get_long (find_numeric subtags ec_tag_partfile_size_xfer)
  size_done ← optional_number get_long (find_numeric subtags ec_tag_partfile_size_done)
  status ← from_value (byte_or subtags ec_tag_partfile_status 6)
  sources ← short_or subtags ec_tag_partfile_source_count 0
  not_current ← short_or subtags ec_tag_partfile_source_count_not_current 0
  transferring ← short_or subtags ec_tag_partfile_source_count_xfer 0
  a4af ← short_or subtags ec_tag_partfile_source_count_a4af 0
  speed ← optional_number get_long (find_numeric subtags ec_tag_partfile_speed)
  cat ← long_or subtags ec_tag_partfile_cat 0
  last_seen ← long_or subtags ec_tag_partfile_last_seen_comp 0
  last_changed ← long_or subtags ec_tag_partfile_last_recv 0
  active ← int_or subtags ec_tag_partfile_download_active 0
  available ← short_or subtags ec_tag_partfile_available_parts 0
  lost ← long_or subtags ec_tag_partfile_lost_corruption 0
  gained ← long_or subtags ec_tag_partfile_gained_compression 0
  saved ← int_or subtags ec_tag_partfile_saved_ich 0
  ok (record {
    shared = base;
    part_met_id = part_met;
    size_xfer = size_xfer;
    size_done = size_done;
    file_status = status;
    stopped = byte_flag subtags ec_tag_partfile_stopped;
    source_count = sources;
    source_not_curr_count = not_current;
    source_xfer_count = transferring;
    source_count_a4af = a4af;
    speed = speed;
    down_prio = to_signed_byte (byte_or subtags ec_tag_partfile_prio 0);
    file_cat = cat;
    last_seen_complete = last_seen;
    last_date_changed = last_changed;
    download_active_time = active;
    available_part_count = available;
    a4af_auto = byte_flag subtags ec_tag_partfile_a4afauto;
    hashing_progress = byte_flag subtags ec_tag_partfile_hashed_part_count;
    get_lost_due_to_corruption = lost;
    get_gain_due_to_compression = gained;
    total_packets_saved_due_to_ich = saved;
  })
