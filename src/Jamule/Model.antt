-- ===== src/Jamule/Model.antt =====
-- jamule/model.py: file states, download commands, categories, and the files that aMule reports.
pub mod SharedFile
pub mod PartFile
use amarr.Prelude.{ℕ, ◌-◌, ltb, ◌==◌, if◌then◌else◌}
use amarr.Prelude.Int.{ℤ, pos, negsuc, ◌-ℤ◌}
use amarr.Py.Result.{Result, ok, err, value_error}
use amarr.Py.Seq.{Text}
use amarr.Ec.OpCode.{
  ec_op_partfile_swap_a4af_this, ec_op_partfile_swap_a4af_this_auto,
  ec_op_partfile_swap_a4af_others, ec_op_partfile_pause, ec_op_partfile_resume, ec_op_partfile_stop,
  ec_op_partfile_delete,
}

pub data FileStatus : Type 0 where
  ready empty waiting_for_hash hashing error insufficient unknown paused completing : FileStatus
  complete allocating : FileStatus

-- `FileStatus.from_value`
unfoldable pub from_value : ℕ → Result FileStatus
from_value v =
    if v == 0
    then ok ready
    else if v == 1
    then ok empty
    else if v == 2
    then ok waiting_for_hash
    else if v == 3
    then ok hashing
    else if v == 4
    then ok error
    else if v == 5
    then ok insufficient
    else if v == 6
    then ok unknown
    else if v == 7
    then ok paused
    else if v == 8
    then ok completing
    else if v == 9
    then ok complete
    else if v == 10
    then ok allocating
    else err value_error

pub data DownloadCommand : Type 0 where
  swap_a4af_this swap_a4af_this_auto swap_a4af_others pause resume stop delete : DownloadCommand

-- The opcode that is the command's value.
unfoldable pub op_code : DownloadCommand → ℕ
op_code swap_a4af_this = ec_op_partfile_swap_a4af_this
op_code swap_a4af_this_auto = ec_op_partfile_swap_a4af_this_auto
op_code swap_a4af_others = ec_op_partfile_swap_a4af_others
op_code pause = ec_op_partfile_pause
op_code resume = ec_op_partfile_resume
op_code stop = ec_op_partfile_stop
op_code delete = ec_op_partfile_delete

pub record AmuleCategory : Type 0 where
  pub id : ℕ
  pub name : Text
  pub path : Text
  pub comment : Text
  pub color : ℕ
  pub priority : ℕ

-- `_to_signed_byte`
unfoldable pub to_signed_byte : ℕ → ℤ
unfolding ◌-ℤ◌
to_signed_byte value = if ltb value 128 then pos value else pos value -ℤ pos 256
