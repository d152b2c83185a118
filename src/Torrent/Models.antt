-- ===== src/Torrent/Models.antt =====
-- torrent/models.py: states and the view of a torrent. The fields of `TorrentInfo` that are constants
-- are left out but for `seeding_time`.
use amarr.Prelude.{ℕ, Option}
use amarr.Prelude.Int.{ℤ}
use amarr.Py.Seq.{Text}

pub data TorrentState : Type 0 where
  error stalled_dl missing_files paused_dl queued_dl checking_dl checking_up : TorrentState
  checking_resume_data paused_up uploading stalled_up queued_up forced_up meta_dl : TorrentState
  forced_dl moving downloading allocating unknown : TorrentState

-- A float that the code computes as `num / den`.
pub record Ratio : Type 0 where
  pub num : ℕ
  pub den : ℕ

pub record TorrentInfo : Type 0 where
  pub hash : Text
  pub name : Text
  pub size : ℕ
  pub progress : Ratio
  pub eta : ℤ
  pub state : TorrentState
  pub category : Option Text
  pub save_path : Text
  pub dlspeed : ℕ
  pub num_seeds : ℕ
  pub priority : ℤ
  pub total_size : ℕ
  pub downloaded : ℕ
  pub seeding_time : ℕ

pub record TorrentFile : Type 0 where
  pub name : Text

pub record TorrentProperties : Type 0 where
  pub hash : Text
  pub save_path : Text
  pub seeding_time : ℕ
