-- ===== src/Torznab/Feed.antt =====
-- torznab/models.py: the feed that Sonarr and Radarr read. Fields that never change are left out.
use amarr.Prelude.{ℕ, List}
use amarr.Prelude.Int.{ℤ}
use amarr.Py.Seq.{Text}

pub record Enclosure : Type 0 where
  pub url : Text
  pub length : ℕ

pub record TorznabAttribute : Type 0 where
  pub name : Text
  pub value : Text

pub record Item : Type 0 where
  pub title : Text
  pub enclosure : Enclosure
  pub attributes : List TorznabAttribute
  pub comments : Text

pub record Response : Type 0 where
  pub offset : ℤ
  pub total : ℕ

pub record Channel : Type 0 where
  pub response : Response
  pub item : List Item

pub record Feed : Type 0 where
  pub channel : Channel
