-- ===== src/Torrent.antt =====
-- torrent/service.py and the models of torrent/models.py that it fills.
pub mod Models
pub mod Info
pub mod Service
