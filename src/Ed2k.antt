-- ===== src/Ed2k.antt =====
-- The eD2k network: its tags, the packets of a server, and the session that amarr keeps with one.
pub mod Tags
pub mod Server
pub mod Results
pub mod Session
