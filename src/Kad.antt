-- ===== src/Kad.antt =====
-- The Kad side of amarr: kad_session.py.
pub mod Session
