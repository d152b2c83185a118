-- ===== src/Ec.antt =====
-- The EC protocol layer: jamule/ec/codes.py, encoding.py, tag.py and packet.py.
pub mod OpCode
pub mod TagName
pub mod Encoding
pub mod TagType
pub mod Tag
pub mod Packet
