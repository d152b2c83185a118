-- ===== src/Ec/Packet.antt =====
-- jamule/ec/packet.py: flags, packets, their writer and their parser.
pub mod Flags
pub mod Stream
pub mod Writer
pub mod Parser
pub mod RoundTrip
pub mod Unread
use amarr.Prelude.{ℕ, Option, none}
use amarr.Ec.OpCode.{ec_op_noop}
use amarr.Ec.Tag.{Tag, Tags, nil}
use amarr.Ec.Tag.Find
use amarr.Ec.Packet.Flags.{TransmissionFlags, default_flags}

pub record Packet : Type 0 where
  pub op_code : ℕ
  pub tags : Tags
  pub flags : TransmissionFlags
  pub accepts : Option TransmissionFlags
  pub id : Option ℕ

-- `Packet()`: the defaults of the constructor.
abbrev pub default_packet : Packet
default_packet = record {
  op_code = ec_op_noop;
  tags = nil;
  flags = default_flags;
  accepts = none;
  id = none;
}
