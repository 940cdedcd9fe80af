-- ===== src/Protocol.antt =====
-- The two contracts across a channel: a packet of the controller is received by the host, and the
-- acknowledgement comes back. The channel itself (IBC) carries both unchanged.
pub mod Net
pub mod Runtime
pub mod Handshake
pub mod Link
pub mod Completion
pub mod Registration
pub mod Results
use cw_ibc_demo.Prelude.{String}
use cw_ibc_demo.Std.{Binary, IbcPacket, IbcPacketAckMsg}

-- A packet from the controller's channel to the host's.
abbrev pub carried : String → String → Binary → IbcPacket
carried src dest bytes = record { payload = bytes; src_channel = src; dest_channel = dest }

-- The acknowledgement of a packet.
abbrev pub answered : IbcPacket → Binary → IbcPacketAckMsg
answered packet bytes = record { acknowledgement = bytes; original_packet = packet }
