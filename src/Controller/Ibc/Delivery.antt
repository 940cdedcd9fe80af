-- ===== src/Controller/Ibc/Delivery.antt =====
-- The controller's handling of an acknowledgement whose bytes are known.
use cw_ibc_demo.Prelude.{String, ◌≡◌, ◌==◌, if◌then◌else◌, Option, List, ok, arith, commit}
use cw_ibc_demo.Std.{Env, IbcPacketAckMsg, Response, QueryRequest}
use cw_ibc_demo.SimpleIca.Types.{PacketMsg, ibc_query, who_am_i, balances, StdAck}
use cw_ibc_demo.Platform.{Platform}
use cw_ibc_demo.Controller.State.{State}
use cw_ibc_demo.Controller.Contract.{query_latest_ibc_query_result}
use cw_ibc_demo.Controller.Ibc.{
  acknowledge_query, acknowledge_who_am_i, acknowledge_balances, acknowledge, ibc_packet_ack,
}

module _ (p : Platform) (env : Env) (m : IbcPacketAckMsg) (s : State p) (res : StdAck) where
  ibc_packet_ack-acknowledge :
      (packet : PacketMsg)
      → p.packet.from_slice m.original_packet.payload ≡ ok packet
      → p.ack.from_slice m.acknowledgement ≡ ok res
      → ibc_packet_ack p env m s ≡ acknowledge p env m.original_packet.src_channel res m packet s
  unfolding ibc_packet_ack
  ibc_packet_ack-acknowledge packet e a = rw (e, a)

  pub ibc_packet_ack-who_am_i :
      p.packet.from_slice m.original_packet.payload ≡ ok who_am_i
      → p.ack.from_slice m.acknowledgement ≡ ok res
      → ibc_packet_ack p env m s ≡ acknowledge_who_am_i p m.original_packet.src_channel res s
  unfolding acknowledge
  ibc_packet_ack-who_am_i e a = ibc_packet_ack-acknowledge who_am_i e a

  pub ibc_packet_ack-balances :
      p.packet.from_slice m.original_packet.payload ≡ ok balances
      → p.ack.from_slice m.acknowledgement ≡ ok res
      → ibc_packet_ack p env m s ≡ acknowledge_balances p env m.original_packet.src_channel res s
  unfolding acknowledge
  ibc_packet_ack-balances e a = ibc_packet_ack-acknowledge balances e a

  -- An acknowledgement of a packet of queries that is handled without error is kept, whole and
  -- with the time of the block, as the latest of its channel; the latest of every other channel
  -- stays.
  pub ibc_packet_ack-latest :
      (sender : String) (msgs : List QueryRequest) (callback_id : Option String) {r : Response}
      → p.packet.from_slice m.original_packet.payload ≡ ok (ibc_query sender msgs callback_id)
      → p.ack.from_slice m.acknowledgement ≡ ok res
      → (ibc_packet_ack p env m s).0 ≡ ok r
      → (k : String)
      → query_latest_ibc_query_result p (commit (ibc_packet_ack p env m) s) k ≡ (
          if m.original_packet.src_channel == k
          then ok (record { last_update_time = env.time; response = res })
          else query_latest_ibc_query_result p s k)
  unfolding acknowledge acknowledge_query ibc_packet_ack
  ibc_packet_ack-latest sender msgs callback_id e a h k = ground (
    arith,
    p.get-save s.latest_queries m.original_packet.src_channel
        (record { last_update_time = env.time; response = res }) k,
  )
