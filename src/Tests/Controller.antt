-- ===== src/Tests/Controller.antt =====
-- The controller: channel-1 is registered, its account is known.
use cw_ibc_demo.Prelude.{◌≡◌, ◌↔◌, ◌⊎◌, refl, none, some, List, [], ◌∷◌, ok, commit, arith, eq_iff}
use cw_ibc_demo.Std.{fire, wasm_execute, IbcPacketAckMsg}
use cw_ibc_demo.SimpleIca.Types.{dispatch, result, app_order, ibc_app_version}
use cw_ibc_demo.Platform.Demo.{demo}
use cw_ibc_demo.Platform.Demo.Texts.{name, unname}
use cw_ibc_demo.Platform.Demo.Packets.{get_packet, get_others, put_ack, get_ack}
use cw_ibc_demo.Platform.Demo.Calls.{put_callback}
use cw_ibc_demo.Controller.Msg.{update_admin}
use cw_ibc_demo.Controller.Ibc.{ibc_channel_open, ibc_packet_ack, acknowledge, acknowledge_dispatch}
use cw_ibc_demo.Controller.Ibc.Stable.{SameAccount}
use cw_ibc_demo.Controller.Ibc.Runs.{Call, executes, connects, acknowledges, run, run-SameAccount}
use cw_ibc_demo.Controller.Ibc.Callback.{Calls, ibc_packet_ack-Calls}
use cw_ibc_demo.Controller.Ibc.Updates.{ibc_packet_ack-error}
use cw_ibc_demo.Controller.Ibc.Handshake.{ibc_channel_open-ok_iff}
use cw_ibc_demo.Protocol.{carried, answered}
use cw_ibc_demo.SimpleIca.Types.{PacketMsg, StdAck}
use cw_ibc_demo.Controller.Ibc.{acknowledge}
use cw_ibc_demo.Controller.Ibc.Accepts.{Handled, ibc_packet_ack-ok_iff}
use cw_ibc_demo.Std.{Response}
use cw_ibc_demo.Tests.World.{now, deps, sent_by, channel, votes, of_controller}

-- The balances of the account that is known, as an acknowledgement.
abbrev balance_ack : IbcPacketAckMsg
balance_ack = answered (carried "channel-1" "channel-2" (1 ∷ [])) (0 ∷ 2 ∷ 5 ∷ 5 ∷ [])

-- A dispatch with a callback, answered with one result.
abbrev dispatch_ack : IbcPacketAckMsg
dispatch_ack = answered (carried "channel-1" "channel-2" (2 ∷ 6 ∷ 4 ∷ 8 ∷ [])) (0 ∷ 8 ∷ 0 ∷ [])

-- A query, answered with one result.
abbrev query_ack : IbcPacketAckMsg
query_ack = answered (carried "channel-1" "channel-2" (3 ∷ 6 ∷ 4 ∷ 3 ∷ [])) (0 ∷ 4 ∷ 0 ∷ [])

abbrev calls : List Call
calls =
    executes deps now (sent_by "admin") (update_admin "bob")
    ∷ acknowledges now balance_ack
    ∷ connects now (channel "channel-2")
    ∷ []

run-SameAccount_example :
    SameAccount
      (demo.get of_controller.accounts "channel-1")
      (demo.get (run demo of_controller calls).accounts "channel-1")
run-SameAccount_example =
    run-SameAccount demo of_controller calls "channel-1"
      (cc, (cc, (ground (arith, eq_iff "channel-2" "channel-1"), tt)))

ibc_packet_ack-Calls_example :
    Calls demo
      (result (8 ∷ 0 ∷ []))
      (some ("capturer", "id"))
      (fire (wasm_execute "capturer" (4 ∷ 0 ∷ 8 ∷ 0 ∷ []) []) ∷ [])
unfolding get_packet get_others get_ack put_ack unname name ibc_packet_ack acknowledge
    acknowledge_dispatch put_callback
ibc_packet_ack-Calls_example =
    ibc_packet_ack-Calls demo now dispatch_ack of_controller (dispatch "capturer" votes (some "id"))
      (result (8 ∷ 0 ∷ [])) refl refl refl

ibc_packet_ack-error_example :
    ((commit
        (ibc_packet_ack demo now (answered (carried "channel-1" "channel-2" (1 ∷ [])) (1 ∷ 4 ∷ [])))
        of_controller).accounts
      ≡ of_controller.accounts)
    × ((commit
          (ibc_packet_ack demo now
            (answered (carried "channel-1" "channel-2" (1 ∷ [])) (1 ∷ 4 ∷ [])))
          of_controller).config
        ≡ of_controller.config)
unfolding get_ack unname
ibc_packet_ack-error_example =
    ibc_packet_ack-error demo now (answered (carried "channel-1" "channel-2" (1 ∷ [])) (1 ∷ 4 ∷ []))
      of_controller "id" refl

ibc_channel_open-ok_iff_example : (ibc_channel_open (channel "channel-1") ≡ ok none) ↔ (
    ((channel "channel-1").channel.order ≡ app_order)
    × ((channel "channel-1").channel.version ≡ ibc_app_version)
    × (((channel "channel-1").counterparty_version ≡ none)
        ⊎ ((channel "channel-1").counterparty_version ≡ some ibc_app_version)))
ibc_channel_open-ok_iff_example = ibc_channel_open-ok_iff (channel "channel-1")

ibc_packet_ack-ok_iff_example :
    ((r : Response) × ((ibc_packet_ack demo now balance_ack of_controller).0 ≡ ok r)) ↔ (
      (packet : PacketMsg) × (res : StdAck) × (demo.packet.from_slice (1 ∷ []) ≡ ok packet)
      × (demo.ack.from_slice (0 ∷ 2 ∷ 5 ∷ 5 ∷ []) ≡ ok res)
      × Handled demo now balance_ack of_controller packet res)
ibc_packet_ack-ok_iff_example = ibc_packet_ack-ok_iff demo now balance_ack of_controller
