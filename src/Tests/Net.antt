-- ===== src/Tests/Net.antt =====
-- A controller and a host with a packet between them, from sending to callback.
use cw_ibc_demo.Prelude.{◌≡◌, ◌≤◌, ◌+◌, ◌*◌, String, length, refl, arith, some, [], ◌∷◌, ok, lookup}
use cw_ibc_demo.Std.{Binary, fire, wasm_execute}
use cw_ibc_demo.SimpleIca.Types.{StdAck, receive_ica_response}
use cw_ibc_demo.Platform.Demo.{demo}
use cw_ibc_demo.Platform.Demo.Texts.{name, unname, put_all}
use cw_ibc_demo.Platform.Demo.Packets.{
  put_packet, get_packet, put_others, get_others, put_ack, get_ack, put_who, get_who,
}
use cw_ibc_demo.Platform.Demo.Calls.{put_callback}
use cw_ibc_demo.Controller.Msg.{AccountData, default_account, send_msgs}
use cw_ibc_demo.Platform.Demo.Assoc.{entered}
use cw_ibc_demo.Controller.Contract.{execute, execute_send_msgs}
use cw_ibc_demo.Controller.Ibc.{
  ibc_channel_connect, ibc_packet_ack, acknowledge, acknowledge_dispatch, acknowledge_who_am_i,
  set_first_addr,
}
use cw_ibc_demo.Controller.Ibc.Runs.{Call, executes, connects, step}
use cw_ibc_demo.Controller.Ibc.Runs.Sends.{sends, AdminSends, sends-le_one}
use cw_ibc_demo.Host.Packet.{ibc_packet_receive, receive, receive_dispatch, receive_who_am_i}
use cw_ibc_demo.Host.Contract.{reply, reply_dispatch_callback}
use cw_ibc_demo.Protocol.Runtime.{Chain, settle, deliver}
use cw_ibc_demo.Protocol.Net.{
  Net, idle, enqueue, put, Move, delivers, handles, Reach, here, next, calls, moves, sent, acked,
  done,
}
use cw_ibc_demo.Protocol.Net.Outcomes.{Reach-FromAdmin}
use cw_ibc_demo.Protocol.Net.Callers.{Requested, Reach-called}
use cw_ibc_demo.Protocol.Net.Events.{Took, Sending}
use cw_ibc_demo.Protocol.Net.Refines.{Reach-agreed_net}
use cw_ibc_demo.Protocol.Net.Ends.{pending, rest, work, Work-le}
use cw_ibc_demo.Tests.World.{now, deps, sent_by, channel, votes, of_controller, of_host}

abbrev start : Net demo
start = record { controller = of_controller; host = of_host; next = 0; slot = λ i. idle }

-- Every message returns the data `7`.
abbrev pub answers : Chain
answers m = ok (some (7 ∷ []))

-- The admin has the account vote.
abbrev vote : Call
vote = executes deps now (sent_by "admin") (send_msgs "channel-1" votes (some "id"))

abbrev packet : Binary
packet = 2 ∷ 0 ∷ 4 ∷ 8 ∷ []

abbrev ack : Binary
ack = 0 ∷ 8 ∷ 0 ∷ []

-- The packet is sent, received and answered, and the answer is handled.
abbrev voted : Net demo
voted = record start { next = 1; slot = put start.slot 0 (sent packet) }

abbrev received : Net demo
received = record voted {
  host = record of_host { results = some ((7 ∷ []) ∷ []) };
  slot = put voted.slot 0 (acked packet ack);
}

abbrev handled : Net demo
handled = record received {
  slot =
      put received.slot 0
        (done packet ack (fire (wasm_execute "admin" (4 ∷ 0 ∷ 8 ∷ 0 ∷ []) []) ∷ []));
}

Reach-voted : Reach demo "channel-1" "channel-2" start voted
unfolding enqueue sends step execute execute_send_msgs put_packet put_others name lookup
Reach-voted = next here (calls vote tt)

delivered : Move demo "channel-1" "channel-2" voted received
unfolding deliver settle ibc_packet_receive receive receive_dispatch reply reply_dispatch_callback
    get_packet get_others put_others put_all put_ack name unname lookup
delivered = delivers 0 deps answers refl refl

called_back : Move demo "channel-1" "channel-2" received handled
unfolding enqueue ibc_packet_ack acknowledge acknowledge_dispatch get_packet get_others get_ack
    put_callback put_ack name unname lookup
called_back = handles 0 now refl refl

Reach-handled : Reach demo "channel-1" "channel-2" start handled
Reach-handled = next (next Reach-voted (moves delivered)) (moves called_back)

Reach-FromAdmin_example :
    Took
      (Sending 0 packet
        (λ l c. AdminSends demo l.controller "channel-1" c "admin" votes (some "id")))
      Reach-handled
unfolding get_packet get_others unname
Reach-FromAdmin_example =
    Reach-FromAdmin "channel-1" "channel-2" start 0 (λ i. refl) Reach-handled refl refl

Reach-called_example :
    (caller id : String) × (res : StdAck) × (call : Binary) × (fire
          (wasm_execute "admin" (4 ∷ 0 ∷ 8 ∷ 0 ∷ []) [])
        ∷ []
      ≡ fire (wasm_execute caller call []) ∷ [])
    × (demo.ack.from_slice ack ≡ ok res)
    × (demo.callback.from_slice call ≡ ok (receive_ica_response (record { id = id; msg = res })))
    × Took (Sending 0 packet (λ l c. Requested "channel-1" c caller id)) Reach-handled
Reach-called_example =
    Reach-called "channel-1" "channel-2" start 0 (λ i. refl) Reach-handled refl (λ e. cc e)

Work-le_example :
    (2 + pending handled ≤ pending voted) × (pending voted ≤ 2 * 1) × (handled.next ≡ voted.next)
Work-le_example =
    Work-le demo "channel-1" "channel-2" (λ i. refl) Reach-voted
      (work (work rest delivered) called_back)

-- The controller does not know the account, and asks who it is.
abbrev pub unknown : Net demo
unknown = record start {
  controller = record of_controller { accounts = ("channel-1", default_account) ∷ [] };
  slot = λ i. idle;
}

abbrev pub learned : AccountData
learned = record { last_update_time = 0; remote_addr = some "account"; remote_balance = [] }

abbrev asked : Net demo
asked = record unknown { next = 1; slot = put unknown.slot 0 (sent (0 ∷ [])) }

abbrev told : Net demo
told = record asked { slot = put asked.slot 0 (acked (0 ∷ []) (0 ∷ 2 ∷ [])) }

abbrev pub knowing : Net demo
knowing = record told {
  controller = record of_controller { accounts = ("channel-1", learned) ∷ [] };
  slot = put told.slot 0 (done (0 ∷ []) (0 ∷ 2 ∷ []) []);
}

Reach-asked : Reach demo "channel-1" "channel-2" unknown asked
unfolding enqueue sends step ibc_channel_connect put_packet entered
Reach-asked = next here (calls (connects now (channel "channel-1")) tt)

pub Reach-knowing : Reach demo "channel-1" "channel-2" unknown knowing
unfolding enqueue deliver settle ibc_packet_receive receive receive_who_am_i get_packet get_ack
    put_who get_who put_ack name unname lookup ibc_packet_ack acknowledge acknowledge_who_am_i
    set_first_addr entered
Reach-knowing =
    next (next Reach-asked (moves (delivers 0 deps answers refl refl)))
      (moves (handles 0 now refl refl))

Reach-agreed_net_example : demo.get knowing.host.accounts "channel-2" ≡ some "account"
unfolding lookup
Reach-agreed_net_example =
    Reach-agreed_net demo "channel-1" "channel-2" "account" (λ i. refl) (λ a found. ground arith)
      Reach-knowing (learned, refl, refl)

sends-le_one_example : length (sends demo of_controller vote) ≤ 1
sends-le_one_example = sends-le_one demo of_controller vote
