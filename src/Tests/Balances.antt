-- ===== src/Tests/Balances.antt =====
-- The controller, which knows the account, asks for its balance; the answer waits.
use cw_ibc_demo.Prelude.{◌≡◌, ◌≢◌, refl, arith, inr, [], ◌∷◌, ok, err, lookup}
use cw_ibc_demo.Platform.Demo.{demo}
use cw_ibc_demo.Platform.Demo.Texts.{name, put_coins}
use cw_ibc_demo.Platform.Demo.Packets.{put_packet, get_packet, put_ack, put_balance}
use cw_ibc_demo.Controller.Msg.{check_remote_balance, remote_account_changed}
use cw_ibc_demo.Controller.Contract.{execute, execute_check_remote_balance}
use cw_ibc_demo.Controller.Ibc.{ibc_packet_ack}
use cw_ibc_demo.Controller.Ibc.Runs.{executes, step}
use cw_ibc_demo.Controller.Ibc.Runs.Sends.{sends}
use cw_ibc_demo.Host.Packet.{ibc_packet_receive, receive, receive_balances}
use cw_ibc_demo.Protocol.{carried, answered}
use cw_ibc_demo.Protocol.Runtime.{settle, deliver}
use cw_ibc_demo.Protocol.Net.{
  Net, Move, enqueue, put, sent, acked, delivers, Reach, next, calls, moves,
}
use cw_ibc_demo.Protocol.Net.Unchanged.{Reach-unchanged}
use cw_ibc_demo.Protocol.Net.Handles.{Reach-handles}
use cw_ibc_demo.Std.{Response}
use cw_ibc_demo.Tests.World.{now, deps, sent_by}
use cw_ibc_demo.Tests.Net.{unknown, knowing, learned, answers, Reach-knowing}

abbrev checking : Net demo
checking = record knowing { next = 2; slot = put knowing.slot 1 (sent (1 ∷ [])) }

abbrev waiting : Net demo
waiting = record checking { slot = put checking.slot 1 (acked (1 ∷ []) (0 ∷ 2 ∷ 5 ∷ 5 ∷ [])) }

Reach-checking : Reach demo "channel-1" "channel-2" unknown checking
unfolding enqueue sends step execute execute_check_remote_balance put_packet lookup
Reach-checking =
    next Reach-knowing
      (calls (executes deps now (sent_by "admin") (check_remote_balance "channel-1")) tt)

balance_told : Move demo "channel-1" "channel-2" checking waiting
unfolding deliver settle ibc_packet_receive receive receive_balances get_packet put_balance
    put_coins put_ack name lookup
balance_told = delivers 1 deps answers refl refl

Reach-unchanged_example :
    (ibc_packet_ack demo now
      (answered (carried "channel-1" "channel-2" (1 ∷ [])) (0 ∷ 2 ∷ 5 ∷ 5 ∷ []))
      waiting.controller).0
    ≢ err (remote_account_changed "bob" "account")
unfolding lookup
Reach-unchanged_example =
    Reach-unchanged demo "channel-1" "channel-2" 1 now "bob" "account" (λ i. refl)
      (λ a found. ground arith) (next Reach-checking (moves balance_told)) refl

Reach-handles_example :
    (r : Response) × ((ibc_packet_ack demo now
        (answered (carried "channel-1" "channel-2" (1 ∷ [])) (0 ∷ 2 ∷ 5 ∷ 5 ∷ []))
        waiting.controller).0
      ≡ ok r)
unfolding lookup get_packet
Reach-handles_example =
    Reach-handles demo "channel-1" "channel-2" (λ i. refl) (λ a found. ground arith)
      (next Reach-checking (moves balance_told)) 1 refl now learned refl (inr refl) refl
