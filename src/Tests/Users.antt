-- ===== src/Tests/Users.antt =====
-- What users ask of the controller: "admin" is its admin, channel-1 its registered channel.
use mathlib.Core.Option
use cw_ibc_demo.Prelude.{◌≡◌, ◌↔◌, refl, String, some, List, [], ◌∷◌, ok, err, commit, lookup}
use cw_ibc_demo.Std.{Binary, Coin, fire, ibc_send_packet, Response, generic_err}
use cw_ibc_demo.SimpleIca.Types.{dispatch}
use cw_ibc_demo.Platform.Demo.{demo}
use cw_ibc_demo.Platform.Demo.Texts.{name}
use cw_ibc_demo.Platform.Demo.Packets.{put_packet, put_others}
use cw_ibc_demo.Controller.Msg.{
  AccountData, AccountInfo, update_admin, send_msgs, check_remote_balance,
}
use cw_ibc_demo.Controller.Contract.{
  execute, execute_send_msgs, execute_send_funds, query_list_accounts,
}
use cw_ibc_demo.Controller.Contract.Accepts.{Allowed, execute-ok_iff}
use cw_ibc_demo.Controller.Contract.Auth.{execute-refuses, execute-keeps, execute-sends}
use cw_ibc_demo.Controller.Contract.Funds.{transfer, execute_send_funds-ok_iff}
use cw_ibc_demo.Controller.Contract.Listing.{find_info, query_list_accounts_lem}
use cw_ibc_demo.Tests.World.{now, atoms, deps, sent_by, paid_by, votes, of_controller}

execute-refuses_example :
    execute demo deps now (sent_by "bob") (check_remote_balance "channel-1") of_controller
    ≡ (err (generic_err "Only admin may send messages"), of_controller)
execute-refuses_example =
    execute-refuses demo deps now (sent_by "bob") of_controller (check_remote_balance "channel-1")
      (record { admin = "admin" }) "Only admin may send messages" refl (cc) refl

execute-keeps_example :
    (commit (execute demo deps now (sent_by "admin") (update_admin "bob")) of_controller).accounts
    ≡ of_controller.accounts
execute-keeps_example =
    (execute-keeps demo deps now (sent_by "admin") of_controller (update_admin "bob")
      (record { admin = "admin" }) refl).0

execute-sends_example :
    (bytes : Binary) × (fire (ibc_send_packet "channel-1" (2 ∷ 0 ∷ 4 ∷ 8 ∷ []) 3600000000100) ∷ []
      ≡ fire (ibc_send_packet "channel-1" bytes (demo.plus_seconds now.time 3600)) ∷ [])
    × (demo.packet.from_slice bytes ≡ ok (dispatch "admin" votes (some "id")))
    × ((execute demo deps now
          (sent_by "admin")
          (send_msgs "channel-1" votes (some "id"))
          of_controller).1
        ≡ of_controller)
unfolding execute execute_send_msgs put_packet put_others name lookup
execute-sends_example =
    execute-sends demo deps now (sent_by "admin") of_controller
      (send_msgs "channel-1" votes (some "id")) "channel-1" (dispatch "admin" votes (some "id"))
      refl refl

execute_send_funds-ok_iff_example :
    (execute_send_funds demo now (paid_by "bob") "channel-1" "channel-2" of_controller ≡ (
      ok (transfer demo now "channel-2" "account" (record { denom = "atom"; amount = 5 })),
      of_controller,
    ))
    ↔ ((coin : Coin) × (a : AccountData) × (addr : String) × (atoms ≡ coin ∷ [])
        × (demo.get of_controller.accounts "channel-1" ≡ some a)
        × (a.remote_addr ≡ some addr)
        × (transfer demo now "channel-2" "account" (record { denom = "atom"; amount = 5 })
            ≡ transfer demo now "channel-2" addr coin))
execute_send_funds-ok_iff_example =
    execute_send_funds-ok_iff demo now (paid_by "bob") "channel-1" "channel-2" of_controller
      (transfer demo now "channel-2" "account" (record { denom = "atom"; amount = 5 }))

query_list_accounts_lem_example :
    (l : List AccountInfo) × (query_list_accounts demo of_controller ≡ ok (record { accounts = l }))
    × ((k : String)
        → find_info k l
          ≡ Option.map
              (λ a. record {
                channel_id = k;
                last_update_time = a.last_update_time;
                remote_addr = a.remote_addr;
                remote_balance = a.remote_balance;
              })
              (demo.get of_controller.accounts k))
query_list_accounts_lem_example = query_list_accounts_lem demo of_controller

execute-ok_iff_example :
    ((r : Response) × ((execute demo deps now
          (sent_by "admin")
          (send_msgs "channel-1" votes (some "id"))
          of_controller).0
        ≡ ok r))
    ↔ (Allowed demo deps now
          (sent_by "admin")
          of_controller
          (send_msgs "channel-1" votes (some "id"))
        × ((bytes : Binary) × (demo.packet.to_binary (dispatch "admin" votes (some "id"))
              ≡ ok bytes)))
execute-ok_iff_example =
    execute-ok_iff demo deps now (sent_by "admin") of_controller
      (send_msgs "channel-1" votes (some "id")) "channel-1" (dispatch "admin" votes (some "id"))
      refl
