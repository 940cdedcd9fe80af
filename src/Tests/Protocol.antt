-- ===== src/Tests/Protocol.antt =====
-- A controller and a host across a channel.
use cw_ibc_demo.Prelude.{◌≡◌, refl, some, List, [], ◌∷◌, ok, commit, lookup, inr}
use cw_ibc_demo.Std.{Addr, Binary, Coin, fire, wasm_execute, respond}
use cw_ibc_demo.SimpleIca.Types.{result, receive_ica_response, ibc_app_version}
use cw_ibc_demo.Platform.Demo.{demo}
use cw_ibc_demo.Platform.Demo.Texts.{name, unname, put_coins, put_all}
use cw_ibc_demo.Platform.Demo.Packets.{
  put_packet, get_packet, put_others, get_others, put_requests, get_requests, put_ack, get_ack,
  put_who, put_balance,
}
use cw_ibc_demo.Platform.Demo.Calls.{put_callback, put_request}
use cw_ibc_demo.Controller.Contract.{query_latest_ibc_query_result}
use cw_ibc_demo.Controller.Ibc.{
  ibc_channel_connect, ibc_packet_ack, acknowledge, acknowledge_dispatch, acknowledge_query,
}
use cw_ibc_demo.Host.Packet.{
  ibc_packet_receive, receive, receive_who_am_i, receive_balances, receive_query, receive_dispatch,
  run_queries, unparsed_query,
}
use cw_ibc_demo.Host.Packet.Queries.{Answers}
use cw_ibc_demo.Host.Contract.{reply, reply_dispatch_callback}
use cw_ibc_demo.Capturer.Msg as msg
use cw_ibc_demo.Capturer.Contract as capturer
use cw_ibc_demo.Protocol.{carried, answered}
use cw_ibc_demo.Protocol.Registration.{connect-who_am_i, ack-balances}
use cw_ibc_demo.Protocol.Results.{query_latest-Answers, ack-dispatch}
use cw_ibc_demo.Host.Contract as host
use cw_ibc_demo.SimpleIca.Checks.{check_order, check_version}
use cw_ibc_demo.Controller.Ibc.{ibc_channel_open}
use cw_ibc_demo.Protocol.Handshake.{try_of, open-try}
use cw_ibc_demo.Protocol.Completion.{who_am_i-completes, dispatch-completes}
use cw_ibc_demo.Tests.World.{
  now, deps, sent_by, channel, votes, known, of_controller, of_host, of_capturer,
}

connect-who_am_i_example :
    (account : Addr) × (demo.get of_host.accounts "channel-2" ≡ some account)
    × (demo.get
          (commit
            (ibc_packet_ack demo now
              (answered (carried "channel-1" "channel-2" (0 ∷ [])) (0 ∷ 2 ∷ [])))
            (commit (ibc_channel_connect demo now (channel "channel-1")) of_controller)).accounts
          "channel-1"
        ≡ some (record { last_update_time = 0; remote_addr = some account; remote_balance = [] }))
unfolding put_packet get_packet ibc_packet_receive receive receive_who_am_i put_who put_ack name
    lookup
connect-who_am_i_example =
    connect-who_am_i demo deps now of_controller of_host "channel-2" (channel "channel-1") now
      (0 ∷ []) refl refl

ack-balances_example :
    (account : Addr) × (coins : List Coin) × (demo.get of_host.accounts "channel-2" ≡ some account)
    × (deps.query_all_balances account ≡ ok coins)
    × (demo.get
          (commit
            (ibc_packet_ack demo now
              (answered (carried "channel-1" "channel-2" (1 ∷ [])) (0 ∷ 2 ∷ 5 ∷ 5 ∷ [])))
            of_controller).accounts
          "channel-1"
        ≡ some
            (record { last_update_time = 100; remote_addr = some account; remote_balance = coins }))
unfolding put_packet get_packet ibc_packet_receive receive receive_balances put_balance put_coins
    put_ack name lookup
ack-balances_example =
    ack-balances demo deps now of_controller of_host "channel-2" "channel-1" now (1 ∷ []) known refl
      refl refl (λ account e. inr e)

query_latest-Answers_example :
    (rs : List Binary) × (res : Binary) × Answers demo deps (record { request = "query" } ∷ []) rs
    × (demo.queried.from_slice res ≡ ok (record { results = rs }))
    × (query_latest_ibc_query_result demo
          (commit
            (ibc_packet_ack demo now
              (answered (carried "channel-1" "channel-2" (3 ∷ 6 ∷ 4 ∷ 3 ∷ [])) (0 ∷ 4 ∷ 0 ∷ [])))
            of_controller)
          "channel-1"
        ≡ ok (record { last_update_time = 100; response = result res }))
unfolding put_packet get_packet put_requests get_requests ibc_packet_receive receive receive_query
    run_queries unparsed_query put_request put_all put_ack get_ack name unname lookup ibc_packet_ack
    acknowledge acknowledge_query put_callback
query_latest-Answers_example =
    query_latest-Answers demo deps of_controller of_host "channel-1" "channel-2" now
      (3 ∷ 6 ∷ 4 ∷ 3 ∷ []) "capturer" (record { request = "query" } ∷ []) (some "id") refl refl refl

ack-dispatch_example :
    (res call : Binary) × (demo.dispatched.from_slice res ≡ ok (record { results = (7 ∷ []) ∷ [] }))
    × (fire (wasm_execute "capturer" (4 ∷ 0 ∷ 8 ∷ 0 ∷ []) []) ∷ []
        ≡ fire (wasm_execute "capturer" call []) ∷ [])
    × (demo.callback.from_slice call
        ≡ ok (receive_ica_response (record { id = "id"; msg = result res })))
    × (capturer.query_result demo
          (commit
            (capturer.execute demo
              (sent_by "host")
              (msg.receive_ica_response (record { id = "id"; msg = result res })))
            of_capturer)
          "id"
        ≡ ok (record { result = result res }))
unfolding put_packet get_packet put_others get_others ibc_packet_receive receive receive_dispatch
    reply reply_dispatch_callback put_all put_ack get_ack name unname lookup ibc_packet_ack
    acknowledge acknowledge_dispatch put_callback
ack-dispatch_example =
    ack-dispatch demo deps of_controller of_host "channel-1" "channel-2" now (2 ∷ 6 ∷ 4 ∷ 8 ∷ [])
      "capturer" "id" votes (7 ∷ []) (0 ∷ 8 ∷ 0 ∷ []) of_capturer
      (record { admin = "admin"; simple_ica_controller = "host" }) (sent_by "host") refl refl refl
      refl refl refl refl

open-try_example :
    host.ibc_channel_open (try_of (channel "channel-1") "channel-2")
    ≡ ok (some (record { version = ibc_app_version }))
unfolding ibc_channel_open check_order check_version
open-try_example = open-try (channel "channel-1") "channel-2" refl

who_am_i-completes_example :
    (ibc_packet_ack demo now
      (answered (carried "channel-1" "channel-2" (0 ∷ [])) (0 ∷ 2 ∷ []))
      (commit (ibc_channel_connect demo now (channel "channel-1")) of_controller)).0
    ≡ ok (respond [] (("action", "acknowledge_who_am_i") ∷ []))
unfolding put_packet put_who put_ack name lookup
who_am_i-completes_example =
    (who_am_i-completes demo deps of_host "channel-2" "account" refl (0 ∷ []) of_controller now now
      (channel "channel-1") (2 ∷ []) (0 ∷ 2 ∷ []) refl refl refl).2

dispatch-completes_example :
    ibc_packet_ack demo now
      (answered (carried "channel-1" "channel-2" (2 ∷ 6 ∷ 4 ∷ 8 ∷ [])) (0 ∷ 8 ∷ 0 ∷ []))
      of_controller
    ≡ (
      ok (
          respond
            (fire (wasm_execute "capturer" (4 ∷ 0 ∷ 8 ∷ 0 ∷ []) []) ∷ [])
            (("action", "acknowledge_dispatch") ∷ ("callback_id", "id") ∷ [])),
      of_controller,
    )
unfolding put_packet put_others put_ack put_all put_callback name lookup
dispatch-completes_example =
    (dispatch-completes demo deps of_host "channel-2" "account" refl (2 ∷ 6 ∷ 4 ∷ 8 ∷ [])
      of_controller "channel-1" now "capturer" "id" votes (8 ∷ []) (0 ∷ []) (7 ∷ []) (8 ∷ 0 ∷ [])
      (0 ∷ 8 ∷ 0 ∷ []) (4 ∷ 0 ∷ 8 ∷ 0 ∷ []) refl refl refl refl refl refl).2
