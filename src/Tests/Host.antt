-- ===== src/Tests/Host.antt =====
-- The host: channel-2 has its account, and the results of an earlier dispatch are stored.
use cw_ibc_demo.Prelude.{
  if◌then◌else◌, ◌==◌, ◌≡◌, ◌↔◌, ◌⊎◌, refl, String, none, some, List, [], ◌∷◌, ok, commit, lookup,
}
use cw_ibc_demo.Std.{
  Addr, Coin, Reply, success, fire, wasm_execute, IbcPacket, IbcReceiveResponse, QueryRequest,
}
use cw_ibc_demo.SimpleIca.Types.{dispatch, app_order, ibc_app_version}
use cw_ibc_demo.Platform.Demo.{demo}
use cw_ibc_demo.Platform.Demo.Texts.{name, unname, put_coins, put_all}
use cw_ibc_demo.Platform.Demo.Packets.{get_packet, put_others, get_others, put_ack}
use cw_ibc_demo.Platform.Demo.Calls.{put_reflect}
use cw_ibc_demo.Host.Msg.{AccountInfo}
use cw_ibc_demo.Host.State.{State}
use cw_ibc_demo.Host.Contract.{
  ibc_channel_open, ibc_channel_connect, ibc_channel_close, query_account, query_list_accounts,
  reply, init_callback_id,
}
use cw_ibc_demo.Host.Contract.Handshake.{ibc_channel_open-some_iff}
use cw_ibc_demo.Host.Contract.Replies.{replies}
use cw_ibc_demo.Host.Contract.Close.{Asks, ibc_channel_close-Asks}
use cw_ibc_demo.Host.Contract.Listing.{find_info, answer, query_account-list}
use cw_ibc_demo.Host.Packet.{ibc_packet_receive, receive, receive_dispatch, run_queries}
use cw_ibc_demo.Host.Packet.Accepts.{Accepts, ibc_packet_receive-ok_iff}
use cw_ibc_demo.Host.Packet.Queries.{Answers, run_queries_iff}
use cw_ibc_demo.Host.Packet.Dispatch.{results-replies-dispatch}
use cw_ibc_demo.Host.Runs.{here, next, connects, replied, Reach-account}
use cw_ibc_demo.Protocol.{carried}
use cw_ibc_demo.Tests.World.{now, deps, channel, votes, of_host}

abbrev packet : IbcPacket
packet = carried "channel-1" "channel-2" (2 ∷ 6 ∷ 4 ∷ 8 ∷ [])

abbrev asked : List QueryRequest
asked = record { request = "query" } ∷ []

-- The reply to the instantiation: the new account is "bob".
abbrev created : Reply
created = record { id = init_callback_id; result = success (some (10 ∷ [])) }

abbrev connected : State demo
connected =
    commit (reply demo deps created)
      (commit (ibc_channel_connect demo now (channel "channel-1")) of_host)

Reach-account_example : demo.get connected.accounts "channel-2" ≡ some "account"
unfolding lookup
Reach-account_example =
    Reach-account {p = demo} "channel-2" "account" {s = of_host}
      (next (next here (connects now (channel "channel-1")) tt) (replied deps created) tt) refl

results-replies-dispatch_example :
    demo.item_get
      (replies demo deps
        (some (7 ∷ []) ∷ none ∷ [])
        (commit (ibc_packet_receive demo deps packet) of_host)).results
    ≡ some ((7 ∷ []) ∷ [] ∷ [])
unfolding get_packet get_others put_others name unname put_all put_ack ibc_packet_receive receive
    receive_dispatch lookup
results-replies-dispatch_example =
    results-replies-dispatch demo deps packet "capturer" votes (some "id") of_host
      (some (7 ∷ []) ∷ none ∷ []) ((_, refl), ((_, refl), tt)) refl refl

ibc_channel_close-Asks_example :
    (account : Addr) × (coins : List Coin) × (demo.get of_host.accounts "channel-2" ≡ some account)
    × (deps.query_all_balances account ≡ ok coins)
    × Asks demo "host" account coins (fire (wasm_execute "account" (7 ∷ 5 ∷ 5 ∷ []) []) ∷ [])
    × ((k : String)
        → demo.get
            (commit (ibc_channel_close demo deps now (channel "channel-2")) of_host).accounts
            k
          ≡ (if "channel-2" == k then none else demo.get of_host.accounts k))
unfolding lookup ibc_channel_close put_reflect put_coins name
ibc_channel_close-Asks_example =
    ibc_channel_close-Asks demo deps now (channel "channel-2") of_host refl

ibc_channel_open-some_iff_example :
    (ibc_channel_open (channel "channel-1") ≡ ok (some (record { version = ibc_app_version }))) ↔ (
      ((channel "channel-1").channel.order ≡ app_order)
      × (((channel "channel-1").counterparty_version ≡ none)
          ⊎ ((channel "channel-1").counterparty_version ≡ some ibc_app_version)))
ibc_channel_open-some_iff_example = ibc_channel_open-some_iff (channel "channel-1")

run_queries_iff_example :
    (run_queries demo deps asked ≡ ok ((3 ∷ []) ∷ [])) ↔ Answers demo deps asked ((3 ∷ []) ∷ [])
run_queries_iff_example = run_queries_iff demo deps asked ((3 ∷ []) ∷ [])

query_account-list_example :
    (l : List AccountInfo) × (query_list_accounts demo of_host ≡ ok (record { accounts = l }))
    × ((k : String) → query_account demo of_host k ≡ answer (find_info k l))
query_account-list_example = query_account-list demo of_host

ibc_packet_receive-ok_iff_example :
    ((r : IbcReceiveResponse) × ((ibc_packet_receive demo deps packet of_host).0 ≡ ok r))
    ↔ Accepts demo deps "channel-2" of_host (dispatch "capturer" votes (some "id"))
unfolding get_packet get_others unname
ibc_packet_receive-ok_iff_example =
    ibc_packet_receive-ok_iff demo deps packet of_host (dispatch "capturer" votes (some "id")) refl
