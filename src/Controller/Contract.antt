-- ===== src/Controller/Contract.antt =====
-- contracts/simple-ica-controller/src/contract.rs: instantiate, execute and query.
pub mod Accepts
pub mod Auth
pub mod Funds
pub mod Listing
use cw_ibc_demo.Prelude.{
  ℕ, ◌*◌, String, ◌==◌, Option, none, some, List, [], ◌∷◌, map, Entry, pure, ensure, modify, lift,
  ◌>>=◌, ◌>>◌, Outcome, ok, and_then,
}
use cw_ibc_demo.Std.{
  Binary, Coin, StdError, generic_err, CosmosMsg, ibc_send_packet, ibc_transfer, QueryRequest, fire,
  Response, respond, MessageInfo, Env,
}
use cw_ibc_demo.SimpleIca.Types.{PacketMsg, dispatch, balances}
use cw_ibc_demo.SimpleIca.Types as types
use cw_ibc_demo.Platform.{Platform, Deps, StdResult, required}
use cw_ibc_demo.Controller.Msg.{
  ExecuteMsg, update_admin, send_msgs, check_remote_balance, ibc_query, send_funds, QueryMsg,
  Config, AccountInfo, AccountResponse, AdminResponse, LatestQueryResponse, ListAccountsResponse,
  convert, account_response,
}
use cw_ibc_demo.Controller.Msg as msg
use cw_ibc_demo.Controller.State.{State, load_config, save_config, load_account}

-- `PACKET_LIFETIME` of ibc.rs: packets live one hour.
abbrev pub packet_lifetime : ℕ
packet_lifetime = 60 * 60

-- `info.funds.pop()` and the test that nothing else is there.
abbrev pub single_coin : List Coin → StdResult Coin
single_coin [] = Outcome.err (generic_err "you must send the coins you wish to ibc transfer")
single_coin (c ∷ []) = ok c
single_coin (c ∷ d ∷ rest) = Outcome.err (generic_err "you can only ibc transfer one coin")

abbrev pub known_addr : Option String → StdResult String
known_addr (some addr) = ok addr
known_addr none = Outcome.err (generic_err "We don't have the remote address for this channel")

module _ (p : Platform) where
  abbrev pub instantiate : Env → MessageInfo → Entry (State p) StdError Response
  instantiate env info = do
    modify (save_config p (record { admin = info.sender }))
    pure (respond [] (("action", "instantiate") ∷ []))

  unfoldable pub execute_update_admin :
      Deps → MessageInfo → String → Entry (State p) StdError Response
  execute_update_admin deps info new_admin = do
    cfg ← load_config p
    ensure (info.sender == cfg.admin) (generic_err "Only admin may set new admin")
    admin ← lift (deps.addr_validate new_admin)
    modify (save_config p (record { admin = admin }))
    pure (respond [] (("action", "handle_update_admin") ∷ ("new_admin", admin) ∷ []))

  -- `IbcMsg::SendPacket` with the packet, one hour from now.
  abbrev pub send_packet : Env → String → Binary → CosmosMsg
  send_packet env channel_id bytes =
      ibc_send_packet channel_id bytes (p.plus_seconds env.time packet_lifetime)

  unfoldable pub execute_send_msgs :
      Env
      → MessageInfo
      → String
      → List CosmosMsg
      → Option String
      → Entry (State p) StdError Response
  execute_send_msgs env info channel_id msgs callback_id = do
    cfg ← load_config p
    ensure (info.sender == cfg.admin) (generic_err "Only admin may send messages")
    found ← load_account p channel_id
    bytes ← lift (p.packet.to_binary (dispatch info.sender msgs callback_id))
    pure (
        respond (fire (send_packet env channel_id bytes) ∷ [])
          (("action", "handle_send_msgs") ∷ []))

  unfoldable pub execute_ibc_query :
      Env
      → MessageInfo
      → String
      → List QueryRequest
      → Option String
      → Entry (State p) StdError Response
  execute_ibc_query env info channel_id msgs callback_id = do
    bytes ← lift (p.packet.to_binary (types.ibc_query info.sender msgs callback_id))
    pure (
        respond (fire (send_packet env channel_id bytes) ∷ [])
          (("action", "handle_check_remote_balance") ∷ []))

  unfoldable pub execute_check_remote_balance :
      Env → MessageInfo → String → Entry (State p) StdError Response
  execute_check_remote_balance env info channel_id = do
    cfg ← load_config p
    ensure (info.sender == cfg.admin) (generic_err "Only admin may send messages")
    found ← load_account p channel_id
    bytes ← lift (p.packet.to_binary balances)
    pure (
        respond (fire (send_packet env channel_id bytes) ∷ [])
          (("action", "handle_check_remote_balance") ∷ []))

  unfoldable pub execute_send_funds :
      Env → MessageInfo → String → String → Entry (State p) StdError Response
  execute_send_funds env info ica_channel_id transfer_channel_id = do
    amount ← lift (single_coin info.funds)
    found ← load_account p ica_channel_id
    remote_addr ← lift (known_addr found.remote_addr)
    pure (
        respond
          (fire (
              ibc_transfer transfer_channel_id remote_addr amount
                (p.plus_seconds env.time packet_lifetime))
            ∷ [])
          (("action", "handle_send_funds") ∷ []))

  unfoldable pub execute : Deps → Env → MessageInfo → ExecuteMsg → Entry (State p) StdError Response
  execute deps env info (update_admin admin) = execute_update_admin deps info admin
  execute deps env info (send_msgs channel_id msgs callback_id) =
      execute_send_msgs env info channel_id msgs callback_id
  execute deps env info (check_remote_balance channel_id) =
      execute_check_remote_balance env info channel_id
  execute deps env info (ibc_query channel_id msgs callback_id) =
      execute_ibc_query env info channel_id msgs callback_id
  execute deps env info (send_funds ica_channel_id transfer_channel_id) =
      execute_send_funds env info ica_channel_id transfer_channel_id

  -- The queries read the storage only.
  abbrev pub query_account : State p → String → StdResult AccountResponse
  query_account s channel_id =
      and_then (required (p.get s.accounts channel_id)) λ account. ok (account_response account)

  abbrev pub query_latest_ibc_query_result : State p → String → StdResult LatestQueryResponse
  query_latest_ibc_query_result s channel_id = required (p.get s.latest_queries channel_id)

  unfoldable pub query_list_accounts : State p → StdResult ListAccountsResponse
  query_list_accounts s =
      ok (record { accounts = map (λ (k, account). convert k account) (p.range s.accounts) })

  abbrev pub query_admin : State p → StdResult AdminResponse
  query_admin s = and_then (required (p.item_get s.config)) λ cfg. ok (record { admin = cfg.admin })

  unfoldable pub query : State p → QueryMsg → StdResult Binary
  unfolding query_list_accounts
  query s msg.admin = and_then (query_admin s) p.ica_admin.to_binary
  query s (msg.account channel_id) = and_then (query_account s channel_id) p.ica_account.to_binary
  query s msg.list_accounts = and_then (query_list_accounts s) p.ica_accounts.to_binary
  query s (msg.latest_query_result channel_id) =
      and_then (query_latest_ibc_query_result s channel_id) p.ica_latest.to_binary
