-- ===== src/Host/Contract.antt =====
-- contracts/simple-ica-host/src/contract.rs: instantiate, the queries, the channel handshake and
-- the replies.
pub mod Handshake
pub mod Replies
pub mod Close
pub mod Listing
use Prim.Native.String.{◌++◌ as ◌++ₛ◌}
use cw_ibc_demo.Prelude.{
  ℕ, String, ◌==ℕ◌, if◌then◌else◌, Bool, true, false, not, Option, none, some, List, [], ◌∷◌, ◌++◌,
  map, Entry, pure, throw, modify, lift, ensure, ◌>>=◌, ◌>>◌, Outcome, ok, panic, map_err, and_then,
  is_empty, is_some,
}
use cw_ibc_demo.Std.{
  Addr, Binary, Coin, StdError, wasm_execute, wasm_instantiate, bank_send, SubMsg, fire,
  reply_on_success, Response, respond, IbcChannelMsg, Ibc3ChannelOpenResponse, Env, Reply,
  SubMsgResult, success, failure,
}
use cw_ibc_demo.SimpleIca.Types.{ibc_app_version}
use cw_ibc_demo.SimpleIca.Checks.{check_order, check_version}
use cw_ibc_demo.SimpleIca.Ack as ack
use cw_ibc_demo.Platform.{Platform, Deps, StdResult, required}
use cw_ibc_demo.Host.Msg.{
  InstantiateMsg, QueryMsg, AccountResponse, AccountInfo, ListAccountsResponse, ReflectExecuteMsg,
  reflect_msg, Config, ContractError, std, parse_reply, simple_ica, channel_already_registered,
  invalid_reply_id,
}
use cw_ibc_demo.Host.Msg as msg
use cw_ibc_demo.Host.State.{
  State, from_std, save_config, save_pending, remove_pending, save_account, remove_account,
  save_results, load_config, load_account_std, load_pending, load_results,
}

abbrev pub receive_dispatch_id : ℕ
receive_dispatch_id = 1234

abbrev pub init_callback_id : ℕ
init_callback_id = 7890

-- `if let Some(counter_version)`
abbrev pub check_counter : Option String → Outcome ContractError (Unit {0})
check_counter none = ok tt
check_counter (some v) = map_err simple_ica (check_version v)

unfoldable pub ibc_channel_open :
    IbcChannelMsg → Outcome ContractError (Option Ibc3ChannelOpenResponse)
unfolding check_order check_version
ibc_channel_open m = and_then (map_err simple_ica (check_order m.channel.order)) λ _.
    and_then (check_counter m.counterparty_version)
      λ _. ok (some (record { version = ibc_app_version }))

-- `bool::to_string`
abbrev pub bool_text : Bool → String
bool_text true = "true"
bool_text false = "false"

-- `reply.result.unwrap().data.unwrap_or_default()`
abbrev pub reply_data : SubMsgResult → Outcome ContractError Binary
reply_data (success (some bytes)) = ok bytes
reply_data (success none) = ok []
reply_data (failure e) = panic e

module _ (p : Platform) where
  abbrev pub instantiate : InstantiateMsg → Entry (State p) StdError Response
  instantiate m = do
    modify (save_config p (record { cw1_code_id = m.cw1_code_id }))
    pure (respond [] [])

  pub query_account : State p → String → StdResult AccountResponse
  query_account s channel_id =
      and_then (required (p.get s.accounts channel_id))
        λ account. ok (record { account = some account })

  unfoldable pub query_list_accounts : State p → StdResult ListAccountsResponse
  query_list_accounts s = ok (record {
    accounts =
        map (λ (channel_id, account). record { account = account; channel_id = channel_id })
          (p.range s.accounts);
  })

  unfoldable pub query : State p → QueryMsg → StdResult Binary
  unfolding query_account query_list_accounts
  query s (msg.account channel_id) = and_then (query_account s channel_id) p.host_account.to_binary
  query s msg.list_accounts = and_then (query_list_accounts s) p.host_accounts.to_binary

  unfoldable pub ibc_channel_connect : Env → IbcChannelMsg → Entry (State p) StdError Response
  ibc_channel_connect env m = do
    cfg ← load_config p
    let chan_id = m.channel.channel_id
    init_msg ← lift (p.cw1_init.to_binary (record { admins = env.contract ∷ []; mutable = false }))
    let create = wasm_instantiate none cfg.cw1_code_id init_msg [] ("ibc-reflect-" ++ₛ chan_id)
    modify (save_pending p chan_id)
    pure (record {
      messages = reply_on_success create init_callback_id ∷ [];
      attributes = ("action", "ibc_connect") ∷ ("channel_id", chan_id) ∷ [];
      events = record { kind = "ibc"; attributes = ("channel", "connect") ∷ [] } ∷ [];
      payload = none;
    })

  -- The message that takes `amount` back from an account, if there is any.
  abbrev pub rescue_messages : Env → Addr → List Coin → StdResult (List SubMsg)
  rescue_messages env reflect_addr [] = ok []
  rescue_messages env reflect_addr (c ∷ cs) =
      and_then (p.reflect.to_binary (reflect_msg (bank_send env.contract (c ∷ cs) ∷ [])))
        λ bytes. ok (fire (wasm_execute reflect_addr bytes []) ∷ [])

  unfoldable pub ibc_channel_close : Deps → Env → IbcChannelMsg → Entry (State p) StdError Response
  ibc_channel_close deps env m = do
    let channel_id = m.channel.channel_id
    reflect_addr ← load_account_std p channel_id
    modify (remove_account p channel_id)
    amount ← lift (deps.query_all_balances reflect_addr)
    messages ← lift (rescue_messages env reflect_addr amount)
    pure (
        respond messages (
          ("action", "ibc_close")
          ∷ ("channel_id", channel_id)
          ∷ ("rescue_funds", bool_text (not (is_empty messages)))
          ∷ []))

  unfoldable pub reply_dispatch_callback : Reply → Entry (State p) ContractError Response
  reply_dispatch_callback r = do
    old ← load_results p
    bytes ← lift (reply_data r.result)
    let results = old ++ bytes ∷ []
    modify (save_results p results)
    payload ← lift (ack.success p p.dispatched (record { results = results }))
    pure (record { messages = []; attributes = []; events = []; payload = some payload })

  unfoldable pub reply_init_callback : Deps → Reply → Entry (State p) ContractError Response
  reply_init_callback deps r = do
    id ← load_pending p
    modify (remove_pending p)
    raw_addr ← lift (map_err parse_reply (p.parse_reply_instantiate_data r))
    contract_addr ← lift (from_std (deps.addr_validate raw_addr))
    known ← (λ s. (ok (is_some (p.get s.accounts id)), s))
    ensure (not known) channel_already_registered
    modify (save_account p id contract_addr)
    pure (respond [] [])

  unfoldable pub reply : Deps → Reply → Entry (State p) ContractError Response
  unfolding reply_dispatch_callback reply_init_callback
  reply deps r =
      if r.id ==ℕ receive_dispatch_id
      then reply_dispatch_callback r
      else if r.id ==ℕ init_callback_id
      then reply_init_callback deps r
      else throw invalid_reply_id
