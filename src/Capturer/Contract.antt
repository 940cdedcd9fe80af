-- ===== src/Capturer/Contract.antt =====
-- contracts/callback-capturer/src/{state,contract}.rs
pub mod Results
pub mod Calls
use cw_ibc_demo.Prelude.{
  String, ◌==◌, some, List, [], ◌∷◌, Entry, pure, ensure, modify, lift, ◌>>=◌, ◌>>◌, Outcome, ok,
  map_err, and_then,
}
use cw_ibc_demo.Std.{
  Binary, Coin, StdError, CosmosMsg, wasm_execute, QueryRequest, fire, Response, respond,
  MessageInfo,
}
use cw_ibc_demo.SimpleIca.Types.{StdAck, ReceiveIcaResponseMsg}
use cw_ibc_demo.Platform.{Platform, Deps, StdResult, required}
use cw_ibc_demo.Controller.Msg as ica
use cw_ibc_demo.Capturer.Msg.{
  InstantiateMsg, ExecuteMsg, send_msgs, check_remote_balance, ibc_query, send_funds,
  receive_ica_response, QueryMsg, admin, result, AdminResponse, ResultResponse, Config,
  ContractError, std, unauthorized,
}

-- `CONTRACT_NAME` and `CONTRACT_VERSION` (the version of Cargo.toml).
abbrev pub contract_name : String
contract_name = "crates.io:callback-capturer"

abbrev pub contract_version : String
contract_version = "0.2.0"

-- The items `config` and `results`, and the name and version that cw2 stores.
pub record State (p : Platform) : Type 0 where
  pub contract_info : p.Item (String × String)
  pub config : p.Item Config
  pub results : p.Map StdAck

-- `?` on a `StdResult` in a function that returns `ContractError`.
abbrev pub from_std : {A : Type 0} → StdResult A → Outcome ContractError A
from_std r = map_err std r

module _ (p : Platform) where
  abbrev pub blank : State p
  blank = record {
    contract_info = p.item_empty (String × String);
    config = p.item_empty Config;
    results = p.empty StdAck;
  }

  abbrev pub load_config : Entry (State p) ContractError Config
  load_config s = (from_std (required (p.item_get s.config)), s)

  -- `set_contract_version` of cw2
  abbrev pub set_contract_version : String → String → State p → State p
  set_contract_version name version s = record s {
    contract_info = p.item_save s.contract_info (name, version);
  }

  abbrev pub instantiate : Deps → MessageInfo → InstantiateMsg → Entry (State p) StdError Response
  instantiate deps info m = do
    modify (set_contract_version contract_name contract_version)
    controller ← lift (deps.addr_validate m.simple_ica_controller)
    modify λ s. record s {
      config =
          p.item_save s.config (record { admin = info.sender; simple_ica_controller = controller });
    }
    pure (respond [] [])

  -- The admin's message to the controller, with the funds that it forwards.
  abbrev pub call_controller :
      MessageInfo → ica.ExecuteMsg → List Coin → Entry (State p) ContractError Response
  call_controller info ica_msg funds = do
    cfg ← load_config
    ensure (cfg.admin == info.sender) unauthorized
    bytes ← lift (from_std (p.ica_exec.to_binary ica_msg))
    pure (respond (fire (wasm_execute cfg.simple_ica_controller bytes funds) ∷ []) [])

  abbrev pub execute_send_msgs :
      MessageInfo → String → List CosmosMsg → String → Entry (State p) ContractError Response
  execute_send_msgs info channel_id msgs callback_id =
      call_controller info (ica.send_msgs channel_id msgs (some callback_id)) []

  abbrev pub execute_ibc_query :
      MessageInfo → String → List QueryRequest → String → Entry (State p) ContractError Response
  execute_ibc_query info channel_id msgs callback_id =
      call_controller info (ica.ibc_query channel_id msgs (some callback_id)) []

  abbrev pub execute_check_remote_balance :
      MessageInfo → String → Entry (State p) ContractError Response
  execute_check_remote_balance info channel_id =
      call_controller info (ica.check_remote_balance channel_id) []

  abbrev pub execute_send_funds :
      MessageInfo → String → String → Entry (State p) ContractError Response
  execute_send_funds info ica_channel_id transfer_channel_id =
      call_controller info (ica.send_funds ica_channel_id transfer_channel_id) info.funds

  unfoldable pub execute_receive_ibc_response :
      MessageInfo → ReceiveIcaResponseMsg → Entry (State p) ContractError Response
  execute_receive_ibc_response info resp = do
    cfg ← load_config
    ensure (cfg.simple_ica_controller == info.sender) unauthorized
    modify λ s. record s { results = p.save s.results resp.id resp.msg }
    pure (respond [] (("action", "receive_callback") ∷ ("id", resp.id) ∷ []))

  unfoldable pub execute : MessageInfo → ExecuteMsg → Entry (State p) ContractError Response
  execute info (send_msgs channel_id msgs callback_id) =
      execute_send_msgs info channel_id msgs callback_id
  execute info (ibc_query channel_id msgs callback_id) =
      execute_ibc_query info channel_id msgs callback_id
  execute info (check_remote_balance channel_id) = execute_check_remote_balance info channel_id
  execute info (send_funds ica_channel_id transfer_channel_id) =
      execute_send_funds info ica_channel_id transfer_channel_id
  execute info (receive_ica_response resp) = execute_receive_ibc_response info resp

  abbrev pub query_admin : State p → StdResult AdminResponse
  query_admin s = and_then (required (p.item_get s.config)) λ cfg. ok (record { admin = cfg.admin })

  unfoldable pub query_result : State p → String → StdResult ResultResponse
  query_result s id =
      and_then (required (p.get s.results id)) λ found. ok (record { result = found })

  unfoldable query : State p → QueryMsg → StdResult Binary
  unfolding query_result
  query s admin = and_then (query_admin s) p.capturer_admin.to_binary
  query s (result id) = and_then (query_result s id) p.capturer_result.to_binary
