-- ===== src/Capturer/Msg.antt =====
-- contracts/callback-capturer/src/{msg,error}.rs and the stored types of state.rs.
use cw_ibc_demo.Prelude.{String, List}
use cw_ibc_demo.Std.{Addr, CosmosMsg, QueryRequest, StdError}
use cw_ibc_demo.SimpleIca.Types.{StdAck, ReceiveIcaResponseMsg}

pub record InstantiateMsg : Type 0 where
  pub simple_ica_controller : String

pub data ExecuteMsg : Type 0 where
  send_msgs : (channel_id : String) → (msgs : List CosmosMsg) → (callback_id : String) → ExecuteMsg
  check_remote_balance : (channel_id : String) → ExecuteMsg
  ibc_query :
      (channel_id : String) → (msgs : List QueryRequest) → (callback_id : String) → ExecuteMsg
  send_funds : (ica_channel_id transfer_channel_id : String) → ExecuteMsg
  receive_ica_response : ReceiveIcaResponseMsg → ExecuteMsg

pub data QueryMsg : Type 0 where
  admin : QueryMsg
  result : (id : String) → QueryMsg

pub record AdminResponse : Type 0 where
  pub admin : String

pub record ResultResponse : Type 0 where
  pub result : StdAck

pub record Config : Type 0 where
  pub admin : Addr
  pub simple_ica_controller : Addr

pub data ContractError : Type 0 where
  std : StdError → ContractError
  unauthorized : ContractError
