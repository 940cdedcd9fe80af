-- ===== src/Host/Msg.antt =====
-- contracts/simple-ica-host/src/{msg,error}.rs and the stored types of state.rs.
use cw_ibc_demo.Prelude.{ℕ, String, Option, List}
use cw_ibc_demo.Std.{CosmosMsg, StdError}
use cw_ibc_demo.SimpleIca.Types.{SimpleIcaError}

pub record InstantiateMsg : Type 0 where
  pub cw1_code_id : ℕ

pub data QueryMsg : Type 0 where
  account : (channel_id : String) → QueryMsg
  list_accounts : QueryMsg

pub record AccountResponse : Type 0 where
  pub account : Option String

pub record AccountInfo : Type 0 where
  pub account : String
  pub channel_id : String

pub record ListAccountsResponse : Type 0 where
  pub accounts : List AccountInfo

pub data ReflectExecuteMsg : Type 0 where
  reflect_msg : (msgs : List CosmosMsg) → ReflectExecuteMsg

pub record Config : Type 0 where
  pub cw1_code_id : ℕ

-- `parse_reply` carries the text of cw_utils' ParseReplyError.
pub data ContractError : Type 0 where
  std : StdError → ContractError
  parse_reply : String → ContractError
  simple_ica : SimpleIcaError → ContractError
  channel_already_registered invalid_reply_id : ContractError
