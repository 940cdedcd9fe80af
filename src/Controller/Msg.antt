-- ===== src/Controller/Msg.antt =====
-- contracts/simple-ica-controller/src/{msg,error}.rs and the stored types of state.rs.
use cw_ibc_demo.Prelude.{String, Option, none, List, []}
use cw_ibc_demo.Std.{Addr, Timestamp, Coin, CosmosMsg, QueryRequest, StdError}
use cw_ibc_demo.SimpleIca.Types.{StdAck, SimpleIcaError}

pub data ExecuteMsg : Type 0 where
  update_admin : (admin : String) → ExecuteMsg
  send_msgs :
      (channel_id : String) → (msgs : List CosmosMsg) → (callback_id : Option String) → ExecuteMsg
  check_remote_balance : (channel_id : String) → ExecuteMsg
  ibc_query :
      (channel_id : String)
      → (msgs : List QueryRequest) → (callback_id : Option String) → ExecuteMsg
  send_funds : (ica_channel_id transfer_channel_id : String) → ExecuteMsg

pub data QueryMsg : Type 0 where
  admin list_accounts : QueryMsg
  account latest_query_result : (channel_id : String) → QueryMsg

pub record Config : Type 0 where
  pub admin : Addr

pub record AccountData : Type 0 where
  pub last_update_time : Timestamp
  pub remote_addr : Option String
  pub remote_balance : List Coin

-- `#[derive(Default)]`
abbrev pub default_account : AccountData
default_account = record { last_update_time = 0; remote_addr = none; remote_balance = [] }

pub record LatestQueryResponse : Type 0 where
  pub last_update_time : Timestamp
  pub response : StdAck

pub record AdminResponse : Type 0 where
  pub admin : String

pub record AccountInfo : Type 0 where
  pub channel_id : String
  pub last_update_time : Timestamp
  pub remote_addr : Option String
  pub remote_balance : List Coin

pub record ListAccountsResponse : Type 0 where
  pub accounts : List AccountInfo

pub record AccountResponse : Type 0 where
  pub last_update_time : Timestamp
  pub remote_addr : Option String
  pub remote_balance : List Coin

-- `AccountInfo::convert`
abbrev pub convert : String → AccountData → AccountInfo
convert channel_id input = record {
  channel_id = channel_id;
  last_update_time = input.last_update_time;
  remote_addr = input.remote_addr;
  remote_balance = input.remote_balance;
}

-- `impl From<AccountData> for AccountResponse`
abbrev pub account_response : AccountData → AccountResponse
account_response input = record {
  last_update_time = input.last_update_time;
  remote_addr = input.remote_addr;
  remote_balance = input.remote_balance;
}

pub data ContractError : Type 0 where
  std : StdError → ContractError
  simple_ica : SimpleIcaError → ContractError
  unregistered_channel : String → ContractError
  remote_account_changed : (addr old : String) → ContractError
