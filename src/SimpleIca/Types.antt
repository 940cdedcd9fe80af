-- ===== src/SimpleIca/Types.antt =====
-- packages/simple-ica/src/{ibc_msg,callback,checks,lib}.rs: the types.
use cw_ibc_demo.Prelude.{String, Option, List}
use cw_ibc_demo.Std.{Binary, Coin, CosmosMsg, QueryRequest, IbcOrder, unordered, ordered}

pub data PacketMsg : Type 0 where
  dispatch : (sender : String) → (msgs : List CosmosMsg) → (callback_id : Option String) → PacketMsg
  ibc_query :
      (sender : String) → (msgs : List QueryRequest) → (callback_id : Option String) → PacketMsg
  who_am_i balances : PacketMsg

pub data StdAck : Type 0 where
  result : Binary → StdAck
  error : String → StdAck

pub record DispatchResponse : Type 0 where
  pub results : List Binary

pub record IbcQueryResponse : Type 0 where
  pub results : List Binary

pub record WhoAmIResponse : Type 0 where
  pub account : String

pub record BalancesResponse : Type 0 where
  pub account : String
  pub balances : List Coin

pub record ReceiveIcaResponseMsg : Type 0 where
  pub id : String
  pub msg : StdAck

pub data SimpleIcaReceiverExecuteMsg : Type 0 where
  receive_ica_response : ReceiveIcaResponseMsg → SimpleIcaReceiverExecuteMsg

pub data SimpleIcaError : Type 0 where
  invalid_channel_order : SimpleIcaError
  invalid_channel_version : String → SimpleIcaError

abbrev pub ibc_app_version : String
ibc_app_version = "simple-ica-v2"

abbrev pub app_order : IbcOrder
app_order = unordered

-- what the tests see rejected
abbrev pub bad_app_order : IbcOrder
bad_app_order = ordered
