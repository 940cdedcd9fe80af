-- ===== src/Std.antt =====
-- The value types of cosmwasm_std that the contracts build and take apart.
use cw_ibc_demo.Prelude.{ℕ, String, Bool, Option, none, List, []}

-- `Addr` is a checked `String`; it is turned back with `into()`.
abbrev pub Addr : Type 0
Addr = String

-- The bytes of a `Binary(Vec<u8>)`.
abbrev pub Binary : Type 0
Binary = List ℕ

-- Nanoseconds since the epoch.
abbrev pub Timestamp : Type 0
Timestamp = ℕ

-- The kind that a `NotFound` carries is the name of a Rust type, and is left out.
pub data StdError : Type 0 where
  generic_err : String → StdError
  not_found : StdError
  parse_err serialize_err : String → String → StdError

pub record Coin : Type 0 where
  pub denom : String
  pub amount : ℕ

-- The messages that the contracts build. `other` is any message that they only pass on; its
-- content is never looked at.
pub data CosmosMsg : Type 0 where
  wasm_execute : (contract_addr : String) → (msg : Binary) → (funds : List Coin) → CosmosMsg
  wasm_instantiate :
      (admin : Option String)
      → (code_id : ℕ) → (msg : Binary) → (funds : List Coin) → (label : String) → CosmosMsg
  bank_send : (to_address : String) → (amount : List Coin) → CosmosMsg
  ibc_send_packet : (channel_id : String) → (packet : Binary) → (timeout : Timestamp) → CosmosMsg
  ibc_transfer :
      (channel_id to_address : String) → (amount : Coin) → (timeout : Timestamp) → CosmosMsg
  other : String → CosmosMsg

-- A query that the contracts only pass on.
pub record QueryRequest : Type 0 where
  pub request : String

pub data ReplyOn : Type 0 where
  never on_success : ReplyOn

pub record SubMsg : Type 0 where
  pub id : ℕ
  pub msg : CosmosMsg
  pub reply_on : ReplyOn

-- `SubMsg::new` and `SubMsg::reply_on_success`.
abbrev pub fire : CosmosMsg → SubMsg
fire m = record { id = 0; msg = m; reply_on = never }

abbrev pub reply_on_success : CosmosMsg → ℕ → SubMsg
reply_on_success m i = record { id = i; msg = m; reply_on = on_success }

abbrev pub Attribute : Type 0
Attribute = String × String

pub record Event : Type 0 where
  pub kind : String
  pub attributes : List Attribute

-- `Response` and, with no payload, `IbcBasicResponse`: what the builders have collected.
pub record Response : Type 0 where
  pub messages : List SubMsg
  pub attributes : List Attribute
  pub events : List Event
  pub payload : Option Binary

abbrev pub respond : List SubMsg → List Attribute → Response
respond ms attrs = record { messages = ms; attributes = attrs; events = []; payload = none }

pub record IbcReceiveResponse : Type 0 where
  pub acknowledgement : Binary
  pub messages : List SubMsg
  pub attributes : List Attribute

pub data IbcOrder : Type 0 where
  unordered ordered : IbcOrder

pub record IbcChannel : Type 0 where
  pub channel_id : String
  pub order : IbcOrder
  pub version : String

-- The version of the other side is known on `OpenTry` and `OpenAck`.
pub record IbcChannelMsg : Type 0 where
  pub channel : IbcChannel
  pub counterparty_version : Option String

pub record IbcPacket : Type 0 where
  pub payload : Binary
  pub src_channel : String
  pub dest_channel : String

pub record IbcPacketAckMsg : Type 0 where
  pub acknowledgement : Binary
  pub original_packet : IbcPacket

pub record MessageInfo : Type 0 where
  pub sender : Addr
  pub funds : List Coin

pub record Env : Type 0 where
  pub time : Timestamp
  pub contract : Addr

-- `SubMsgResult` and `Reply`.
pub data SubMsgResult : Type 0 where
  success : Option Binary → SubMsgResult
  failure : String → SubMsgResult

pub record Reply : Type 0 where
  pub id : ℕ
  pub result : SubMsgResult

-- `SystemResult<ContractResult<Binary>>`; an error is held as the text that it displays.
pub data QueryResult : Type 0 where
  system_err contract_err : String → QueryResult
  value : Binary → QueryResult

-- The messages of cw1-whitelist that the host sends to its accounts.
pub record Cw1InstantiateMsg : Type 0 where
  pub admins : List String
  pub mutable : Bool

pub data Cw1ExecuteMsg : Type 0 where
  execute : (msgs : List CosmosMsg) → Cw1ExecuteMsg

pub record Ibc3ChannelOpenResponse : Type 0 where
  pub version : String
