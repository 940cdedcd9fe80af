-- ===== src/Platform.antt =====
-- What the contracts take from cosmwasm_std, serde, cw-storage-plus, cw-utils and cw2, as one
-- record of operations with the documented behaviour that the contracts rely on.
pub mod Demo
pub mod Total
use cw_ibc_demo.Prelude.{
  ℕ, String, ◌≡◌, ◌==◌, if◌then◌else◌, Option, none, some, List, Outcome, ok, err, lookup,
}
use cw_ibc_demo.Std.{
  Addr, Binary, Timestamp, Coin, StdError, not_found, QueryRequest, QueryResult, Reply,
  Cw1InstantiateMsg, Cw1ExecuteMsg,
}
use cw_ibc_demo.SimpleIca.Types.{
  PacketMsg, StdAck, DispatchResponse, IbcQueryResponse, WhoAmIResponse, BalancesResponse,
  SimpleIcaReceiverExecuteMsg,
}
use cw_ibc_demo.Controller.Msg as controller
use cw_ibc_demo.Host.Msg as host
use cw_ibc_demo.Capturer.Msg as capturer

abbrev pub StdResult : Type 0 → Type 0
StdResult A = Outcome StdError A

-- `to_binary` and `from_slice` at a type that derives `Serialize` and `Deserialize`.
pub record Codec (T : Type 0) : Type 0 where
  pub to_binary : T → StdResult Binary
  pub from_slice : Binary → StdResult T
  pub round_trip : (x : T) (b : Binary) → to_binary x ≡ ok b → from_slice b ≡ ok x

-- `Item` and `Map<&str, _>` of cw-storage-plus over typed values.
-- `range` lists the entries; of it is assumed that it holds, for each key, what `get` returns.
pub record Storage : Type 1 where
  pub Item : Type 0 → Type 0
  pub item_empty : (V : Type 0) → Item V
  pub item_get : {V : Type 0} → Item V → Option V
  pub item_save : {V : Type 0} → Item V → V → Item V
  pub item_remove : {V : Type 0} → Item V → Item V
  pub item_get-save : {V : Type 0} → (i : Item V) (v : V) → item_get (item_save i v) ≡ some v
  pub item_get-remove : {V : Type 0} → (i : Item V) → item_get (item_remove i) ≡ none
  pub Map : Type 0 → Type 0
  pub empty : (V : Type 0) → Map V
  pub get : {V : Type 0} → Map V → String → Option V
  pub save : {V : Type 0} → Map V → String → V → Map V
  pub remove : {V : Type 0} → Map V → String → Map V
  pub range : {V : Type 0} → Map V → List (String × V)
  pub get-empty : (V : Type 0) (k : String) → get (empty V) k ≡ none
  pub get-save :
      {V : Type 0}
      → (m : Map V) (k : String) (v : V) (j : String)
      → get (save m k v) j ≡ (if k == j then some v else get m j)
  pub get-remove :
      {V : Type 0}
      → (m : Map V) (k j : String) → get (remove m k) j ≡ (if k == j then none else get m j)
  pub lookup-range : {V : Type 0} → (m : Map V) (k : String) → lookup k (range m) ≡ get m k

-- `load` is an error where `may_load` finds nothing.
abbrev pub required : {V : Type 0} → Option V → StdResult V
required none = err not_found
required (some v) = ok v

-- `DepsMut`'s `api` and `querier`, as they answer during one call.
pub record Deps : Type 0 where
  pub addr_validate : String → StdResult Addr
  pub query_all_balances : Addr → StdResult (List Coin)
  pub raw_query : Binary → QueryResult

pub record Platform : Type 1 where
  pub storage : Storage
  pub open storage use *
  -- `Timestamp::plus_seconds`
  pub plus_seconds : Timestamp → ℕ → Timestamp
  -- cw_utils: the address in the data of an instantiation's reply, or the text of the error
  pub parse_reply_instantiate_data : Reply → Outcome String String
  pub packet : Codec PacketMsg
  pub ack : Codec StdAck
  pub dispatched : Codec DispatchResponse
  pub queried : Codec IbcQueryResponse
  pub who : Codec WhoAmIResponse
  pub balance : Codec BalancesResponse
  pub callback : Codec SimpleIcaReceiverExecuteMsg
  pub request : Codec QueryRequest
  pub cw1_init : Codec Cw1InstantiateMsg
  pub cw1_exec : Codec Cw1ExecuteMsg
  pub reflect : Codec host.ReflectExecuteMsg
  pub host_account : Codec host.AccountResponse
  pub host_accounts : Codec host.ListAccountsResponse
  pub ica_exec : Codec controller.ExecuteMsg
  pub ica_admin : Codec controller.AdminResponse
  pub ica_account : Codec controller.AccountResponse
  pub ica_accounts : Codec controller.ListAccountsResponse
  pub ica_latest : Codec controller.LatestQueryResponse
  pub capturer_admin : Codec capturer.AdminResponse
  pub capturer_result : Codec capturer.ResultResponse
