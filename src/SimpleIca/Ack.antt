-- ===== src/SimpleIca/Ack.antt =====
-- packages/simple-ica/src/{ibc_msg,callback}.rs: the methods of `StdAck` and of the callback.
pub mod RoundTrip
use cw_ibc_demo.Prelude.{String, [], Outcome, ok, panic, and_then, unwrap}
use cw_ibc_demo.Std.{Binary, CosmosMsg, wasm_execute}
use cw_ibc_demo.Platform.{Platform, Codec, StdResult}
use cw_ibc_demo.SimpleIca.Types.{StdAck, result, error, ReceiveIcaResponseMsg, receive_ica_response}

module _ (p : Platform) {E : Type 0} where
  -- `StdAck::ack`
  abbrev pub ack : StdAck → Outcome E Binary
  ack a = unwrap "called `Result::unwrap()` on an `Err` value" (p.ack.to_binary a)

  -- `StdAck::success`
  abbrev pub success : {T : Type 0} → Codec T → T → Outcome E Binary
  success c x =
      and_then (unwrap "called `Result::unwrap()` on an `Err` value" (c.to_binary x))
        λ res. ack (result res)

  -- `StdAck::fail`
  abbrev pub fail : String → Outcome E Binary
  fail e = ack (error e)

  -- `StdAck::unwrap_into`
  unfoldable pub unwrap_into : {T : Type 0} → Codec T → StdAck → Outcome E T
  unwrap_into c (result x) = unwrap "called `Result::unwrap()` on an `Err` value" (c.from_slice x)
  unwrap_into c (error e) = panic e

-- `StdAck::unwrap` and `StdAck::unwrap_err`
abbrev pub unwrap_ack : {E : Type 0} → StdAck → Outcome E Binary
unwrap_ack (result x) = ok x
unwrap_ack (error e) = panic e

abbrev pub unwrap_err : {E : Type 0} → StdAck → Outcome E String
unwrap_err (result x) = panic "not an error"
unwrap_err (error e) = ok e

module _ (p : Platform) where
  -- `ReceiveIcaResponseMsg::into_binary`
  abbrev pub into_binary : ReceiveIcaResponseMsg → StdResult Binary
  into_binary m = p.callback.to_binary (receive_ica_response m)

  -- `ReceiveIcaResponseMsg::into_cosmos_msg`
  abbrev pub into_cosmos_msg : ReceiveIcaResponseMsg → String → StdResult CosmosMsg
  into_cosmos_msg m contract_addr =
      and_then (into_binary m) λ msg. ok (wasm_execute contract_addr msg [])
