-- ===== src/Units/Capturer.antt =====
-- `mod tests` of contracts/callback-capturer/src/contract.rs.
use cw_ibc_demo.Prelude.{String, Bool, true, false, some, List, [], ◌∷◌, lift, ◌>>=◌, ◌>>◌, unwrap}
use cw_ibc_demo.Std.{CosmosMsg, bank_send, QueryRequest, wasm_execute, fire}
use cw_ibc_demo.SimpleIca.Types.{StdAck, result}
use cw_ibc_demo.SimpleIca.Ack.{unwrap_into}
use cw_ibc_demo.Platform.{Platform}
use cw_ibc_demo.Controller.Msg as ica
use cw_ibc_demo.Capturer.Msg.{
  ContractError, unauthorized, send_msgs, ibc_query, receive_ica_response,
}
use cw_ibc_demo.Capturer.Contract.{State, instantiate, execute, query_result}
use cw_ibc_demo.Units.{Steps, Mocks, unwrapped, unwrapped_err, runs, asked, assert}
use cw_ibc_demo.Units.Same.{same_list, same_binary, same_submessage, same_ack}

abbrev is_unauthorized : ContractError → Bool
is_unauthorized unauthorized = true
is_unauthorized _ = false

module _ (p : Platform) (m : Mocks) where
  abbrev pub send_message_enforces_permissions : Steps (State p) (Unit {0})
  send_message_enforces_permissions = do
    let ica_addr : String = "simple_ica"
    let channel : String = "channel-23"
    runs (instantiate p m.deps (m.info "alice" []) (record { simple_ica_controller = ica_addr }))
    let msgs : List CosmosMsg =
        bank_send "carl" (record { denom = "DAI"; amount = 10000 } ∷ []) ∷ []
    e ← unwrapped_err (execute p (m.info "bob" []) (send_msgs channel msgs "test"))
    assert (is_unauthorized e)
    res ← unwrapped (execute p (m.info "alice" []) (send_msgs channel msgs "test"))
    msg ←
        lift (unwrap "to_binary" (p.ica_exec.to_binary (ica.send_msgs channel msgs (some "test"))))
    assert (same_list same_submessage res.messages (fire (wasm_execute ica_addr msg []) ∷ []))

  abbrev pub query_and_callback_work : Steps (State p) (Unit {0})
  query_and_callback_work = do
    let ica_addr : String = "simple_ica"
    let channel : String = "channel-23"
    let callback : String = "my-balance"
    runs (instantiate p m.deps (m.info "alice" []) (record { simple_ica_controller = ica_addr }))
    let queries : List QueryRequest = record { request = "the balance of bob in ujuno" } ∷ []
    res ← unwrapped (execute p (m.info "alice" []) (ibc_query channel queries callback))
    msg ←
        lift (
          unwrap "to_binary" (p.ica_exec.to_binary (ica.ibc_query channel queries (some callback))))
    assert (same_list same_submessage res.messages (fire (wasm_execute ica_addr msg []) ∷ []))
    bytes ←
        lift
          (unwrap "to_binary" (p.queried.to_binary (record { results = (b'{' ∷ b'}' ∷ []) ∷ [] })))
    let ack : StdAck = result bytes
    runs (
        execute p (m.info ica_addr []) (receive_ica_response (record { id = callback; msg = ack })))
    stored ← asked (λ s. query_result p s callback)
    assert (same_ack stored.result ack)
    parsed ← lift (unwrap_into p p.queried stored.result)
    assert (same_list same_binary parsed.results ((b'{' ∷ b'}' ∷ []) ∷ []))
