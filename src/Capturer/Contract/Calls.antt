-- ===== src/Capturer/Contract/Calls.antt =====
-- The messages that the capturer sends to the controller.
use cw_ibc_demo.Prelude.{
  ◌≡◌, Option, none, some, List, [], ◌∷◌, ok, arith, eq_iff, Outcome-cases, inl, inr,
}
use cw_ibc_demo.Std.{Binary, Coin, MessageInfo, Response, wasm_execute, fire}
use cw_ibc_demo.Platform.{Platform}
use cw_ibc_demo.Controller.Msg as ica
use cw_ibc_demo.Capturer.Msg.{
  ExecuteMsg, send_msgs, check_remote_balance, ibc_query, send_funds, receive_ica_response, Config,
}
use cw_ibc_demo.Capturer.Contract.{State, execute, call_controller}

-- The message to the controller that a message stands for, with the funds that go with it.
abbrev pub forwarded : MessageInfo → ExecuteMsg → Option (ica.ExecuteMsg × List Coin)
forwarded info (send_msgs c ms id) = some (ica.send_msgs c ms (some id), [])
forwarded info (check_remote_balance c) = some (ica.check_remote_balance c, [])
forwarded info (ibc_query c ms id) = some (ica.ibc_query c ms (some id), [])
forwarded info (send_funds c t) = some (ica.send_funds c t, info.funds)
forwarded info (receive_ica_response r) = none

module _ (p : Platform) (info : MessageInfo) (s : State p) where
  call_controller-Forwards :
      (m : ica.ExecuteMsg) (funds : List Coin) (cfg : Config) {r : Response}
      → p.item_get s.config ≡ some cfg
      → (call_controller p info m funds s).0 ≡ ok r
      → (bytes : Binary) × (info.sender ≡ cfg.admin)
        × (r.messages ≡ fire (wasm_execute cfg.simple_ica_controller bytes funds) ∷ [])
        × (p.ica_exec.from_slice bytes ≡ ok m)
  call_controller-Forwards m funds cfg {r} e h = elim (Outcome-cases (p.ica_exec.to_binary m)) [
    | inl (bytes, x) ↦ (
      bytes,
      ground (arith, eq_iff cfg.admin info.sender),
      ground arith,
      p.ica_exec.round_trip m bytes x,
    )
    | inr failed ↦ absurd (ground arith)
  ]

  -- A message that the capturer forwards is accepted from its admin only, and goes to the
  -- controller alone, with its funds, in a form that the controller decodes to the message meant,
  -- with the callback id asked for where there is one.
  pub execute-Forwards :
      (m : ExecuteMsg) (sent : ica.ExecuteMsg) (funds : List Coin) (cfg : Config) {r : Response}
      → p.item_get s.config ≡ some cfg
      → forwarded info m ≡ some (sent, funds)
      → (execute p info m s).0 ≡ ok r
      → (bytes : Binary) × (info.sender ≡ cfg.admin)
        × (r.messages ≡ fire (wasm_execute cfg.simple_ica_controller bytes funds) ∷ [])
        × (p.ica_exec.from_slice bytes ≡ ok sent)
  unfolding execute
  execute-Forwards (receive_ica_response x) sent funds cfg e f h = cc
  execute-Forwards m sent funds cfg {r} e f h =
      call_controller-Forwards sent funds cfg {r = r} e (ground arith)
