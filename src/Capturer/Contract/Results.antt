-- ===== src/Capturer/Contract/Results.antt =====
-- The results that the capturer keeps.
use cw_ibc_demo.Prelude.{
  String, ◌≡◌, ◌⊎◌, inl, inr, refl, ◌==◌, if◌then◌else◌, Option, none, some, ok, err, arith, commit,
  eq_iff, Bool-cases,
}
use cw_ibc_demo.Std.{MessageInfo, not_found}
use cw_ibc_demo.SimpleIca.Types.{StdAck, ReceiveIcaResponseMsg}
use cw_ibc_demo.Platform.{Platform, StdResult}
use cw_ibc_demo.Capturer.Msg.{ExecuteMsg, receive_ica_response, Config, ResultResponse}
use cw_ibc_demo.Capturer.Contract.{State, execute, execute_receive_ibc_response, query_result}

-- What the query of an id answers.
abbrev pub answer : Option StdAck → StdResult ResultResponse
answer none = err not_found
answer (some a) = ok (record { result = a })

module _ (p : Platform) (info : MessageInfo) (s : State p) where
  -- A callback of the controller is stored under its id, and the query of that id returns it; the
  -- queries of other ids answer what they did.
  pub query_result-receive :
      (resp : ReceiveIcaResponseMsg) (cfg : Config) (id : String)
      → p.item_get s.config ≡ some cfg
      → info.sender ≡ cfg.simple_ica_controller
      → query_result p (commit (execute p info (receive_ica_response resp)) s) id
        ≡ (if resp.id == id then ok (record { result = resp.msg }) else query_result p s id)
  unfolding execute execute_receive_ibc_response query_result
  query_result-receive resp cfg id e c = ground (
    arith,
    eq_iff cfg.simple_ica_controller info.sender,
    p.get-save s.results resp.id resp.msg id,
  )

  -- Nothing but a callback that comes from the controller changes the results, and no message
  -- changes the configuration.
  pub execute-keeps_results :
      (m : ExecuteMsg) (cfg : Config)
      → p.item_get s.config ≡ some cfg
      → ((commit (execute p info m) s).config ≡ s.config)
        × (((commit (execute p info m) s).results ≡ s.results)
            ⊎ ((resp : ReceiveIcaResponseMsg) × (m ≡ receive_ica_response resp)
                × (info.sender ≡ cfg.simple_ica_controller)))
  unfolding execute execute_receive_ibc_response
  execute-keeps_results (receive_ica_response resp) cfg e =
      elim (Bool-cases (cfg.simple_ica_controller == info.sender)) [
        | inl ours ↦ (
          ground arith,
          inr (resp, refl, ground (arith, eq_iff cfg.simple_ica_controller info.sender)),
        )
        | inr other ↦ (ground arith, inl (ground arith))
      ]
  execute-keeps_results _ cfg e = ground arith
