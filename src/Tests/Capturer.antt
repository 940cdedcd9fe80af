-- ===== src/Tests/Capturer.antt =====
-- The capturer: its admin is "admin", its controller "host"; and an acknowledgement that is read
-- back.
use cw_ibc_demo.Prelude.{◌≡◌, refl, [], ◌∷◌, ok, commit}
use cw_ibc_demo.Std.{Binary, fire, wasm_execute}
use cw_ibc_demo.SimpleIca.Types.{StdAck, result, ReceiveIcaResponseMsg}
use cw_ibc_demo.SimpleIca.Ack.{unwrap_into}
use cw_ibc_demo.SimpleIca.Ack.RoundTrip.{unwrap_into-success}
use cw_ibc_demo.Platform.Demo.{demo}
use cw_ibc_demo.Platform.Demo.Texts.{name}
use cw_ibc_demo.Platform.Demo.Packets.{put_who, put_ack}
use cw_ibc_demo.Platform.Demo.Calls.{put_ica}
use cw_ibc_demo.Controller.Msg as ica
use cw_ibc_demo.Host.Msg.{ContractError}
use cw_ibc_demo.Capturer.Msg.{Config, check_remote_balance, receive_ica_response}
use cw_ibc_demo.Capturer.Contract.{execute, query_result}
use cw_ibc_demo.Capturer.Contract.Results.{query_result-receive, execute-keeps_results}
use cw_ibc_demo.Capturer.Contract.Calls.{execute-Forwards}
use cw_ibc_demo.Tests.World.{sent_by, of_capturer}

abbrev configured : Config
configured = record { admin = "admin"; simple_ica_controller = "host" }

abbrev callback : ReceiveIcaResponseMsg
callback = record { id = "id"; msg = result (1 ∷ []) }

query_result-receive_example :
    query_result demo
      (commit (execute demo (sent_by "host") (receive_ica_response callback)) of_capturer)
      "id"
    ≡ ok (record { result = result (1 ∷ []) })
query_result-receive_example =
    query_result-receive demo (sent_by "host") of_capturer callback configured "id" refl refl

execute-keeps_results_example :
    (commit (execute demo (sent_by "bob") (receive_ica_response callback)) of_capturer).config
    ≡ of_capturer.config
execute-keeps_results_example =
    (execute-keeps_results demo (sent_by "bob") of_capturer (receive_ica_response callback)
      configured refl).0

execute-Forwards_example :
    (bytes : Binary) × ("admin" ≡ configured.admin)
    × (fire (wasm_execute "host" (1 ∷ []) []) ∷ [] ≡ fire (wasm_execute "host" bytes []) ∷ [])
    × (demo.ica_exec.from_slice bytes ≡ ok (ica.check_remote_balance "channel-1"))
unfolding execute put_ica name
execute-Forwards_example =
    execute-Forwards demo (sent_by "admin") of_capturer (check_remote_balance "channel-1")
      (ica.check_remote_balance "channel-1") [] configured refl refl refl

unwrap_into-success_example :
    (a : StdAck) × (demo.ack.from_slice (0 ∷ 2 ∷ []) ≡ ok a)
    × (unwrap_into demo {E = ContractError} demo.who a ≡ ok (record { account = "account" }))
unfolding put_who put_ack name
unwrap_into-success_example =
    unwrap_into-success demo {E = ContractError} demo.who (record { account = "account" })
      (0 ∷ 2 ∷ []) refl
