-- ===== src/Tests/Specs.antt =====
-- Steps of each contract, seen by what the contract promises.
use cw_ibc_demo.Prelude.{[], ◌∷◌, commit}
use cw_ibc_demo.Std.{Reply, success}
use cw_ibc_demo.Platform.Demo.{demo}
use cw_ibc_demo.Protocol.{carried, answered}
use cw_ibc_demo.Host.Contract.{reply, receive_dispatch_id}
use cw_ibc_demo.Host.Runs.{replied}
use cw_ibc_demo.Host.Spec as registry
use cw_ibc_demo.Host.Spec.Refines as registry_of
use cw_ibc_demo.Controller.Ibc.Runs.{Call, acknowledges, step}
use cw_ibc_demo.Controller.Spec as ledger
use cw_ibc_demo.Controller.Spec.View as ledger_of
use cw_ibc_demo.Controller.Spec.Refines.{call-Does}
use cw_ibc_demo.Tests.World.{now, deps, of_controller, of_host}
use cw_ibc_demo.Prelude.{some}

-- The account of the host returned data.
abbrev answer : Reply
answer = record { id = receive_dispatch_id; result = success (some (7 ∷ [])) }

Step-Does_example :
    registry.Does
      (registry_of.view demo of_host)
      registry.dispatched
      (registry_of.view demo (commit (reply demo deps answer) of_host))
Step-Does_example = registry_of.Step-Does demo (replied deps answer)

-- The balances of the account, as an acknowledgement.
abbrev balance_ack : Call
balance_ack =
    acknowledges now (answered (carried "channel-1" "channel-2" (1 ∷ [])) (0 ∷ 2 ∷ 5 ∷ 5 ∷ []))

call-Does_example :
    ledger.Does
      (ledger_of.view demo of_controller)
      (ledger.answered "channel-1")
      (ledger_of.view demo (step demo of_controller balance_ack))
call-Does_example = call-Does demo of_controller balance_ack
