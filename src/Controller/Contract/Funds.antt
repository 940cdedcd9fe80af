-- ===== src/Controller/Contract/Funds.antt =====
-- contract.rs of the controller: the transfer of funds.
use cw_ibc_demo.Prelude.{String, ◌≡◌, ◌↔◌, some, [], ◌∷◌, ok, arith}
use cw_ibc_demo.Std.{Coin, Env, MessageInfo, Response, respond, fire, ibc_transfer}
use cw_ibc_demo.Platform.{Platform}
use cw_ibc_demo.Controller.Msg.{AccountData}
use cw_ibc_demo.Controller.State.{State}
use cw_ibc_demo.Controller.Contract.{execute_send_funds}

-- The transfer of one coin to the remote address, one hour to live.
abbrev pub transfer : Platform → Env → String → String → Coin → Response
transfer p env channel addr coin =
    respond (fire (ibc_transfer channel addr coin (p.plus_seconds env.time 3600)) ∷ [])
      (("action", "handle_send_funds") ∷ [])

-- Funds are sent exactly if one coin came with the message and the remote address of the channel
-- is known: that coin, to that address, over the transfer channel, with a timeout 3600 seconds
-- after the time of the block. Nothing is written.
pub execute_send_funds-ok_iff :
    (p : Platform) (env : Env) (info : MessageInfo) (ica_channel transfer_channel : String)
    (s : State p) (r : Response)
    → (execute_send_funds p env info ica_channel transfer_channel s ≡ (ok r, s)) ↔ (
        (coin : Coin) × (a : AccountData) × (addr : String) × (info.funds ≡ coin ∷ [])
        × (p.get s.accounts ica_channel ≡ some a)
        × (a.remote_addr ≡ some addr)
        × (r ≡ transfer p env transfer_channel addr coin))
unfolding execute_send_funds
execute_send_funds-ok_iff p env info ica_channel transfer_channel s r = (ground arith, ground arith)
