-- ===== src/Controller/Spec/Refines.antt =====
-- The code of the controller does what the ledger may do.
use mathlib.Core.Path.{fun_ext}
use cw_ibc_demo.Prelude.{
  String, refl, ◌==◌, commit, arith, inl, inr, Outcome-cases, Option-cases, Bool-cases, eq_iff,
}
use cw_ibc_demo.Std.{Env, MessageInfo, IbcChannelMsg}
use cw_ibc_demo.SimpleIca.Types.{who_am_i}
use cw_ibc_demo.Platform.{Platform, Deps}
use cw_ibc_demo.Controller.Msg.{
  ExecuteMsg, update_admin, send_msgs, check_remote_balance, ibc_query as query_msg, send_funds,
  default_account,
}
use cw_ibc_demo.Controller.State.{State, save_config, save_account, remove_account}
use cw_ibc_demo.Controller.Contract.{
  execute, execute_update_admin, execute_send_msgs, execute_check_remote_balance, execute_ibc_query,
  execute_send_funds,
}
use cw_ibc_demo.Controller.Ibc.{
  ibc_channel_connect, ibc_channel_close, ibc_packet_receive, ibc_packet_timeout,
}
use cw_ibc_demo.Controller.Ibc.Runs.{
  Call, executes, connects, closes, receives, times_out, acknowledges, step,
}
use cw_ibc_demo.Controller.Spec.{
  Occasion, asked, opened, closed, answered, unrelated, Does, nothing, appoints, opens, forgets,
}
use cw_ibc_demo.Controller.Spec.View.{view, stays, becomes}
use cw_ibc_demo.Controller.Spec.Acks.{ack-Does}

abbrev pub occasion_of : Call → Occasion
occasion_of (executes d e i m) = asked i.sender
occasion_of (connects e m) = opened m.channel.channel_id
occasion_of (closes e m) = closed m.channel.channel_id
occasion_of (receives e m) = unrelated
occasion_of (times_out e m) = unrelated
occasion_of (acknowledges e m) = answered m.original_packet.src_channel

module _ (p : Platform) where
  connect-Does :
      (e : Env) (m : IbcChannelMsg) (s : State p)
      → Does
          (view p s)
          (opened m.channel.channel_id)
          (view p (commit (ibc_channel_connect p e m) s))
  unfolding ibc_channel_connect
  connect-Does e m s = elim (Outcome-cases (p.packet.to_binary who_am_i)) [
    | inr failed ↦ stays p (ibc_channel_connect p e m) s (ground arith)
    | inl (bytes, encoded) ↦
        becomes p (ibc_channel_connect p e m) s
          (save_account p m.channel.channel_id default_account s) (ground arith)
          (rw (fun_ext (λ j. p.get-save s.accounts m.channel.channel_id default_account j))
            (opens m.channel.channel_id))
  ]

  close-Does :
      (e : Env) (m : IbcChannelMsg) (s : State p)
      → Does (view p s) (closed m.channel.channel_id) (view p (commit (ibc_channel_close p e m) s))
  unfolding ibc_channel_close
  close-Does e m s =
      becomes p (ibc_channel_close p e m) s (remove_account p m.channel.channel_id s) refl (
        rw (fun_ext (λ j. p.get-remove s.accounts m.channel.channel_id j))
          (forgets m.channel.channel_id))

  admin-Does :
      (d : Deps) (i : MessageInfo) (new : String) (s : State p)
      → Does (view p s) (asked i.sender) (view p (commit (execute_update_admin p d i new) s))
  unfolding execute_update_admin
  admin-Does d i new s = elim (Option-cases (p.item_get s.config)) [
    | inl missing ↦ stays p (execute_update_admin p d i new) s (ground arith)
    | inr (cfg, found) ↦ elim (Bool-cases (i.sender == cfg.admin)) [
      | inr other ↦ stays p (execute_update_admin p d i new) s (ground arith)
      | inl admin ↦ elim (Outcome-cases (d.addr_validate new)) [
        | inr failed ↦ stays p (execute_update_admin p d i new) s (ground arith)
        | inl (a, valid) ↦
            becomes p (execute_update_admin p d i new) s (save_config p (record { admin = a }) s)
              (ground arith)
              (rw (p.item_get-save s.config (record { admin = a })) (
                appoints i.sender cfg (record { admin = a }) found
                  ((eq_iff i.sender cfg.admin).0 admin)))
      ]
    ]
  ]

  execute-Does :
      (d : Deps) (e : Env) (i : MessageInfo) (m : ExecuteMsg) (s : State p)
      → Does (view p s) (asked i.sender) (view p (commit (execute p d e i m) s))
  unfolding execute execute_send_msgs execute_check_remote_balance execute_ibc_query
      execute_send_funds
  execute-Does d e i (update_admin new) s = admin-Does d i new s
  execute-Does d e i (send_msgs c ms id) s =
      stays p (execute p d e i (send_msgs c ms id)) s (ground arith)
  execute-Does d e i (check_remote_balance c) s =
      stays p (execute p d e i (check_remote_balance c)) s (ground arith)
  execute-Does d e i (query_msg c ms id) s =
      stays p (execute p d e i (query_msg c ms id)) s (ground arith)
  execute-Does d e i (send_funds c t) s =
      stays p (execute p d e i (send_funds c t)) s (ground arith)

  -- Every call of the controller does at most one thing that the ledger allows on that occasion: a
  -- message of the admin replaces the admin; the handshake opens or closes its channel; an
  -- acknowledgement learns the account of its channel if none is known, updates the balance of the
  -- account under the address it has, or keeps the latest answer to queries; any other message,
  -- packet or timeout, and a call that fails, changes nothing.
  pub call-Does : (s : State p) (c : Call) → Does (view p s) (occasion_of c) (view p (step p s c))
  unfolding step ibc_packet_receive ibc_packet_timeout
  call-Does s (executes d e i m) = execute-Does d e i m s
  call-Does s (connects e m) = connect-Does e m s
  call-Does s (closes e m) = close-Does e m s
  call-Does s (receives e m) = nothing
  call-Does s (acknowledges e m) = ack-Does p e m s
  call-Does s (times_out e m) = nothing
