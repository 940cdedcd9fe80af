-- ===== src/Controller/Ibc/Runs/Known.antt =====
-- What a call does to the remote address of a channel, other than to acknowledge a packet of it.
use cw_ibc_demo.Prelude.{String, ◌≢◌, ◌==◌, commit, arith, inl, inr, Bool-cases}
use cw_ibc_demo.Platform.{Platform}
use cw_ibc_demo.Controller.Msg.{default_account}
use cw_ibc_demo.Controller.State.{State}
use cw_ibc_demo.Controller.Ibc.{
  ibc_channel_connect, ibc_channel_close, ibc_packet_receive, ibc_packet_timeout,
}
use cw_ibc_demo.Controller.Ibc.Learns.{Knows, ibc_packet_ack-other}
use cw_ibc_demo.Controller.Ibc.Runs.{
  Call, executes, connects, closes, receives, times_out, acknowledges, step, execute-accounts,
}
use cw_ibc_demo.Std.{IbcChannelMsg, Env}

-- The call does not acknowledge a packet of the channel.
abbrev pub Elsewhere : String → Call → Type 0
Elsewhere k (executes d e i m) = Unit {0}
Elsewhere k (connects e m) = Unit {0}
Elsewhere k (closes e m) = Unit {0}
Elsewhere k (receives e m) = Unit {0}
Elsewhere k (times_out e m) = Unit {0}
Elsewhere k (acknowledges e m) = m.original_packet.src_channel ≢ k

module _ (p : Platform) where
  connect-Knows :
      (e : Env) (m : IbcChannelMsg) (s : State p) (k addr : String)
      → Knows p (commit (ibc_channel_connect p e m) s) k addr
      → Knows p s k addr
  unfolding ibc_channel_connect
  connect-Knows e m s k addr (a, found, known) = elim (Bool-cases (m.channel.channel_id == k)) [
    | inr other ↦
        (a, ground (arith, p.get-save s.accounts m.channel.channel_id default_account k), known)
    | inl same ↦
        (a, ground (arith, p.get-save s.accounts m.channel.channel_id default_account k), known)
  ]

  close-Knows :
      (e : Env) (m : IbcChannelMsg) (s : State p) (k addr : String)
      → Knows p (commit (ibc_channel_close p e m) s) k addr
      → Knows p s k addr
  unfolding ibc_channel_close
  close-Knows e m s k addr (a, found, known) =
      (a, ground (arith, p.get-remove s.accounts m.channel.channel_id k), known)

  -- A remote address that the controller knows after a call that does not acknowledge a packet of
  -- the channel, it knew before.
  pub step-Knows :
      (s : State p) (c : Call) (k addr : String)
      → Elsewhere k c
      → Knows p (step p s c) k addr
      → Knows p s k addr
  unfolding step ibc_packet_receive ibc_packet_timeout
  step-Knows s (executes d e i m) k addr far (a, found, known) =
      (a, rw (execute-accounts p d e i m s) at found, known)
  step-Knows s (connects e m) k addr far h = connect-Knows e m s k addr h
  step-Knows s (closes e m) k addr far h = close-Knows e m s k addr h
  step-Knows s (receives e m) k addr far h = h
  step-Knows s (times_out e m) k addr far h = h
  step-Knows s (acknowledges e m) k addr far (a, found, known) =
      (a, rw (ibc_packet_ack-other p e m s k far) at found, known)
