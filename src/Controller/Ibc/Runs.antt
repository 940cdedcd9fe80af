-- ===== src/Controller/Ibc/Runs.antt =====
-- The controller over time: any sequence of messages, handshakes, acknowledgements and timeouts.
pub mod Known
pub mod Sends
use cw_ibc_demo.Prelude.{
  String, ◌≡◌, ◌≢◌, Option, none, some, List, [], ◌∷◌, commit, arith, ap, eq-false_of_ne,
}
use cw_ibc_demo.Std.{Env, MessageInfo, IbcChannelMsg, IbcPacket, IbcPacketAckMsg}
use cw_ibc_demo.Platform.{Platform, Deps}
use cw_ibc_demo.Controller.Msg.{ExecuteMsg, AccountData, default_account}
use cw_ibc_demo.Controller.State.{State}
use cw_ibc_demo.Controller.Contract.{
  execute, execute_update_admin, execute_send_msgs, execute_check_remote_balance, execute_ibc_query,
  execute_send_funds,
}
use cw_ibc_demo.Controller.Ibc.{
  ibc_channel_connect, ibc_channel_close, ibc_packet_receive, ibc_packet_ack, ibc_packet_timeout,
}
use cw_ibc_demo.Controller.Ibc.Stable.{
  KeepsAddr, SameAccount, SameAccount-refl, ibc_packet_ack-SameAccounts,
}

-- A call of one of the entry points that can write, each in the circumstances of its block.
pub data Call : Type 0 where
  executes : Deps → Env → MessageInfo → ExecuteMsg → Call
  connects closes : Env → IbcChannelMsg → Call
  receives times_out : Env → IbcPacket → Call
  acknowledges : Env → IbcPacketAckMsg → Call

-- The channel that a call opens or closes.
abbrev pub handshake_of : Call → Option String
handshake_of (executes d e i m) = none
handshake_of (connects e m) = some m.channel.channel_id
handshake_of (closes e m) = some m.channel.channel_id
handshake_of (receives e m) = none
handshake_of (times_out e m) = none
handshake_of (acknowledges e m) = none

module _ (p : Platform) where
  -- A failed call is rolled back.
  unfoldable pub step : State p → Call → State p
  step s (executes d e i m) = commit (execute p d e i m) s
  step s (connects e m) = commit (ibc_channel_connect p e m) s
  step s (closes e m) = commit (ibc_channel_close p e m) s
  step s (receives e m) = commit (ibc_packet_receive p e m) s
  step s (times_out e m) = commit (ibc_packet_timeout p e m) s
  step s (acknowledges e m) = commit (ibc_packet_ack p e m) s

  pub run : State p → List Call → State p
  run s [] = s
  run s (c ∷ cs) = run (step s c) cs

  -- Messages of users leave the accounts.
  pub execute-accounts :
      (d : Deps) (e : Env) (i : MessageInfo) (m : ExecuteMsg) (s : State p)
      → (commit (execute p d e i m) s).accounts ≡ s.accounts
  unfolding execute execute_update_admin execute_send_msgs execute_check_remote_balance
      execute_ibc_query execute_send_funds
  execute-accounts d e i (ExecuteMsg.update_admin a) s = ground arith
  execute-accounts d e i m s = ground arith

  connect-other :
      (e : Env) (m : IbcChannelMsg) (s : State p) (k : String)
      → m.channel.channel_id ≢ k
      → p.get (commit (ibc_channel_connect p e m) s).accounts k ≡ p.get s.accounts k
  unfolding ibc_channel_connect
  connect-other e m s k ne = ground (
    arith,
    p.get-save s.accounts m.channel.channel_id default_account k,
    eq-false_of_ne m.channel.channel_id k ne,
  )

  close-other :
      (e : Env) (m : IbcChannelMsg) (s : State p) (k : String)
      → m.channel.channel_id ≢ k
      → p.get (commit (ibc_channel_close p e m) s).accounts k ≡ p.get s.accounts k
  unfolding ibc_channel_close
  close-other e m s k ne = ground (
    arith,
    p.get-remove s.accounts m.channel.channel_id k,
    eq-false_of_ne m.channel.channel_id k ne,
  )

  SameAccount-of_eq : {o q : Option AccountData} → q ≡ o → SameAccount o q
  SameAccount-of_eq {o} e = rw e (SameAccount-refl o)

  step-SameAccount :
      (s : State p) (c : Call) (k : String)
      → handshake_of c ≢ some k
      → SameAccount (p.get s.accounts k) (p.get (step s c).accounts k)
  unfolding step ibc_packet_receive ibc_packet_timeout
  step-SameAccount s (executes d e i m) k h =
      SameAccount-of_eq (ap (λ a. p.get a k) (execute-accounts d e i m s))
  step-SameAccount s (connects e m) k h =
      SameAccount-of_eq (connect-other e m s k λ q. h (ap some q))
  step-SameAccount s (closes e m) k h = SameAccount-of_eq (close-other e m s k λ q. h (ap some q))
  step-SameAccount s (receives e m) k h = SameAccount-refl (p.get s.accounts k)
  step-SameAccount s (times_out e m) k h = SameAccount-refl (p.get s.accounts k)
  step-SameAccount s (acknowledges e m) k h = ibc_packet_ack-SameAccounts p e m s k

  KeepsAddr-trans : (x y z : Option String) → KeepsAddr x y → KeepsAddr y z → KeepsAddr x z
  KeepsAddr-trans none y z h k = tt
  KeepsAddr-trans (some a) y z h k = rw h at k

  SameAccount-trans :
      (a b c : Option AccountData) → SameAccount a b → SameAccount b c → SameAccount a c
  SameAccount-trans none none none h k = tt
  SameAccount-trans none none (some c) h k = k
  SameAccount-trans none (some b) c h k = absurd h
  SameAccount-trans (some a) none c h k = absurd h
  SameAccount-trans (some a) (some b) none h k = k
  SameAccount-trans (some a) (some b) (some c) h k =
      KeepsAddr-trans a.remote_addr b.remote_addr c.remote_addr h k

  -- No call in the list opens or closes the channel.
  abbrev pub Untouched : String → List Call → Type 0
  Untouched k [] = Unit
  Untouched k (c ∷ cs) = (handshake_of c ≢ some k) × Untouched k cs

  -- However the controller is called, while a channel is neither opened nor closed its account
  -- stays the same account: registered if it was, and with the remote address that it had.
  pub run-SameAccount :
      (s : State p) (cs : List Call) (k : String)
      → Untouched k cs
      → SameAccount (p.get s.accounts k) (p.get (run s cs).accounts k)
  unfolding run
  run-SameAccount s [] k h = SameAccount-refl (p.get s.accounts k)
  run-SameAccount s (c ∷ cs) k h =
      SameAccount-trans (p.get s.accounts k) (p.get (step s c).accounts k)
        (p.get (run (step s c) cs).accounts k) (step-SameAccount s c k h.0)
        (run-SameAccount (step s c) cs k h.1)
