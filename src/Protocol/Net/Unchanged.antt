-- ===== src/Protocol/Net/Unchanged.antt =====
-- The error that the remote account changed.
use cw_ibc_demo.Prelude.{
  ℕ, String, ◌≡◌, ◌≢◌, ◌==◌, refl, sym, subst, none, some, false, [], ok, err, arith, inl, inr,
  Outcome-cases, Option-cases, Bool-cases, eq_iff,
}
use cw_ibc_demo.Std.{Binary, Env, IbcPacketAckMsg}
use cw_ibc_demo.SimpleIca.Types.{
  PacketMsg, dispatch, ibc_query, who_am_i, balances, StdAck, result, error,
}
use cw_ibc_demo.Platform.{Platform}
use cw_ibc_demo.Controller.Msg.{AccountData, remote_account_changed}
use cw_ibc_demo.Controller.State.{State}
use cw_ibc_demo.Controller.Ibc.{
  ibc_packet_ack, acknowledge, acknowledge_dispatch, acknowledge_query, acknowledge_who_am_i,
  acknowledge_balances, set_first_addr, set_balances,
}
use cw_ibc_demo.Controller.Ibc.Learns.{Names, as_balances, Knows}
use cw_ibc_demo.Protocol.{carried, answered}
use cw_ibc_demo.Protocol.Link.{Link, Sent}
use cw_ibc_demo.Protocol.Link.Agreement.{Agree, Agree-fresh, Reach-Agree}
use cw_ibc_demo.Protocol.Net.{Net, idle, acked, Reach}
use cw_ibc_demo.Protocol.Net.Refines.{link_of, Among, Reach-Follows}

module _ (p : Platform) where
  -- The acknowledgement names `new`, where the account is `old`.
  abbrev Differs : IbcPacketAckMsg → State p → String → String → Type 0
  Differs m s new old =
      (packet : PacketMsg) × (res : StdAck) × (p.packet.from_slice m.original_packet.payload
        ≡ ok packet)
      × (p.ack.from_slice m.acknowledgement ≡ ok res)
      × Names p new packet res
      × Knows p s m.original_packet.src_channel old
      × ((old == new) ≡ false)

  acknowledge-Differs :
      (env : Env) (m : IbcPacketAckMsg) (s : State p) (packet : PacketMsg) (res : StdAck)
      (new old : String)
      → p.packet.from_slice m.original_packet.payload ≡ ok packet
      → p.ack.from_slice m.acknowledgement ≡ ok res
      → (acknowledge p env m.original_packet.src_channel res m packet s).0
        ≡ err (remote_account_changed new old)
      → Differs m s new old
  unfolding acknowledge acknowledge_dispatch acknowledge_query acknowledge_who_am_i
      acknowledge_balances set_first_addr set_balances
  acknowledge-Differs env m s (dispatch sender msgs id) res new old f d h = absurd (ground arith)
  acknowledge-Differs env m s (ibc_query sender msgs id) res new old f d h = absurd (ground arith)
  acknowledge-Differs env m s who_am_i (error e) new old f d h = absurd (ground arith)
  acknowledge-Differs env m s who_am_i (result b) new old f d h = absurd (ground arith)
  acknowledge-Differs env m s balances (error e) new old f d h = absurd (ground arith)
  acknowledge-Differs env m s balances (result b) new old f d h =
      elim (Outcome-cases (p.balance.from_slice b)) [
        | inr failed ↦ absurd (ground arith)
        | inl (r, e) ↦ elim (Option-cases (p.get s.accounts m.original_packet.src_channel)) [
          | inl absent ↦ absurd (ground arith)
          | inr (a, found) ↦ elim (Option-cases a.remote_addr) [
            | inl unknown ↦ absurd (ground arith)
            | inr (known, is) ↦ elim (Bool-cases (known == r.account)) [
              | inl same ↦ absurd (ground arith)
              | inr other ↦ (
                balances,
                result b,
                f,
                d,
                as_balances e (ground arith),
                (a, found, ground arith),
                ground arith,
              )
            ]
          ]
        ]
      ]

  ibc_packet_ack-Differs :
      (env : Env) (m : IbcPacketAckMsg) (s : State p) (new old : String)
      → (ibc_packet_ack p env m s).0 ≡ err (remote_account_changed new old)
      → Differs m s new old
  unfolding ibc_packet_ack
  ibc_packet_ack-Differs env m s new old h =
      elim (Outcome-cases (p.packet.from_slice m.original_packet.payload)) [
        | inr failed ↦ absurd (ground arith)
        | inl (packet, f) ↦ elim (Outcome-cases (p.ack.from_slice m.acknowledgement)) [
          | inr failed ↦ absurd (ground arith)
          | inl (res, d) ↦ acknowledge-Differs env m s packet res new old f d (ground arith)
        ]
      ]

  Agree-unchanged :
      (src dest : String) {l : Link p} (now : Env) (bytes ack : Binary) (new old : String)
      → Agree p src dest l
      → Sent bytes ack l.acks
      → (ibc_packet_ack p now (answered (carried src dest bytes) ack) l.controller).0
        ≢ err (remote_account_changed new old)
  Agree-unchanged src dest {l} now bytes ack new old inv sent h =
      let (packet, res, f, d, names, knows, other) =
        ibc_packet_ack-Differs now (answered (carried src dest bytes) ack) l.controller new old h in
      let told = inv.truthful bytes ack sent new packet res f d names in
      let known = inv.agreed old knows in ground (arith, eq_iff old new)

  -- The controller never finds that the remote account changed: in a run of the net in which no
  -- packet is on its way at first and the controller knows no remote address for the channel, no
  -- acknowledgement that waits for the controller, whenever it is handled, ends with the error
  -- `RemoteAccountChanged`.
  pub Reach-unchanged :
      (src dest : String) {l m : Net p} (i : ℕ) {bytes ack : Binary} (now : Env) (new old : String)
      → ((i : ℕ) → l.slot i ≡ idle)
      → ((a : AccountData) → p.get l.controller.accounts src ≡ some a → a.remote_addr ≡ none)
      → Reach p src dest l m
      → m.slot i ≡ acked bytes ack
      → (ibc_packet_ack p now (answered (carried src dest bytes) ack) m.controller).0
        ≢ err (remote_account_changed new old)
  Reach-unchanged src dest {l} {m} i {bytes} {ack} now new old fresh unknown reach waits =
      let (acks, steps, covered) =
        Reach-Follows p src dest [] (λ i. subst (Among []) (sym (fresh i)) tt) reach in
      let start = Agree-fresh p src dest {l = link_of l []} refl unknown in
      Agree-unchanged src dest now bytes ack new old (Reach-Agree p src dest steps start)
        (subst (Among acks) waits (covered i))
