-- ===== src/Controller/Ibc/Learns.antt =====
-- ibc.rs of the controller: from which acknowledgements a remote address is learned.
use cw_ibc_demo.Prelude.{
  String, ◌≡◌, ◌≢◌, ◌⊎◌, inl, inr, some, ok, commit, arith, Outcome-cases, Option-cases, eq_refl,
  eq-false_of_ne,
}
use cw_ibc_demo.Std.{Binary, Env, IbcPacketAckMsg}
use cw_ibc_demo.SimpleIca.Types.{
  PacketMsg, dispatch, ibc_query, who_am_i, balances, StdAck, result, error, WhoAmIResponse,
  BalancesResponse,
}
use cw_ibc_demo.Platform.{Platform}
use cw_ibc_demo.Controller.Msg.{AccountData}
use cw_ibc_demo.Controller.State.{State}
use cw_ibc_demo.Controller.Ibc.{
  set_first_addr, set_balances, acknowledge_dispatch, acknowledge_query, acknowledge_who_am_i,
  acknowledge_balances, acknowledge, ibc_packet_ack,
}

module _ (p : Platform) where
  -- The acknowledgement names the address: it is a success that answers `WhoAmI` or `Balances`.
  pub data Names (addr : String) : PacketMsg → StdAck → Type 0 where
    as_who :
        {res : Binary} {r : WhoAmIResponse}
        → p.who.from_slice res ≡ ok r
        → r.account ≡ addr
        → Names addr who_am_i (result res)
    as_balances :
        {res : Binary} {r : BalancesResponse}
        → p.balance.from_slice res ≡ ok r
        → r.account ≡ addr
        → Names addr balances (result res)

  -- The address is the one that the account of the channel has.
  abbrev pub Knows : State p → String → String → Type 0
  Knows s channel addr =
      (a : AccountData) × (p.get s.accounts channel ≡ some a) × (a.remote_addr ≡ some addr)

  acknowledge-Learns :
      (env : Env) (m : IbcPacketAckMsg) (s : State p) (channel addr : String) (packet : PacketMsg)
      (res : StdAck)
      → Knows (commit (acknowledge p env channel res m packet) s) channel addr
      → Knows s channel addr ⊎ Names addr packet res
  unfolding acknowledge acknowledge_dispatch acknowledge_query acknowledge_who_am_i
      acknowledge_balances set_first_addr set_balances
  acknowledge-Learns env m s channel addr (dispatch sender msgs callback_id) res (a, found, known) =
      inl (a, ground arith, known)
  acknowledge-Learns env m s channel addr (ibc_query sender msgs callback_id) res
        (a, found, known) =
      inl (a, ground arith, known)
  acknowledge-Learns env m s channel addr who_am_i (error e) k = inl k
  acknowledge-Learns env m s channel addr balances (error e) k = inl k
  acknowledge-Learns env m s channel addr who_am_i (result res) (a, found, known) =
      elim (Outcome-cases (p.who.from_slice res)) [
        | inr failed ↦ inl (a, ground arith, known)
        | inl (r, e) ↦ elim (Option-cases (p.get s.accounts channel)) [
          | inl absent ↦ inl (a, ground arith, known)
          | inr (b, before) ↦ elim (Option-cases b.remote_addr) [
            | inl unknown ↦ inr (
                as_who e (
                  ground (
                    arith,
                    p.get-save s.accounts channel (record b { remote_addr = some r.account })
                        channel,
                    eq_refl channel,
                  )))
            | inr (old, same) ↦ inl (
              b,
              before,
              ground (arith, p.get-save s.accounts channel b channel, eq_refl channel),
            )
          ]
        ]
      ]
  acknowledge-Learns env m s channel addr balances (result res) (a, found, known) =
      elim (Outcome-cases (p.balance.from_slice res)) [
        | inr failed ↦ inl (a, ground arith, known)
        | inl (r, e) ↦
            elim (Outcome-cases (set_balances env channel r (p.get s.accounts channel))) [
              | inr failed ↦ inl (a, ground arith, known)
              | inl (b, accepted) ↦ inr (
                  as_balances e
                    (ground (arith, p.get-save s.accounts channel b channel, eq_refl channel)))
            ]
      ]

  -- The controller knows a remote address after an acknowledgement only if it knew it before, or
  -- if the acknowledgement is a success that answers `WhoAmI` or `Balances` with this address.
  pub ibc_packet_ack-Learns :
      (env : Env) (m : IbcPacketAckMsg) (s : State p) (addr : String)
      → Knows (commit (ibc_packet_ack p env m) s) m.original_packet.src_channel addr
      → Knows s m.original_packet.src_channel addr
        ⊎ ((packet : PacketMsg) × (res : StdAck) × (p.packet.from_slice m.original_packet.payload
              ≡ ok packet)
            × (p.ack.from_slice m.acknowledgement ≡ ok res)
            × Names addr packet res)
  unfolding ibc_packet_ack
  ibc_packet_ack-Learns env m s addr (a, found, known) =
      elim (Outcome-cases (p.packet.from_slice m.original_packet.payload)) [
        | inr failed ↦ inl (a, ground arith, known)
        | inl (packet, e) ↦ elim (Outcome-cases (p.ack.from_slice m.acknowledgement)) [
          | inr failed ↦ inl (a, ground arith, known)
          | inl (res, e') ↦
              elim (acknowledge-Learns env m s m.original_packet.src_channel addr packet res
                (a, ground arith, known)) [
                  | inl before ↦ inl before
                  | inr names ↦ inr (packet, res, e, e', names)
                ]
        ]
      ]

  -- An acknowledgement leaves the accounts of the other channels.
  pub ibc_packet_ack-other :
      (env : Env) (m : IbcPacketAckMsg) (s : State p) (k : String)
      → m.original_packet.src_channel ≢ k
      → p.get (commit (ibc_packet_ack p env m) s).accounts k ≡ p.get s.accounts k
  unfolding ibc_packet_ack acknowledge_dispatch acknowledge_query acknowledge_who_am_i
      acknowledge_balances
  ibc_packet_ack-other env m s k ne =
      let other = eq-false_of_ne m.original_packet.src_channel k ne in
      grind (arith, other, p.get-save)
