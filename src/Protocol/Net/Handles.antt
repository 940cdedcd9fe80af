-- ===== src/Protocol/Net/Handles.antt =====
-- The answers to `WhoAmI` and `Balances` can be handled.
use cw_ibc_demo.Prelude.{
  ℕ, String, ◌≡◌, ◌⊎◌, refl, sym, subst, none, some, [], ok, arith, inl, inr, Option-cases,
}
use cw_ibc_demo.Std.{Binary, Env, Response, IbcPacket, IbcReceiveResponse}
use cw_ibc_demo.Host.State.{State}
use cw_ibc_demo.SimpleIca.Types.{
  PacketMsg, who_am_i, balances, StdAck, result, error, BalancesResponse,
}
use cw_ibc_demo.Platform.{Platform, Deps}
use cw_ibc_demo.Controller.Msg.{AccountData}
use cw_ibc_demo.Controller.Ibc.{ibc_packet_ack}
use cw_ibc_demo.Controller.Ibc.Accepts.{Handled, ibc_packet_ack-ok_iff}
use cw_ibc_demo.Controller.Ibc.Learns.{as_balances}
use cw_ibc_demo.Controller.Ibc.Updates.{Fits}
use cw_ibc_demo.Host.Packet.{ibc_packet_receive}
use cw_ibc_demo.Host.Packet.Acks.{ibc_packet_receive-who_am_i, ibc_packet_receive-balances}
use cw_ibc_demo.Protocol.{carried, answered}
use cw_ibc_demo.Protocol.Runtime.{Chain, deliver, deliver-parts}
use cw_ibc_demo.Protocol.Link.Agreement.{Agree-fresh, Reach-Agree}
use cw_ibc_demo.Protocol.Net.{Net, idle, acked, Reach}
use cw_ibc_demo.Protocol.Net.History.{answer_of}
use cw_ibc_demo.Protocol.Net.Refines.{link_of, Among, Reach-Follows}

-- The packet asks about the account.
abbrev pub IsQuestion : PacketMsg → Type 0
IsQuestion m = (m ≡ who_am_i) ⊎ (m ≡ balances)

-- The acknowledgement is what the receipt of the packet returned: nothing replies.
received_of_delivered :
    (p : Platform) (d : Deps) (w : Chain) (packet : IbcPacket) (h : State p) {question : PacketMsg}
    {ack : Binary}
    → IsQuestion question
    → p.packet.from_slice packet.payload ≡ ok question
    → (deliver p d w packet h).0 ≡ ok ack
    → (r : IbcReceiveResponse) × ((ibc_packet_receive p d packet h).0 ≡ ok r)
      × (ack ≡ r.acknowledgement)
received_of_delivered p d w packet h {ack = ack} asks decoded delivered =
    let (r, received, rest) = deliver-parts p d w packet h ack delivered in
    elim rest [
      | inl (same, left) ↦ (r, received, same)
      | inr (sender, msgs, id, again, other, left) ↦ elim asks [
        | inl who ↦ absurd (ground (arith, who, decoded, other))
        | inr bal ↦ absurd (ground (arith, bal, decoded, other))
      ]
    ]

module _ (p : Platform) (src dest : String) {start m : Net p}
    (fresh : (i : ℕ) → start.slot i ≡ idle)
    (unknown : (a : AccountData)
      → p.get start.controller.accounts src ≡ some a
      → a.remote_addr ≡ none)
    (reach : Reach p src dest start m) (i : ℕ) {bytes ack : Binary}
    (waits : m.slot i ≡ acked bytes ack) where
  Fits-answer :
      {res : Binary} {r : BalancesResponse} (a : AccountData)
      → p.packet.from_slice bytes ≡ ok balances
      → p.ack.from_slice ack ≡ ok (result res)
      → p.balance.from_slice res ≡ ok r
      → p.get m.controller.accounts src ≡ some a
      → Fits r.account a
  Fits-answer {res} {r} a decoded read says found =
      let (acks, steps, covered) =
        Reach-Follows p src dest [] (λ i. subst (Among []) (sym (fresh i)) tt) reach in
      let inv =
        Reach-Agree p src dest steps (Agree-fresh p src dest {l = link_of start []} refl unknown) in
      let told =
        inv.truthful bytes ack (subst (Among acks) waits (covered i)) r.account balances
          (result res) decoded read (as_balances says refl) in
      elim (Option-cases a.remote_addr) [
        | inl empty ↦ inl empty
        | inr (old, known) ↦
            let has = inv.agreed old (a, found, known) in inr (ground (arith, told, has, known))
      ]

  module _ (now : Env) (a : AccountData) (found : p.get m.controller.accounts src ≡ some a) where
    abbrev Answerable : PacketMsg → Type 0
    Answerable packet =
        (res : StdAck) × (p.ack.from_slice ack ≡ ok res)
        × Handled p now (answered (carried src dest bytes) ack) m.controller packet res

    who-Answerable : p.packet.from_slice bytes ≡ ok who_am_i → Answerable who_am_i
    who-Answerable decoded = elim (answer_of src dest start i fresh reach waits) [
      | inl (text, failed) ↦ (error text, failed, tt)
      | inr (d, w, l, delivered) ↦
          let packet = carried src dest bytes in
          let (r, received, same) =
            received_of_delivered p d w packet l.host (inl refl) decoded delivered in
          let (account, has, (res, read, who)) =
            ibc_packet_receive-who_am_i p d packet l.host {r = r} decoded received in
          (result res, rw same read, (record { account = account }, a, who, found))
    ]

    balances-Answerable : p.packet.from_slice bytes ≡ ok balances → Answerable balances
    balances-Answerable decoded = elim (answer_of src dest start i fresh reach waits) [
      | inl (text, failed) ↦ (error text, failed, tt)
      | inr (d, w, l, delivered) ↦
          let packet = carried src dest bytes in
          let (r, received, same) =
            received_of_delivered p d w packet l.host (inr refl) decoded delivered in
          let (account, coins, has, told, (res, read, says)) =
            ibc_packet_receive-balances p d packet l.host {r = r} decoded received in
          let read' : p.ack.from_slice ack ≡ ok (result res) = rw same read in
          (
            result res,
            read',
            (
              record { account = account; balances = coins },
              a,
              says,
              found,
              Fits-answer a decoded read' says found,
            ),
          )
    ]

    -- No answer about the account is stuck: in a run of the net in which no packet is on its way
    -- at first and the controller knows no remote address for the channel, an acknowledgement of
    -- `WhoAmI` or `Balances` that waits for the controller is handled without error, whenever it
    -- comes, if the channel is still registered there.
    pub Reach-handles :
        {packet : PacketMsg}
        → IsQuestion packet
        → p.packet.from_slice bytes ≡ ok packet
        → (r : Response) × ((ibc_packet_ack p now
              (answered (carried src dest bytes) ack)
              m.controller).0
            ≡ ok r)
    Reach-handles {packet} (inl who) decoded =
        (ibc_packet_ack-ok_iff p now (answered (carried src dest bytes) ack) m.controller).1 (
          let d : p.packet.from_slice bytes ≡ ok who_am_i = rw (← who) decoded in
          let (res, read, h) = who-Answerable d in (who_am_i, res, d, read, h))
    Reach-handles {packet} (inr bal) decoded =
        (ibc_packet_ack-ok_iff p now (answered (carried src dest bytes) ack) m.controller).1 (
          let d : p.packet.from_slice bytes ≡ ok balances = rw (← bal) decoded in
          let (res, read, h) = balances-Answerable d in (balances, res, d, read, h))
