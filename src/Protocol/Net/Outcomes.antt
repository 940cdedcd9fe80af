-- ===== src/Protocol/Net/Outcomes.antt =====
-- What a packet with messages was sent for, and what came back: the steps of a run that sent it and
-- answered it.
use cw_ibc_demo.Prelude.{ℕ, String, ◌≡◌, Option, some, List, [], ◌∷◌, ok, arith, subst}
use cw_ibc_demo.Std.{
  Binary, Addr, CosmosMsg, wasm_execute, execute, reply_on_success, IbcReceiveResponse,
}
use cw_ibc_demo.SimpleIca.Types.{dispatch, StdAck, result}
use cw_ibc_demo.Platform.{Platform, Deps}
use cw_ibc_demo.Controller.Ibc.Runs.Sends.{AdminSends, Meant}
use cw_ibc_demo.Host.Contract.{receive_dispatch_id}
use cw_ibc_demo.Host.Contract.Replies.{datum}
use cw_ibc_demo.Host.Packet.{ibc_packet_receive}
use cw_ibc_demo.Protocol.{carried}
use cw_ibc_demo.Protocol.Runtime.{Chain}
use cw_ibc_demo.Protocol.Net.{idle, Net, Reach}
use cw_ibc_demo.Protocol.Net.Events.{Took, Sending, Took-map, Sending-map}
use cw_ibc_demo.Protocol.Net.History.{packet_of, Reach-Accounted, sender_of}

module _ {p : Platform} (src dest : String) (start : Net p) (i : ℕ) where
  -- Only messages of the admin travel: in a run of the net in which no packet is on its way at
  -- first, each packet that holds messages for the account, whether it is on its way, expired or
  -- answered, was sent in a step of this run, by a `SendMsgs` call for this channel, with exactly
  -- these messages and this callback id; the caller is the sender that the packet names, and was
  -- the admin of the controller in the state in which the call was made.
  pub Reach-FromAdmin :
      {m : Net p} {bytes : Binary} {sender : String} {msgs : List CosmosMsg}
      {callback_id : Option String}
      → ((j : ℕ) → start.slot j ≡ idle)
      → (reach : Reach p src dest start m) → packet_of src dest start (m.slot i) ≡ some bytes
      → p.packet.from_slice bytes ≡ ok (dispatch sender msgs callback_id)
      → Took
          (Sending i bytes (λ l c. AdminSends p l.controller src c sender msgs callback_id))
          reach
  Reach-FromAdmin {m} {bytes} {sender} {msgs} {callback_id} fresh reach held decoded =
      Took-map _ _
        (Sending-map i bytes _ _ λ l c (packet, decoded', admin).
          let same : packet ≡ dispatch sender msgs callback_id = ground arith in
          subst (Meant p l.controller src c) same admin)
        reach
        (sender_of src dest start i reach (m.slot i) (Reach-Accounted src dest start i fresh reach)
          held)

  -- The account of the channel was made to execute the messages, and `res` is a success with one
  -- result, the data that the chain says it returned, or no bytes if it returned none.
  abbrev pub Executed : Binary → List CosmosMsg → StdAck → Deps → Chain → Net p → Type 0
  Executed bytes msgs res d w l =
      (account : Addr) × (exec content : Binary) × (out : Option Binary) × (p.get l.host.accounts
          dest
        ≡ some account)
      × (p.cw1_exec.from_slice exec ≡ ok (execute msgs))
      × ((r : IbcReceiveResponse) × ((ibc_packet_receive p d (carried src dest bytes) l.host).0
            ≡ ok r)
          × (r.messages ≡ reply_on_success (wasm_execute account exec []) receive_dispatch_id ∷ []))
      × (w (reply_on_success (wasm_execute account exec []) receive_dispatch_id) ≡ ok out)
      × (res ≡ result content)
      × (p.dispatched.from_slice content ≡ ok (record { results = datum p out ∷ [] }))
