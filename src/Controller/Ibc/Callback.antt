-- ===== src/Controller/Ibc/Callback.antt =====
-- ibc.rs of the controller: the callbacks to the contract that sent a packet.
use cw_ibc_demo.Prelude.{
  String, ◌≡◌, Option, none, some, List, [], ◌∷◌, ok, arith, Outcome-cases, inl, inr,
}
use cw_ibc_demo.Std.{Binary, Env, IbcPacketAckMsg, Response, SubMsg, fire, wasm_execute}
use cw_ibc_demo.SimpleIca.Types.{
  PacketMsg, dispatch, ibc_query, who_am_i, balances, StdAck, result, error, receive_ica_response,
}
use cw_ibc_demo.Platform.{Platform}
use cw_ibc_demo.Controller.State.{State}
use cw_ibc_demo.Controller.Ibc.{
  acknowledge_dispatch, acknowledge_query, acknowledge_who_am_i, acknowledge_balances, acknowledge,
  ibc_packet_ack,
}

-- The contract and the id of the callback that a packet asks for.
abbrev pub wanted : PacketMsg → Option (String × String)
wanted (dispatch sender msgs none) = none
wanted (dispatch sender msgs (some id)) = some (sender, id)
wanted (ibc_query sender msgs none) = none
wanted (ibc_query sender msgs (some id)) = some (sender, id)
wanted who_am_i = none
wanted balances = none

module _ (p : Platform) where
  -- `messages` is the wanted callback: one call that the receiver reads as `id` with the
  -- acknowledgement `msg`; or nothing.
  abbrev pub Calls : StdAck → Option (String × String) → List SubMsg → Type 0
  Calls msg none messages = messages ≡ []
  Calls msg (some (sender, id)) messages =
      (bytes : Binary) × (messages ≡ fire (wasm_execute sender bytes []) ∷ [])
      × (p.callback.from_slice bytes ≡ ok (receive_ica_response (record { id = id; msg = msg })))

  acknowledge-Calls :
      (env : Env) (caller : String) (res : StdAck) (ack : IbcPacketAckMsg) (m : PacketMsg)
      (s : State p) {r : Response}
      → p.ack.from_slice ack.acknowledgement ≡ ok res
      → (acknowledge p env caller res ack m s).0 ≡ ok r
      → Calls res (wanted m) r.messages
  unfolding acknowledge acknowledge_dispatch acknowledge_query acknowledge_who_am_i
      acknowledge_balances
  acknowledge-Calls env caller res ack (dispatch sender msgs none) s d h = ground arith
  acknowledge-Calls env caller res ack (dispatch sender msgs (some id)) s d h =
      elim (Outcome-cases
        (p.callback.to_binary (receive_ica_response (record { id = id; msg = res })))) [
          | inl (bytes, e) ↦ (bytes, ground arith, p.callback.round_trip _ bytes e)
          | inr failed ↦ absurd (ground arith)
        ]
  acknowledge-Calls env caller res ack (ibc_query sender msgs none) s d h = ground arith
  acknowledge-Calls env caller res ack (ibc_query sender msgs (some id)) s d h =
      elim (Outcome-cases
        (p.callback.to_binary (receive_ica_response (record { id = id; msg = res })))) [
          | inl (bytes, e) ↦ (bytes, ground arith, p.callback.round_trip _ bytes e)
          | inr failed ↦ absurd (ground arith)
        ]
  acknowledge-Calls env caller (error e) ack who_am_i s d h = ground arith
  acknowledge-Calls env caller (result x) ack who_am_i s d h = ground arith
  acknowledge-Calls env caller (error e) ack balances s d h = ground arith
  acknowledge-Calls env caller (result x) ack balances s d h = ground arith

  -- An acknowledgement that is handled without error sends the sender of the packet exactly the
  -- callback that the packet asked for, with the id of the packet and the acknowledgement that
  -- came back, and sends nothing if it asked for none.
  pub ibc_packet_ack-Calls :
      (env : Env) (m : IbcPacketAckMsg) (s : State p) (packet : PacketMsg) (res : StdAck)
      {r : Response}
      → p.packet.from_slice m.original_packet.payload ≡ ok packet
      → p.ack.from_slice m.acknowledgement ≡ ok res
      → (ibc_packet_ack p env m s).0 ≡ ok r
      → Calls res (wanted packet) r.messages
  unfolding ibc_packet_ack
  ibc_packet_ack-Calls env m s packet res {r} f d h =
      acknowledge-Calls env m.original_packet.src_channel res m packet s {r = r} d (ground arith)
