-- ===== src/Controller/Ibc/Accepts.antt =====
-- ibc.rs of the controller: which acknowledgements are handled without error.
use cw_ibc_demo.Prelude.{
  String, ◌≡◌, ◌↔◌, refl, Option, none, some, [], ◌∷◌, ok, arith, inl, inr, Outcome-cases,
  Option-cases,
}
use cw_ibc_demo.Std.{Binary, Env, IbcPacketAckMsg, Response, respond, fire, wasm_execute}
use cw_ibc_demo.SimpleIca.Types.{
  PacketMsg, dispatch, ibc_query, who_am_i, balances, StdAck, result, error, WhoAmIResponse,
  BalancesResponse, receive_ica_response,
}
use cw_ibc_demo.Platform.{Platform}
use cw_ibc_demo.Controller.Msg.{AccountData}
use cw_ibc_demo.Controller.State.{State}
use cw_ibc_demo.Controller.Ibc.{
  ibc_packet_ack, acknowledge, acknowledge_dispatch, acknowledge_query, acknowledge_who_am_i,
  acknowledge_balances, set_first_addr,
}
use cw_ibc_demo.Controller.Ibc.Updates.{Fits, acknowledge_balances-ok_iff}

module _ (p : Platform) (env : Env) (m : IbcPacketAckMsg) (s : State p) where
  -- The callback that was asked for, if any, can be written.
  abbrev pub Callable : StdAck → Option String → Type 0
  Callable res none = Unit {0}
  Callable res (some id) =
      (call : Binary) × (p.callback.to_binary (receive_ica_response (record { id = id; msg = res }))
        ≡ ok call)

  abbrev channel : String
  channel = m.original_packet.src_channel

  -- What is needed of the answer to a packet.
  abbrev pub Handled : PacketMsg → StdAck → Type 0
  Handled (dispatch sender msgs id) res = Callable res id
  Handled (ibc_query sender msgs id) res = Callable res id
  Handled who_am_i (error e) = Unit {0}
  Handled who_am_i (result b) =
      (r : WhoAmIResponse) × (a : AccountData) × (p.who.from_slice b ≡ ok r)
      × (p.get s.accounts m.original_packet.src_channel ≡ some a)
  Handled balances (error e) = Unit {0}
  Handled balances (result b) =
      (r : BalancesResponse) × (a : AccountData) × (p.balance.from_slice b ≡ ok r)
      × (p.get s.accounts m.original_packet.src_channel ≡ some a)
      × Fits r.account a

  Handled-of_ok :
      (packet : PacketMsg) (res : StdAck) {r : Response}
      → p.ack.from_slice m.acknowledgement ≡ ok res
      → (acknowledge p env channel res m packet s).0 ≡ ok r
      → Handled packet res
  unfolding acknowledge acknowledge_dispatch acknowledge_query acknowledge_who_am_i set_first_addr
      acknowledge_balances
  Handled-of_ok (dispatch sender msgs none) res d h = tt
  Handled-of_ok (dispatch sender msgs (some id)) res d h =
      elim (Outcome-cases
        (p.callback.to_binary (receive_ica_response (record { id = id; msg = res })))) [
          | inl found ↦ found
          | inr failed ↦ absurd (ground arith)
        ]
  Handled-of_ok (ibc_query sender msgs none) res d h = tt
  Handled-of_ok (ibc_query sender msgs (some id)) res d h =
      elim (Outcome-cases
        (p.callback.to_binary (receive_ica_response (record { id = id; msg = res })))) [
          | inl found ↦ found
          | inr failed ↦ absurd (ground arith)
        ]
  Handled-of_ok who_am_i (error e) d h = tt
  Handled-of_ok who_am_i (result b) d h = elim (Outcome-cases (p.who.from_slice b)) [
    | inr failed ↦ absurd (ground arith)
    | inl (r, e) ↦ elim (Option-cases (p.get s.accounts channel)) [
      | inl absent ↦ absurd (ground arith)
      | inr (a, found) ↦ (r, a, e, found)
    ]
  ]
  Handled-of_ok balances (error e) d h = tt
  Handled-of_ok balances (result b) d h = elim (Outcome-cases (p.balance.from_slice b)) [
    | inr failed ↦ absurd (ground arith)
    | inl (r, e) ↦
        let (a, found, fits) =
          (acknowledge_balances-ok_iff p env channel s b r e).0 (ground arith) in
        (r, a, e, found, fits)
  ]

  ok_of_Handled :
      (packet : PacketMsg) (res : StdAck)
      → p.ack.from_slice m.acknowledgement ≡ ok res
      → Handled packet res
      → (r : Response) × ((acknowledge p env channel res m packet s).0 ≡ ok r)
  unfolding acknowledge acknowledge_dispatch acknowledge_query acknowledge_who_am_i set_first_addr
      acknowledge_balances
  ok_of_Handled (dispatch sender msgs none) res d h = (_, refl)
  ok_of_Handled (dispatch sender msgs (some id)) res d (call, e) = (
    respond (fire (wasm_execute sender call []) ∷ [])
        (("action", "acknowledge_dispatch") ∷ ("callback_id", id) ∷ []),
    ground arith,
  )
  ok_of_Handled (ibc_query sender msgs none) res d h =
      (respond [] (("action", "acknowledge_ibc_query") ∷ []), ground arith)
  ok_of_Handled (ibc_query sender msgs (some id)) res d (call, e) = (
    respond (fire (wasm_execute sender call []) ∷ []) (("action", "acknowledge_ibc_query") ∷ []),
    ground arith,
  )
  ok_of_Handled who_am_i (error e) d h = (_, refl)
  ok_of_Handled who_am_i (result b) d (r, a, e, found) =
      (respond [] (("action", "acknowledge_who_am_i") ∷ []), ground arith)
  ok_of_Handled balances (error e) d h = (_, refl)
  ok_of_Handled balances (result b) d (r, a, e, found, fits) =
      (_, (acknowledge_balances-ok_iff p env channel s b r e).1 (a, found, fits))

  -- An acknowledgement is handled without error exactly if its bytes and those of the packet can
  -- be read, and: for a packet with messages or queries, the callback that it asks for, if any,
  -- can be written; for a successful answer to `WhoAmI`, it can be read and the channel is
  -- registered; for one to `Balances`, also the account has no remote address yet or the one of
  -- the answer. An error is always accepted as the answer to these two.
  pub ibc_packet_ack-ok_iff : ((r : Response) × ((ibc_packet_ack p env m s).0 ≡ ok r)) ↔ (
      (packet : PacketMsg) × (res : StdAck) × (p.packet.from_slice m.original_packet.payload
        ≡ ok packet)
      × (p.ack.from_slice m.acknowledgement ≡ ok res)
      × Handled packet res)
  unfolding ibc_packet_ack
  ibc_packet_ack-ok_iff =
      (λ (r, h). needed r h, λ (packet, res, f, d, handled). enough packet res f d handled)
    where
      needed :
          (r : Response)
          → (ibc_packet_ack p env m s).0 ≡ ok r
          → (packet : PacketMsg) × (res : StdAck) × (p.packet.from_slice m.original_packet.payload
              ≡ ok packet)
            × (p.ack.from_slice m.acknowledgement ≡ ok res)
            × Handled packet res
      needed r h = elim (Outcome-cases (p.packet.from_slice m.original_packet.payload)) [
        | inr failed ↦ absurd (ground arith)
        | inl (packet, f) ↦ elim (Outcome-cases (p.ack.from_slice m.acknowledgement)) [
          | inr failed ↦ absurd (ground arith)
          | inl (res, d) ↦ (packet, res, f, d, Handled-of_ok packet res {r = r} d (ground arith))
        ]
      ]

      enough :
          (packet : PacketMsg) (res : StdAck)
          → p.packet.from_slice m.original_packet.payload ≡ ok packet
          → p.ack.from_slice m.acknowledgement ≡ ok res
          → Handled packet res
          → (r : Response) × ((ibc_packet_ack p env m s).0 ≡ ok r)
      enough packet res f d handled =
          let (r, h) = ok_of_Handled packet res d handled in (r, ground arith)
