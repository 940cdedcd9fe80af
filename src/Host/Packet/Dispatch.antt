-- ===== src/Host/Packet/Dispatch.antt =====
-- The packet with messages for the account.
use cw_ibc_demo.Prelude.{
  String, Option, some, ◌≡◌, List, [], ◌∷◌, ok, arith, commit, Outcome-cases, Option-cases, inl,
  inr,
}
use cw_ibc_demo.Std.{
  Binary, CosmosMsg, wasm_execute, reply_on_success, IbcPacket, IbcReceiveResponse, Addr, execute,
}
use cw_ibc_demo.SimpleIca.Types.{dispatch}
use cw_ibc_demo.SimpleIca.Ack as ack
use cw_ibc_demo.Platform.{Platform, Deps}
use cw_ibc_demo.Host.Msg.{ContractError}
use cw_ibc_demo.Host.State.{State}
use cw_ibc_demo.Host.Contract.{receive_dispatch_id}
use cw_ibc_demo.Host.Contract.Replies.{replies, data_of, Encodes, results-replies}
use cw_ibc_demo.Host.Packet.{receive_dispatch, ibc_packet_receive}

module _ (p : Platform) (deps : Deps) where
  -- A packet with messages that is received without error came on a registered channel, and makes
  -- the account of that channel execute exactly those messages, with the reply requested; the
  -- stored results are empty.
  pub ibc_packet_receive-dispatches :
      (packet : IbcPacket) (sender : String) (msgs : List CosmosMsg) (callback_id : Option String)
      (s : State p) {r : IbcReceiveResponse}
      → p.packet.from_slice packet.payload ≡ ok (dispatch sender msgs callback_id)
      → (ibc_packet_receive p deps packet s).0 ≡ ok r
      → (account : Addr) × (bytes : Binary) × (p.get s.accounts packet.dest_channel ≡ some account)
        × (p.cw1_exec.from_slice bytes ≡ ok (execute msgs))
        × (r.messages ≡ reply_on_success (wasm_execute account bytes []) receive_dispatch_id ∷ [])
        × (p.item_get (commit (ibc_packet_receive p deps packet) s).results ≡ some [])
  unfolding ibc_packet_receive receive_dispatch
  ibc_packet_receive-dispatches packet sender msgs callback_id s {r} e h =
      elim (Option-cases (p.get s.accounts packet.dest_channel)) [
        | inl missing ↦ absurd (ground arith)
        | inr (account, found) ↦ elim (Outcome-cases (p.cw1_exec.to_binary (execute msgs))) [
          | inr failed ↦ absurd (ground arith)
          | inl (bytes, x) ↦
              elim (Outcome-cases
                (ack.success p {E = ContractError} p.dispatched (record { results = [] }))) [
                  | inr failed ↦ absurd (ground arith)
                  | inl (a, y) ↦ (
                    account,
                    bytes,
                    found,
                    p.cw1_exec.round_trip _ bytes x,
                    ground arith,
                    ground (arith, p.item_get-save s.results []),
                  )
                ]
        ]
      ]

  -- Results of an earlier dispatch never show up in a later one: after a packet with messages is
  -- received without error, the results that are stored after any number of replies that report a
  -- success are the data of those replies alone, in order, if each reply can encode the results so
  -- far in its acknowledgement.
  pub results-replies-dispatch :
      (packet : IbcPacket) (sender : String) (msgs : List CosmosMsg) (callback_id : Option String)
      (s : State p) (ds : List (Option Binary)) {r : IbcReceiveResponse}
      → Encodes p [] ds
      → p.packet.from_slice packet.payload ≡ ok (dispatch sender msgs callback_id)
      → (ibc_packet_receive p deps packet s).0 ≡ ok r
      → p.item_get (replies p deps ds (commit (ibc_packet_receive p deps packet) s)).results
        ≡ some (data_of p ds)
  results-replies-dispatch packet sender msgs callback_id s ds {r} enc e h =
      results-replies p deps ds [] _ enc
        (ibc_packet_receive-dispatches packet sender msgs callback_id s {r = r} e h).5
