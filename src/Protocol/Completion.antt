-- ===== src/Protocol/Completion.antt =====
-- The whole way of a packet: where the parts can do their work, nothing on the way fails.
use cw_ibc_demo.Prelude.{String, ◌≡◌, refl, some, List, [], ◌∷◌, ok, commit, keep, ap, ◌∙◌, eq_refl}
use cw_ibc_demo.Std.{
  Binary, Addr, Env, CosmosMsg, IbcChannelMsg, success, fire, wasm_execute, ibc_send_packet,
  reply_on_success, respond, execute,
}
use cw_ibc_demo.SimpleIca.Types.{dispatch, who_am_i, result, receive_ica_response}
use cw_ibc_demo.SimpleIca.Ack as ack
use cw_ibc_demo.Platform.{Platform, Deps}
use cw_ibc_demo.Controller.Msg.{default_account}
use cw_ibc_demo.Controller.State as controller
use cw_ibc_demo.Controller.Ibc.{
  ibc_channel_connect, ibc_packet_ack, acknowledge, acknowledge_dispatch,
}
use cw_ibc_demo.Controller.Ibc.Handshake.{ibc_channel_connect-registers}
use cw_ibc_demo.Controller.Ibc.Updates.{acknowledge_who_am_i-stores}
use cw_ibc_demo.Controller.Ibc.Delivery.{ibc_packet_ack-who_am_i}
use cw_ibc_demo.Host.Msg.{ContractError}
use cw_ibc_demo.Host.State as host
use cw_ibc_demo.Host.Contract.{reply, reply_dispatch_callback, receive_dispatch_id}
use cw_ibc_demo.Host.Packet.{ibc_packet_receive, receive, receive_dispatch, receive_who_am_i}
use cw_ibc_demo.Protocol.{carried, answered}

module _ (p : Platform) (deps : Deps) (h : host.State p) (dest : String) (account : Addr)
    (found : p.get h.accounts dest ≡ some account) (bytes : Binary) where
  -- The host answers the `WhoAmI` of a channel that has its account, the account then being
  -- encoded.
  receive-who_am_i :
      (src : String) (b : Binary)
      → p.packet.from_slice bytes ≡ ok who_am_i
      → ack.success p {E = ContractError} p.who (record { account = account }) ≡ ok b
      → (ibc_packet_receive p deps (carried src dest bytes) h).0
        ≡ ok (record {
          acknowledgement = b;
          messages = [];
          attributes = ("action", "receive_who_am_i") ∷ [];
        })
  unfolding ibc_packet_receive receive receive_who_am_i
  receive-who_am_i src b decoded encoded = rw (decoded, found, encoded) refl

  -- When a channel is connected whose account the host has, the controller asks for that account in
  -- a packet that times out 3600 seconds after the time of the block, the host answers, and the controller stores the account, without an error on the way, if the
  -- account can be encoded.
  pub who_am_i-completes :
      (s : controller.State p) (env now : Env) (m : IbcChannelMsg) (res b : Binary)
      → let src = m.channel.channel_id in
        let packet = carried src dest bytes in
        let t = commit (ibc_channel_connect p env m) s in
        p.packet.to_binary who_am_i ≡ ok bytes
        → p.who.to_binary (record { account = account }) ≡ ok res
        → p.ack.to_binary (result res) ≡ ok b
        → ((ibc_channel_connect p env m s).0
            ≡ ok (
                respond
                  (fire (ibc_send_packet src bytes (p.plus_seconds env.time 3600)) ∷ [])
                  (("action", "ibc_connect") ∷ ("channel_id", src) ∷ [])))
          × ((ibc_packet_receive p deps packet h).0
              ≡ ok (record {
                acknowledgement = b;
                messages = [];
                attributes = ("action", "receive_who_am_i") ∷ [];
              }))
          × ((ibc_packet_ack p now (answered packet b) t).0
              ≡ ok (respond [] (("action", "acknowledge_who_am_i") ∷ [])))
          × (p.get (commit (ibc_packet_ack p now (answered packet b)) t).accounts src
              ≡ some (record {
                last_update_time = 0;
                remote_addr = some account;
                remote_balance = [];
              }))
  who_am_i-completes s env now m res b e written encoded =
      let src = m.channel.channel_id in
      let t = commit (ibc_channel_connect p env m) s in
      let (sent, decoded, accounts) = ibc_channel_connect-registers p env m s bytes e in
      let empty : p.get t.accounts src ≡ some default_account =
        rw (eq_refl src) at (accounts src) in
      let (accepted, stored) =
        acknowledge_who_am_i-stores p now src t res (record { account = account }) default_account
          (p.who.round_trip _ res written) empty in
      let handled =
        ibc_packet_ack-who_am_i p now (answered (carried src dest bytes) b) t (result res) decoded
          (p.ack.round_trip (result res) b encoded) in
      (
        sent,
        receive-who_am_i src b decoded (rw (written, encoded) refl),
        ap (λ x. x.0) handled ∙ accepted,
        ap (λ x. p.get (keep t x).accounts src) handled ∙ (rw (eq_refl src) at (stored src)),
      )

  -- Messages that a contract sends with a callback id to a channel that has its account come back
  -- to it without an error on the way, if they and their results can be encoded: the host has the
  -- account execute them, the reply of the account with `out` sets the acknowledgement `b`, and on
  -- `b` the controller calls the contract.
  pub dispatch-completes :
      (s : controller.State p) (src : String) (now : Env) (sender id : String)
      (msgs : List CosmosMsg) (exec b₀ out res b call : Binary)
      → let packet = carried src dest bytes in
        p.packet.to_binary (dispatch sender msgs (some id)) ≡ ok bytes
        → p.cw1_exec.to_binary (execute msgs) ≡ ok exec
        → ack.success p {E = ContractError} p.dispatched (record { results = [] }) ≡ ok b₀
        → p.dispatched.to_binary (record { results = out ∷ [] }) ≡ ok res
        → p.ack.to_binary (result res) ≡ ok b
        → p.callback.to_binary (receive_ica_response (record { id = id; msg = result res }))
          ≡ ok call
        → ((ibc_packet_receive p deps packet h).0
            ≡ ok (record {
              acknowledgement = b₀;
              messages = reply_on_success (wasm_execute account exec []) receive_dispatch_id ∷ [];
              attributes = ("action", "receive_dispatch") ∷ [];
            }))
          × ((reply p deps
                (record { id = receive_dispatch_id; result = success (some out) })
                (commit (ibc_packet_receive p deps packet) h)).0
              ≡ ok (record { messages = []; attributes = []; events = []; payload = some b }))
          × (ibc_packet_ack p now (answered packet b) s ≡ (
            ok (
                respond
                  (fire (wasm_execute sender call []) ∷ [])
                  (("action", "acknowledge_dispatch") ∷ ("callback_id", id) ∷ [])),
            s,
          ))
  unfolding ibc_packet_receive receive receive_dispatch reply reply_dispatch_callback ibc_packet_ack
      acknowledge acknowledge_dispatch
  dispatch-completes s src now sender id msgs exec b₀ out res b call e executed empty stored encoded
        called =
      let decoded = p.packet.round_trip (dispatch sender msgs (some id)) bytes e in
      let read = p.ack.round_trip (result res) b encoded in
      (
        rw (decoded, found, empty, executed) refl,
        rw (decoded, found, empty, executed, p.item_get-save h.results [], stored, encoded) refl,
        rw (decoded, read, called) refl,
      )
