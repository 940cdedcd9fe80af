-- ===== src/Protocol/Results.antt =====
-- How the results of a packet come back to the contract that asked for them.
use cw_ibc_demo.Prelude.{String, ◌≡◌, Option, some, List, [], ◌∷◌, ok, commit, eq_refl}
use cw_ibc_demo.Std.{
  Binary, CosmosMsg, QueryRequest, Env, MessageInfo, IbcReceiveResponse, Response, success, fire,
  wasm_execute,
}
use cw_ibc_demo.SimpleIca.Types.{dispatch, ibc_query, result, receive_ica_response}
use cw_ibc_demo.Platform.{Platform, Deps}
use cw_ibc_demo.Controller.State as controller
use cw_ibc_demo.Controller.Contract.{query_latest_ibc_query_result}
use cw_ibc_demo.Controller.Ibc.{ibc_packet_ack}
use cw_ibc_demo.Controller.Ibc.Delivery.{ibc_packet_ack-latest}
use cw_ibc_demo.Controller.Ibc.Callback.{ibc_packet_ack-Calls}
use cw_ibc_demo.Host.State as host
use cw_ibc_demo.Host.Contract.{reply, receive_dispatch_id}
use cw_ibc_demo.Host.Packet.{ibc_packet_receive}
use cw_ibc_demo.Host.Packet.Acks.{ibc_packet_receive-queries, reply-Says}
use cw_ibc_demo.Host.Packet.Queries.{Answers}
use cw_ibc_demo.Host.Packet.Dispatch.{ibc_packet_receive-dispatches}
use cw_ibc_demo.Capturer.Msg as msg
use cw_ibc_demo.Capturer.Contract as capturer
use cw_ibc_demo.Capturer.Contract.Results.{query_result-receive}
use cw_ibc_demo.Protocol.{carried, answered}

module _ (p : Platform) (deps : Deps) (s : controller.State p) (h : host.State p)
    (src dest : String) (now : Env) (bytes : Binary) where
  -- A packet of queries that the host receives, and whose acknowledgement the controller handles,
  -- leaves in the controller as the latest of the channel a success that holds what the host's
  -- chain answered to each query, in order.
  pub query_latest-Answers :
      (sender : String) (msgs : List QueryRequest) (callback_id : Option String)
      {r : IbcReceiveResponse} {done : Response}
      → let packet = carried src dest bytes in
        p.packet.to_binary (ibc_query sender msgs callback_id) ≡ ok bytes
        → (ibc_packet_receive p deps packet h).0 ≡ ok r
        → (ibc_packet_ack p now (answered packet r.acknowledgement) s).0 ≡ ok done
        → (rs : List Binary) × (res : Binary) × Answers p deps msgs rs
          × (p.queried.from_slice res ≡ ok (record { results = rs }))
          × (query_latest_ibc_query_result p
                (commit (ibc_packet_ack p now (answered packet r.acknowledgement)) s)
                src
              ≡ ok (record { last_update_time = now.time; response = result res }))
  query_latest-Answers sender msgs callback_id {r} {done} e received handled =
      let packet = carried src dest bytes in
      let decoded = p.packet.round_trip (ibc_query sender msgs callback_id) bytes e in
      let (rs, answers, (res, read, says)) =
        ibc_packet_receive-queries p deps packet h sender msgs callback_id {r = r} decoded
          received in
      let latest =
        ibc_packet_ack-latest p now (answered packet r.acknowledgement) s (result res) sender msgs
          callback_id {r = done} decoded read handled src in
      (rs, res, answers, says, rw (eq_refl src) at latest)

  -- Messages that were sent with a callback id come back to their sender: after the host has
  -- received the packet and its account has replied with `out`, the acknowledgement that the reply
  -- sets makes the controller call the sender with that id and a success that holds exactly `out`;
  -- a capturer that takes this call from its controller answers the query of the id with that
  -- success.
  pub ack-dispatch :
      (sender id : String) (msgs : List CosmosMsg) (out b : Binary) (c : capturer.State p)
      (cfg : msg.Config) (info : MessageInfo) {r : IbcReceiveResponse} {replied done : Response}
      → let packet = carried src dest bytes in
        p.packet.to_binary (dispatch sender msgs (some id)) ≡ ok bytes
        → (ibc_packet_receive p deps packet h).0 ≡ ok r
        → (reply p deps
            (record { id = receive_dispatch_id; result = success (some out) })
            (commit (ibc_packet_receive p deps packet) h)).0
          ≡ ok replied
        → replied.payload ≡ some b
        → (ibc_packet_ack p now (answered packet b) s).0 ≡ ok done
        → p.item_get c.config ≡ some cfg
        → info.sender ≡ cfg.simple_ica_controller
        → (res call : Binary) × (p.dispatched.from_slice res ≡ ok (record { results = out ∷ [] }))
          × (done.messages ≡ fire (wasm_execute sender call []) ∷ [])
          × (p.callback.from_slice call
              ≡ ok (receive_ica_response (record { id = id; msg = result res })))
          × (capturer.query_result p
                (commit
                  (capturer.execute p info
                    (msg.receive_ica_response (record { id = id; msg = result res })))
                  c)
                id
              ≡ ok (record { result = result res }))
  ack-dispatch sender id msgs out b c cfg info {r} {replied} {done} e received replies set handled
        configured ours =
      let packet = carried src dest bytes in
      let decoded = p.packet.round_trip (dispatch sender msgs (some id)) bytes e in
      let sent =
        ibc_packet_receive-dispatches p deps packet sender msgs (some id) h {r = r} decoded
          received in
      let (b', payload, (res, read, says)) =
        reply-Says p deps (some out) [] (commit (ibc_packet_receive p deps packet) h) {r = replied}
          sent.5 replies in
      let same : b' ≡ b = cc (payload, set) in
      let (call, messages, callback) =
        ibc_packet_ack-Calls p now (answered packet b) s (dispatch sender msgs (some id))
          (result res) {r = done} decoded (rw same at read) handled in
      (
        res,
        call,
        says,
        messages,
        callback,
        rw (eq_refl id) at (
            query_result-receive p info c (record { id = id; msg = result res }) cfg id configured
              ours),
      )
