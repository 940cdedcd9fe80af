-- ===== src/Controller/Ibc/Runs/Sends.antt =====
-- The messages that the calls of the controller send, and the packets among them.
use cw_ibc_demo.Prelude.{
  String, ◌≡◌, ◌≤◌, refl, ◌==◌, if◌then◌else◌, some, List, [], ◌∷◌, ◌++◌, length, All, Outcome, ok,
  err, panic, arith, inl, inr, Outcome-cases, Bool-cases, ap, eq_iff, Option,
}
use cw_ibc_demo.Std.{
  Binary, Timestamp, Env, MessageInfo, IbcChannelMsg, IbcPacket, IbcPacketAckMsg, Response,
  IbcReceiveResponse, SubMsg, fire, CosmosMsg, QueryRequest, ibc_send_packet,
}
use cw_ibc_demo.SimpleIca.Types.{PacketMsg, dispatch, ibc_query, who_am_i, balances}
use cw_ibc_demo.Platform.{Platform, Deps}
use cw_ibc_demo.Controller.Msg.{
  ExecuteMsg, update_admin, send_msgs, check_remote_balance, ibc_query as query_msg, send_funds,
  Config,
}
use cw_ibc_demo.Controller.State.{State}
use cw_ibc_demo.Controller.Contract.{
  execute, execute_update_admin, execute_send_msgs, execute_check_remote_balance, execute_ibc_query,
  execute_send_funds, packet_lifetime,
}
use cw_ibc_demo.Controller.Contract.Accepts.{Allowed-of_sent}
use cw_ibc_demo.Controller.Contract.Auth.{packet_of, execute-sends}
use cw_ibc_demo.Controller.Ibc.{
  ibc_channel_connect, ibc_channel_close, ibc_packet_receive, ibc_packet_ack, ibc_packet_timeout,
  acknowledge, acknowledge_dispatch, acknowledge_query, acknowledge_who_am_i, acknowledge_balances,
}
use cw_ibc_demo.Controller.Ibc.Runs.{
  Call, executes, connects, closes, receives, times_out, acknowledges,
}

-- The messages of a call, none if it fails.
abbrev pub messages_of : {E : Type 0} → Outcome E Response → List SubMsg
messages_of (ok r) = r.messages
messages_of (err e) = []
messages_of (panic e) = []

abbrev pub messages_of_receive : {E : Type 0} → Outcome E IbcReceiveResponse → List SubMsg
messages_of_receive (ok r) = r.messages
messages_of_receive (err e) = []
messages_of_receive (panic e) = []

-- The packets among the messages that go out on a channel.
abbrev pub packet_in : String → CosmosMsg → List Binary
packet_in k (ibc_send_packet channel_id packet timeout) =
    if channel_id == k then packet ∷ [] else []
packet_in k _ = []

abbrev pub packets_on : String → List SubMsg → List Binary
packets_on k [] = []
packets_on k (m ∷ ms) = packet_in k m.msg ++ packets_on k ms

one_packet-All :
    (P : Binary → Type 0) (k channel bytes : _) (t : Timestamp)
    → (channel ≡ k → P bytes)
    → All P (packets_on k (fire (ibc_send_packet channel bytes t) ∷ []))
one_packet-All P k channel bytes t h = elim (Bool-cases (channel == k)) [
  | inl here ↦ rw here (h ((eq_iff channel k).0 here), tt)
  | inr other ↦ rw other tt
]

module _ (p : Platform) where
  unfoldable pub sends : State p → Call → List SubMsg
  sends s (executes d e i m) = messages_of (execute p d e i m s).0
  sends s (connects e m) = messages_of (ibc_channel_connect p e m s).0
  sends s (closes e m) = messages_of (ibc_channel_close p e m s).0
  sends s (receives e m) = messages_of_receive (ibc_packet_receive p e m s).0
  sends s (times_out e m) = messages_of (ibc_packet_timeout p e m s).0
  sends s (acknowledges e m) = messages_of (ibc_packet_ack p e m s).0

  -- The call is `SendMsgs` of the admin, for this channel and with these messages and callback id.
  abbrev pub AdminSends : State p → String → Call → String → List CosmosMsg → Option String → Type 0
  AdminSends s k call sender msgs callback_id =
      (d : Deps) × (e : Env) × (i : MessageInfo) × (cfg : Config) × (call
        ≡ executes d e i (send_msgs k msgs callback_id))
      × (i.sender ≡ sender)
      × (p.item_get s.config ≡ some cfg)
      × (sender ≡ cfg.admin)

  -- The call is `IbcQuery` for this channel, with these queries and this callback id.
  abbrev pub Asks : String → Call → String → List QueryRequest → Option String → Type 0
  Asks k call sender msgs callback_id =
      (d : Deps) × (e : Env) × (i : MessageInfo) × (call
        ≡ executes d e i (query_msg k msgs callback_id))
      × (i.sender ≡ sender)

  -- The packet is what the call says.
  abbrev pub Meant : State p → String → Call → PacketMsg → Type 0
  Meant s k call (dispatch sender msgs callback_id) = AdminSends s k call sender msgs callback_id
  Meant s k call (ibc_query sender msgs callback_id) = Asks k call sender msgs callback_id
  Meant s k call who_am_i = Unit {0}
  Meant s k call balances = Unit {0}

  -- The bytes are read as a packet that the controller may send in this call.
  abbrev pub Authentic : State p → String → Call → Binary → Type 0
  Authentic s k call bytes = (m : PacketMsg) × (p.packet.from_slice bytes ≡ ok m) × Meant s k call m

  module _ (s : State p) (k : String) where
    sent-Authentic :
        (d : Deps) (e : Env) (i : MessageInfo) (m : ExecuteMsg) (c : String) (packet : PacketMsg)
        {r : Response}
        → packet_of i.sender m ≡ some (c, packet)
        → (c ≡ k → Meant s k (executes d e i m) packet)
        → (execute p d e i m s).0 ≡ ok r
        → All (Authentic s k (executes d e i m)) (packets_on k r.messages)
    sent-Authentic d e i m c packet {r} sent admin h =
        let (bytes, messages, decoded, same) = execute-sends p d e i s m c packet {r = r} sent h in
        rw messages (
          one_packet-All (Authentic s k (executes d e i m)) k c bytes (p.plus_seconds e.time 3600)
            λ here. (packet, decoded, admin here))

    execute-Authentic :
        (d : Deps) (e : Env) (i : MessageInfo) (m : ExecuteMsg) {r : Response}
        → (execute p d e i m s).0 ≡ ok r
        → All (Authentic s k (executes d e i m)) (packets_on k r.messages)
    unfolding execute execute_update_admin execute_send_funds
    execute-Authentic d e i (send_msgs c ms id) {r} h =
        let (cfg, a, found, admin, known) =
          Allowed-of_sent p d e i s (send_msgs c ms id) {r = r} h in
        sent-Authentic d e i (send_msgs c ms id) c _ {r = r} refl
          (λ here.
            (d, e, i, cfg, ap (λ x. executes d e i (send_msgs x ms id)) here, refl, found, admin))
          h
    execute-Authentic d e i (check_remote_balance c) {r} h =
        sent-Authentic d e i (check_remote_balance c) c _ {r = r} refl (λ here. tt) h
    execute-Authentic d e i (query_msg c ms id) {r} h =
        sent-Authentic d e i (query_msg c ms id) c _ {r = r} refl
          (λ here. (d, e, i, ap (λ x. executes d e i (query_msg x ms id)) here, refl)) h
    execute-Authentic d e i (update_admin new) {r} h =
        let none_sent : r.messages ≡ [] = ground arith in rw none_sent tt
    execute-Authentic d e i (send_funds c t) {r} h =
        let no_packet : packets_on k r.messages ≡ [] = ground arith in rw no_packet tt

    connect-Authentic :
        (e : Env) (m : IbcChannelMsg)
        → All
            (Authentic s k (connects e m))
            (packets_on k (messages_of (ibc_channel_connect p e m s).0))
    unfolding ibc_channel_connect
    connect-Authentic e m = elim (Outcome-cases (p.packet.to_binary who_am_i)) [
      | inl (bytes, h) ↦ rw h (
          one_packet-All (Authentic s k (connects e m)) k m.channel.channel_id bytes
            (p.plus_seconds e.time packet_lifetime)
            λ here. (who_am_i, p.packet.round_trip who_am_i bytes h, tt))
      | inr (inl (x, h)) ↦ rw h tt
      | inr (inr (x, h)) ↦ rw h tt
    ]

  -- The handling of an acknowledgement sends no packet.
  pub ibc_packet_ack-silent :
      (e : Env) (m : IbcPacketAckMsg) (s : State p) (k : String)
      → packets_on k (messages_of (ibc_packet_ack p e m s).0) ≡ []
  unfolding ibc_packet_ack acknowledge acknowledge_dispatch acknowledge_query acknowledge_who_am_i
      acknowledge_balances
  ibc_packet_ack-silent e m s k = ground arith

  -- Nor does that of a timeout.
  pub ibc_packet_timeout-silent :
      (e : Env) (m : IbcPacket) (s : State p) (k : String)
      → packets_on k (messages_of (ibc_packet_timeout p e m s).0) ≡ []
  unfolding ibc_packet_timeout
  ibc_packet_timeout-silent e m s k = refl

  -- Every packet that a call of the controller sends is read by the other side. If it holds
  -- messages for the account, it is what the admin asked for in that call, and if it holds queries,
  -- what the caller asked for.
  pub sends-Authentic :
      (s : State p) (c : Call) (k : String) → All (Authentic s k c) (packets_on k (sends s c))
  unfolding sends ibc_channel_close ibc_packet_receive ibc_packet_timeout
  sends-Authentic s (executes d e i m) k = elim (Outcome-cases (execute p d e i m s).0) [
    | inl (r, h) ↦ rw h (execute-Authentic s k d e i m {r = r} h)
    | inr failed ↦
        let none_sent : messages_of (execute p d e i m s).0 ≡ [] = ground arith in rw none_sent tt
  ]
  sends-Authentic s (connects e m) k = connect-Authentic s k e m
  sends-Authentic s (closes e m) k = tt
  sends-Authentic s (receives e m) k = tt
  sends-Authentic s (times_out e m) k = tt
  sends-Authentic s (acknowledges e m) k = rw (ibc_packet_ack-silent e m s k) tt

  -- No call of the controller sends more than one message.
  pub sends-le_one : (s : State p) (c : Call) → length (sends s c) ≤ 1
  unfolding sends execute execute_update_admin execute_send_msgs execute_check_remote_balance
      execute_ibc_query execute_send_funds ibc_channel_connect ibc_channel_close ibc_packet_receive
      ibc_packet_timeout ibc_packet_ack acknowledge acknowledge_dispatch acknowledge_query
      acknowledge_who_am_i acknowledge_balances
  sends-le_one s (executes d e i (update_admin new)) = ground arith
  sends-le_one s (executes d e i (send_msgs c ms id)) = ground arith
  sends-le_one s (executes d e i (check_remote_balance c)) = ground arith
  sends-le_one s (executes d e i (query_msg c ms id)) = ground arith
  sends-le_one s (executes d e i (send_funds c t)) = ground arith
  sends-le_one s (acknowledges e m) = ground arith
  sends-le_one s c = ground arith
