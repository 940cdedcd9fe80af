-- ===== src/Protocol/Net/Callers.antt =====
-- Who is called back: the steps of a run that asked for it.
use cw_ibc_demo.Prelude.{
  ℕ, String, ◌≡◌, ◌≢◌, ◌⊎◌, inl, inr, none, some, List, [], ◌∷◌, ok, arith, subst, Option-cases,
}
use cw_ibc_demo.Std.{Binary, Env, MessageInfo, CosmosMsg, QueryRequest, SubMsg, fire, wasm_execute}
use cw_ibc_demo.SimpleIca.Types.{
  PacketMsg, dispatch, ibc_query, who_am_i, balances, StdAck, receive_ica_response,
}
use cw_ibc_demo.Platform.{Platform, Deps}
use cw_ibc_demo.Controller.Msg.{send_msgs, ibc_query as query_msg}
use cw_ibc_demo.Controller.State.{State}
use cw_ibc_demo.Controller.Ibc.Callback.{wanted, Calls}
use cw_ibc_demo.Controller.Ibc.Runs.{Call, executes}
use cw_ibc_demo.Controller.Ibc.Runs.Sends.{Meant}
use cw_ibc_demo.Protocol.Net.{idle, done, Net, Reach}
use cw_ibc_demo.Protocol.Net.Events.{Took, Sending, Took-map, Sending-map}
use cw_ibc_demo.Protocol.Net.History.{at_slot, Reach-Accounted}

-- The call is one of `caller`, `SendMsgs` or `IbcQuery` for the channel, with the callback id `id`.
abbrev pub Requested : String → Call → String → String → Type 0
Requested src c caller id =
    (d : Deps) × (e : Env) × (info : MessageInfo) × (info.sender ≡ caller)
    × (((msgs : List CosmosMsg) × (c ≡ executes d e info (send_msgs src msgs (some id))))
        ⊎ ((queries : List QueryRequest) × (c
              ≡ executes d e info (query_msg src queries (some id)))))

wanted-Requested :
    (p : Platform) (s : State p) (src : String) (c : Call) (m : PacketMsg) (caller id : String)
    → Meant p s src c m
    → wanted m ≡ some (caller, id)
    → Requested src c caller id
wanted-Requested p s src c (dispatch sender msgs none) caller id h w = absurd (cc)
wanted-Requested p s src c (dispatch sender msgs (some x)) caller id
      (d, e, info, cfg, is, by, has, admin) w =
    (d, e, info, ground arith, inl (msgs, ground arith))
wanted-Requested p s src c (ibc_query sender msgs none) caller id h w = absurd (cc)
wanted-Requested p s src c (ibc_query sender msgs (some x)) caller id (d, e, info, is, by) w =
    (d, e, info, ground arith, inr (msgs, ground arith))
wanted-Requested p s src c who_am_i caller id h w = absurd (cc)
wanted-Requested p s src c balances caller id h w = absurd (cc)

module _ {p : Platform} (src dest : String) (start : Net p) (i : ℕ) where
  -- Nobody is called back who did not ask: in a run of the net in which no packet is on its way at
  -- first, where the handling of the acknowledgement of a packet sent any message, it sent one, a
  -- call without funds. The packet was sent in a step of this run by a `SendMsgs` or `IbcQuery` call
  -- for this channel that gave a callback id; the one who made that call is called, with that id
  -- and the acknowledgement of that packet.
  pub Reach-called :
      {m : Net p} {bytes ack : Binary} {made : List SubMsg}
      → ((j : ℕ) → start.slot j ≡ idle)
      → (reach : Reach p src dest start m) → m.slot i ≡ done bytes ack made
      → made ≢ []
      → (caller id : String) × (res : StdAck) × (call : Binary) × (made
          ≡ fire (wasm_execute caller call []) ∷ [])
        × (p.ack.from_slice ack ≡ ok res)
        × (p.callback.from_slice call ≡ ok (receive_ica_response (record { id = id; msg = res })))
        × Took (Sending i bytes (λ l c. Requested src c caller id)) reach
  Reach-called {m} {bytes} {ack} {made} fresh reach held some_made =
      let (by, answer, (packet, res, decoded, read, called)) =
        at_slot src dest start i reach held (Reach-Accounted src dest start i fresh reach) in
      elim (Option-cases (wanted packet)) [
        | inl nothing ↦ absurd (some_made (subst (λ x. Calls p res x made) nothing called))
        | inr ((caller, id), w) ↦
            let (call, messages, callback) = subst (λ x. Calls p res x made) w called in
            (
              caller,
              id,
              res,
              call,
              messages,
              read,
              callback,
              Took-map _ _
                  (Sending-map i bytes _ _ λ l c (packet', decoded', meant).
                    let same : packet' ≡ packet = ground arith in
                    wanted-Requested p l.controller src c packet caller id
                      (subst (Meant p l.controller src c) same meant) w)
                  reach by,
            )
      ]
