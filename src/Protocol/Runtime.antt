-- ===== src/Protocol/Runtime.antt =====
-- What the chain of the host does around the contract (x/wasm): it runs the messages of a
-- response, hands the result of each to `reply` where that was asked for, and takes what a reply
-- sets as the acknowledgement. All of it is one transaction.
pub mod Opening
use cw_ibc_demo.Prelude.{
  ℕ, sym, String, ◌≡◌, Option, none, some, List, [], ◌∷◌, Entry, pure, lift, ◌>>=◌, Outcome, ok,
  map_err, arith, bind-eq_ok, bind-of_ok, ap, ◌∙◌, commit-of_ok, commit, refl, ◌⊎◌, inl, inr, subst,
}
use cw_ibc_demo.Std.{
  Binary, CosmosMsg, SubMsg, ReplyOn, never, on_success, reply_on_success, wasm_execute, execute,
  success, IbcPacket, IbcReceiveResponse, Reply, Response, Addr,
}
use cw_ibc_demo.SimpleIca.Types.{dispatch}
use cw_ibc_demo.Platform.{Platform, Deps}
use cw_ibc_demo.Host.Msg.{ContractError}
use cw_ibc_demo.Host.State.{State}
use cw_ibc_demo.Host.Contract.{reply, receive_dispatch_id}
use cw_ibc_demo.Host.Contract.Replies.{datum}
use cw_ibc_demo.Host.Packet.{ibc_packet_receive}
use cw_ibc_demo.Host.Packet.Acks.{Says, reply-Says}
use cw_ibc_demo.Host.Packet.Accepts.{ibc_packet_receive-quiet}
use cw_ibc_demo.Host.Packet.Dispatch.{ibc_packet_receive-dispatches}

-- A transaction fails by an error of the contract or of a message that it sends.
pub data CallError : Type 0 where
  of_contract : ContractError → CallError
  of_message : String → CallError

-- What the chain makes of a message: the data that it returns, if any, or an error.
abbrev pub Chain : Type 0
Chain = SubMsg → Outcome String (Option Binary)

-- The data that a reply sets takes the place of the acknowledgement.
abbrev override : Option Binary → Binary → Binary
override none ack = ack
override (some b) ack = b

module _ (p : Platform) where
  abbrev pub contract : {A : Type 0} → Entry (State p) ContractError A → Entry (State p) CallError A
  contract m s = (map_err of_contract (m s).0, (m s).1)

  -- `never` asks for no reply.
  abbrev pub reply_to :
      Deps → SubMsg → ReplyOn → Option Binary → Binary → Entry (State p) CallError Binary
  reply_to d m never out ack = pure ack
  reply_to d m on_success out ack = do
    r ← contract (reply p d (record { id = m.id; result = success out }))
    pure (override r.payload ack)

  -- The messages one after the other. The replies of the host send no messages of their own.
  unfoldable pub settle : Deps → Chain → List SubMsg → Binary → Entry (State p) CallError Binary
  settle d w [] ack = pure ack
  settle d w (m ∷ ms) ack = do
    out ← lift (map_err of_message (w m))
    ack' ← reply_to d m m.reply_on out ack
    settle d w ms ack'

  -- A packet is received; the result is its acknowledgement.
  unfoldable pub deliver : Deps → Chain → IbcPacket → Entry (State p) CallError Binary
  unfolding settle
  deliver d w packet = do
    r ← contract (ibc_packet_receive p d packet)
    settle d w r.messages r.acknowledgement

  pub contract-eq_ok :
      {A : Type 0} (m : Entry (State p) ContractError A) (s : State p) {a : A}
      → (contract m s).0 ≡ ok a
      → (m s).0 ≡ ok a
  contract-eq_ok m s h = ground arith

  map_err-eq_ok :
      {E F A : Type 0} (f : E → F) (o : Outcome E A) {a : A} → map_err f o ≡ ok a → o ≡ ok a
  map_err-eq_ok f o h = ground arith

  -- Where the one message asks for a reply, the reply was given what the message returned.
  pub settle-reply :
      (d : Deps) (w : Chain) (m : CosmosMsg) (id : ℕ) (s : State p) (ack₀ ack : Binary)
      → (settle d w (reply_on_success m id ∷ []) ack₀ s).0 ≡ ok ack
      → (out : Option Binary) × (x : Response) × (w (reply_on_success m id) ≡ ok out)
        × ((reply p d (record { id = id; result = success out }) s).0 ≡ ok x)
        × (ack ≡ override x.payload ack₀)
        × ((settle d w (reply_on_success m id ∷ []) ack₀ s).1
            ≡ (reply p d (record { id = id; result = success out }) s).1)
  unfolding settle
  settle-reply d w m id s ack₀ ack h =
      let msg = reply_on_success m id in
      let (out, ran, rest) = bind-eq_ok (lift (map_err of_message (w msg))) _ s h in
      let (ack', replied, last) = bind-eq_ok (reply_to d msg on_success out ack₀) _ s rest in
      let again = reply p d (record { id = id; result = success out }) in
      let (x, answered, set) = bind-eq_ok (contract again) _ s replied in
      (
        out,
        x,
        map_err-eq_ok of_message (w msg) ran,
        contract-eq_ok again s answered,
        ground arith,
        rw (ran, answered) refl,
      )

  reply_to-Says :
      (d : Deps) (w : Chain) (m : CosmosMsg) (s : State p) (ack₀ ack : Binary)
      → p.item_get s.results ≡ some []
      → (settle d w (reply_on_success m receive_dispatch_id ∷ []) ack₀ s).0 ≡ ok ack
      → (out : Option Binary) × (w (reply_on_success m receive_dispatch_id) ≡ ok out)
        × Says p p.dispatched (record { results = datum p out ∷ [] }) ack
  reply_to-Says d w m s ack₀ ack empty h =
      let (out, x, ran, answered, set, left) =
        settle-reply d w m receive_dispatch_id s ack₀ ack h in
      let (b, payload, says) = reply-Says p d out [] s {r = x} empty answered in
      let same : b ≡ ack = ground arith in
      (out, ran, subst (Says p p.dispatched (record { results = datum p out ∷ [] })) same says)

  -- A packet with messages whose delivery succeeds came on a channel that has its account, the
  -- account executed exactly those messages, once, and the acknowledgement is a success with one
  -- result: the data that the account returned, or no bytes if it returned none.
  pub deliver-dispatch :
      (d : Deps) (w : Chain) (packet : IbcPacket) (s : State p) (sender : String)
      (msgs : List CosmosMsg) (callback_id : Option String) (ack : Binary)
      → p.packet.from_slice packet.payload ≡ ok (dispatch sender msgs callback_id)
      → (deliver d w packet s).0 ≡ ok ack
      → (account : Addr) × (exec : Binary) × (out : Option Binary) × (p.get s.accounts
            packet.dest_channel
          ≡ some account)
        × (p.cw1_exec.from_slice exec ≡ ok (execute msgs))
        × ((r : IbcReceiveResponse) × ((ibc_packet_receive p d packet s).0 ≡ ok r)
            × (r.messages
                ≡ reply_on_success (wasm_execute account exec []) receive_dispatch_id ∷ []))
        × (w (reply_on_success (wasm_execute account exec []) receive_dispatch_id) ≡ ok out)
        × Says p p.dispatched (record { results = datum p out ∷ [] }) ack
  unfolding deliver
  deliver-dispatch d w packet s sender msgs callback_id ack decoded h =
      let receive = ibc_packet_receive p d packet in
      let (r, received, settled) = bind-eq_ok (contract receive) _ s h in
      let got = contract-eq_ok receive s received in
      let (account, exec, found, read, messages, stored) =
        ibc_packet_receive-dispatches p d packet sender msgs callback_id s {r = r} decoded got in
      let empty = rw (commit-of_ok receive s got) at stored in
      let (out, ran, says) =
        reply_to-Says d w (wasm_execute account exec []) (receive s).1 r.acknowledgement ack empty
          (rw messages at settled) in
      (account, exec, out, found, read, (r, got, messages), ran, says)

  -- A delivery that succeeds is the packet's receipt, and for a packet with messages one reply
  -- more.
  pub deliver-parts :
      (d : Deps) (w : Chain) (packet : IbcPacket) (s : State p) (ack : Binary)
      → (deliver d w packet s).0 ≡ ok ack
      → (r : IbcReceiveResponse) × ((ibc_packet_receive p d packet s).0 ≡ ok r)
        × (((ack ≡ r.acknowledgement)
              × ((deliver d w packet s).1 ≡ (ibc_packet_receive p d packet s).1))
            ⊎ ((sender : String) × (msgs : List CosmosMsg) × (callback_id : Option String)
                × (again : Reply) × (p.packet.from_slice packet.payload
                    ≡ ok (dispatch sender msgs callback_id))
                × ((deliver d w packet s).1
                    ≡ commit (reply p d again) (ibc_packet_receive p d packet s).1)))
  unfolding deliver settle
  deliver-parts d w packet s ack h =
      let receive = ibc_packet_receive p d packet in
      let (r, received, settled) = bind-eq_ok (contract receive) _ s h in
      let got = contract-eq_ok receive s received in
      let whole =
        bind-of_ok (contract receive) (λ r. settle d w r.messages r.acknowledgement) s received in
      (
        r,
        got,
        elim (ibc_packet_receive-quiet p d packet s {r = r} got) [
          | inr none_sent ↦ inl (
            let last : _ ≡ ok ack = rw none_sent at settled in ground arith,
            ap (λ x. x.1) whole ∙ rw none_sent refl,
          )
          | inl (sender, msgs, callback_id, decoded) ↦
              let (account, exec, found, read, messages, stored) =
                ibc_packet_receive-dispatches p d packet sender msgs callback_id s {r = r} decoded
                  got in
              let (out, x, ran, answered, set, left) =
                settle-reply d w (wasm_execute account exec []) receive_dispatch_id (receive s).1
                  r.acknowledgement ack (rw messages at settled) in
              let again : Reply = record { id = receive_dispatch_id; result = success out } in
              inr (
                sender,
                msgs,
                callback_id,
                again,
                decoded,
                ap (λ x. x.1) whole
                    ∙ (rw messages
                        (left ∙ sym (commit-of_ok (reply p d again) (receive s).1 answered))),
              )
        ],
      )
