-- ===== src/Host/Packet/Acks.antt =====
-- What the acknowledgements of the host say, as the other side reads them.
use cw_ibc_demo.Prelude.{
  String, ◌≡◌, Option, none, some, List, [], ◌∷◌, ◌++◌, ok, inl, inr, arith, Outcome-cases,
  Option-cases,
}
use cw_ibc_demo.Std.{
  Binary, Addr, Coin, QueryRequest, IbcPacket, IbcReceiveResponse, Response, success,
}
use cw_ibc_demo.SimpleIca.Types.{who_am_i, balances, ibc_query, result}
use cw_ibc_demo.SimpleIca.Ack as ack
use cw_ibc_demo.SimpleIca.Ack.RoundTrip.{success-parts}
use cw_ibc_demo.Platform.{Platform, Deps, Codec}
use cw_ibc_demo.Host.Msg.{ContractError}
use cw_ibc_demo.Host.State.{State}
use cw_ibc_demo.Host.Contract.{reply, reply_dispatch_callback, receive_dispatch_id}
use cw_ibc_demo.Host.Contract.Replies.{datum}
use cw_ibc_demo.Host.Packet.{
  run_queries, receive_query, receive_who_am_i, receive_balances, ibc_packet_receive,
}
use cw_ibc_demo.Host.Packet.Queries.{Answers, run_queries_iff}

module _ (p : Platform) where
  -- The bytes are a success, and its content is read as `x`.
  abbrev pub Says : {T : Type 0} → Codec T → T → Binary → Type 0
  Says c x b = (res : Binary) × (p.ack.from_slice b ≡ ok (result res)) × (c.from_slice res ≡ ok x)

  success-Says :
      {T : Type 0} (c : Codec T) (x : T) (b : Binary)
      → ack.success p {E = ContractError} c x ≡ ok b
      → Says c x b
  success-Says c x b h =
      let (res, e, e') = success-parts p c x b h in
      (res, p.ack.round_trip (result res) b e', c.round_trip x res e)

  module _ (deps : Deps) (packet : IbcPacket) (s : State p) where
    -- A `WhoAmI` that is received without error is answered with the account of the channel.
    pub ibc_packet_receive-who_am_i :
        {r : IbcReceiveResponse}
        → p.packet.from_slice packet.payload ≡ ok who_am_i
        → (ibc_packet_receive p deps packet s).0 ≡ ok r
        → (account : Addr) × (p.get s.accounts packet.dest_channel ≡ some account)
          × Says p.who (record { account = account }) r.acknowledgement
    unfolding ibc_packet_receive receive_who_am_i
    ibc_packet_receive-who_am_i {r} e h =
        elim (Option-cases (p.get s.accounts packet.dest_channel)) [
          | inl missing ↦ absurd (ground arith)
          | inr (account, found) ↦ (
            account,
            found,
            success-Says p.who (record { account = account }) r.acknowledgement (ground arith),
          )
        ]

    -- A `Balances` that is received without error is answered with the account of the channel and
    -- its balance.
    pub ibc_packet_receive-balances :
        {r : IbcReceiveResponse}
        → p.packet.from_slice packet.payload ≡ ok balances
        → (ibc_packet_receive p deps packet s).0 ≡ ok r
        → (account : Addr) × (coins : List Coin) × (p.get s.accounts packet.dest_channel
            ≡ some account)
          × (deps.query_all_balances account ≡ ok coins)
          × Says p.balance (record { account = account; balances = coins }) r.acknowledgement
    unfolding ibc_packet_receive receive_balances
    ibc_packet_receive-balances {r} e h =
        elim (Option-cases (p.get s.accounts packet.dest_channel)) [
          | inl missing ↦ absurd (ground arith)
          | inr (account, found) ↦ elim (Outcome-cases (deps.query_all_balances account)) [
            | inr failed ↦ absurd (ground arith)
            | inl (coins, asked) ↦ (
              account,
              coins,
              found,
              asked,
              success-Says p.balance (record { account = account; balances = coins })
                  r.acknowledgement (ground arith),
            )
          ]
        ]

    -- A packet of queries that is received without error is answered with the querier's results.
    pub ibc_packet_receive-queries :
        (sender : String) (msgs : List QueryRequest) (callback_id : Option String)
        {r : IbcReceiveResponse}
        → p.packet.from_slice packet.payload ≡ ok (ibc_query sender msgs callback_id)
        → (ibc_packet_receive p deps packet s).0 ≡ ok r
        → (rs : List Binary) × Answers p deps msgs rs
          × Says p.queried (record { results = rs }) r.acknowledgement
    unfolding ibc_packet_receive receive_query
    ibc_packet_receive-queries sender msgs callback_id {r} e h =
        elim (Outcome-cases (run_queries p deps msgs)) [
          | inr failed ↦ absurd (ground arith)
          | inl (rs, ran) ↦ (
            rs,
            (run_queries_iff p deps msgs rs).0 ran,
            success-Says p.queried (record { results = rs }) r.acknowledgement (ground arith),
          )
        ]

  -- The data that a reply to a dispatch sets is the acknowledgement of all results so far, the
  -- reply's own last.
  pub reply-Says :
      (deps : Deps) (out : Option Binary) (old : List Binary) (s : State p) {r : Response}
      → p.item_get s.results ≡ some old
      → (reply p deps (record { id = receive_dispatch_id; result = success out }) s).0 ≡ ok r
      → (b : Binary) × (r.payload ≡ some b)
        × Says p.dispatched (record { results = old ++ datum p out ∷ [] }) b
  unfolding reply reply_dispatch_callback
  reply-Says deps out old s {r} e h =
      elim (Outcome-cases (
        ack.success p {E = ContractError} p.dispatched
          (record { results = old ++ datum p out ∷ [] }))) [
            | inr failed ↦ absurd (ground arith)
            | inl (b, x) ↦ (
              b,
              payload out b h x,
              success-Says p.dispatched (record { results = old ++ datum p out ∷ [] }) b x,
            )
          ]
    where
      payload :
          (out : Option Binary) (b : Binary)
          → (reply p deps (record { id = receive_dispatch_id; result = success out }) s).0 ≡ ok r
          → ack.success p {E = ContractError} p.dispatched
              (record { results = old ++ datum p out ∷ [] })
            ≡ ok b
          → r.payload ≡ some b
      payload none b h x = ground arith
      payload (some bytes) b h x = ground arith
