-- ===== src/Host/Packet/Accepts.antt =====
-- Which packets the host acknowledges.
use cw_ibc_demo.Prelude.{
  ◌⊎◌, Option, ◌≡◌, ◌↔◌, String, some, List, [], ok, arith, inl, inr, Outcome-cases, Option-cases,
  Failed,
}
use cw_ibc_demo.Std.{Binary, Addr, Coin, IbcPacket, IbcReceiveResponse, CosmosMsg, execute}
use cw_ibc_demo.SimpleIca.Types.{PacketMsg, dispatch, ibc_query, who_am_i, balances}
use cw_ibc_demo.SimpleIca.Ack as ack
use cw_ibc_demo.Platform.{Platform, Deps, Codec}
use cw_ibc_demo.Host.Msg.{ContractError}
use cw_ibc_demo.Host.State.{State}
use cw_ibc_demo.Host.Packet.{
  receive_who_am_i, receive_balances, receive_query, receive_dispatch, receive, ibc_packet_receive,
  run_queries,
}
use cw_ibc_demo.Host.Packet.Queries.{Answers, run_queries_iff}

module _ (p : Platform) (deps : Deps) (channel : String) (s : State p) where
  -- The value can be put into an acknowledgement.
  abbrev Encodable : {T : Type 0} → Codec T → T → Type 0
  Encodable c x = (b : Binary) × (ack.success p {E = ContractError} c x ≡ ok b)

  -- What the host needs to answer a packet: the account of the channel, except for queries, and
  -- what the chain answers.
  abbrev pub Accepts : PacketMsg → Type 0
  Accepts (dispatch sender msgs callback_id) =
      (account : Addr) × (bytes : Binary) × (p.get s.accounts channel ≡ some account)
      × (p.cw1_exec.to_binary (execute msgs) ≡ ok bytes)
      × Encodable p.dispatched (record { results = [] })
  Accepts (ibc_query sender msgs callback_id) =
      (rs : List Binary) × Answers p deps msgs rs × Encodable p.queried (record { results = rs })
  Accepts who_am_i =
      (account : Addr) × (p.get s.accounts channel ≡ some account)
      × Encodable p.who (record { account = account })
  Accepts balances =
      (account : Addr) × (coins : List Coin) × (p.get s.accounts channel ≡ some account)
      × (deps.query_all_balances account ≡ ok coins)
      × Encodable p.balance (record { account = account; balances = coins })

  needs :
      (m : PacketMsg) {r : IbcReceiveResponse} → (receive p deps channel m s).0 ≡ ok r → Accepts m
  unfolding receive receive_who_am_i receive_balances receive_query receive_dispatch
  needs (dispatch sender msgs callback_id) {r} h = elim (Option-cases (p.get s.accounts channel)) [
    | inl missing ↦ absurd (ground arith)
    | inr (account, found) ↦ elim (Outcome-cases (p.cw1_exec.to_binary (execute msgs))) [
      | inr failed ↦ absurd (ground arith)
      | inl (bytes, e) ↦
          elim (Outcome-cases
            (ack.success p {E = ContractError} p.dispatched (record { results = [] }))) [
              | inr failed ↦ absurd (ground arith)
              | inl encoded ↦ (account, bytes, found, e, encoded)
            ]
    ]
  ]
  needs (ibc_query sender msgs callback_id) {r} h = elim (Outcome-cases (run_queries p deps msgs)) [
    | inr failed ↦ absurd (ground arith)
    | inl (rs, ran) ↦
        elim (Outcome-cases
          (ack.success p {E = ContractError} p.queried (record { results = rs }))) [
            | inr failed ↦ absurd (ground arith)
            | inl encoded ↦ (rs, (run_queries_iff p deps msgs rs).0 ran, encoded)
          ]
  ]
  needs who_am_i {r} h = elim (Option-cases (p.get s.accounts channel)) [
    | inl missing ↦ absurd (ground arith)
    | inr (account, found) ↦
        elim (Outcome-cases
          (ack.success p {E = ContractError} p.who (record { account = account }))) [
            | inr failed ↦ absurd (ground arith)
            | inl encoded ↦ (account, found, encoded)
          ]
  ]
  needs balances {r} h = elim (Option-cases (p.get s.accounts channel)) [
    | inl missing ↦ absurd (ground arith)
    | inr (account, found) ↦ elim (Outcome-cases (deps.query_all_balances account)) [
      | inr failed ↦ absurd (ground arith)
      | inl (coins, asked) ↦
          elim (Outcome-cases (
            ack.success p {E = ContractError} p.balance
              (record { account = account; balances = coins }))) [
                | inr failed ↦ absurd (ground arith)
                | inl encoded ↦ (account, coins, found, asked, encoded)
              ]
    ]
  ]

  refuses : (m : PacketMsg) → Accepts m → Failed (receive p deps channel m s).0 → ⊥
  unfolding receive receive_who_am_i receive_balances receive_query receive_dispatch
  refuses (dispatch sender msgs callback_id) (account, bytes, found, e, (b, encoded)) failed =
      ground arith
  refuses (ibc_query sender msgs callback_id) (rs, answers, (b, encoded)) failed =
      let ran = (run_queries_iff p deps msgs rs).1 answers in ground arith
  refuses who_am_i (account, found, (b, encoded)) failed = ground arith
  refuses balances (account, coins, found, asked, (b, encoded)) failed = ground arith

  suffices :
      (m : PacketMsg)
      → Accepts m
      → (r : IbcReceiveResponse) × ((receive p deps channel m s).0 ≡ ok r)
  suffices m a = elim (Outcome-cases (receive p deps channel m s).0) [
    | inl received ↦ received
    | inr failed ↦ absurd (refuses m a failed)
  ]

-- A packet that the host decodes is received without error exactly if the channel has its account,
-- the chain answers what the packet asks, and the message to the account, if there is one, and the
-- results can be encoded; a packet of queries needs no account.
pub ibc_packet_receive-ok_iff :
    (p : Platform) (deps : Deps) (packet : IbcPacket) (s : State p) (m : PacketMsg)
    → p.packet.from_slice packet.payload ≡ ok m
    → ((r : IbcReceiveResponse) × ((ibc_packet_receive p deps packet s).0 ≡ ok r))
      ↔ Accepts p deps packet.dest_channel s m
unfolding ibc_packet_receive
ibc_packet_receive-ok_iff p deps packet s m e = (
  λ (r, h). needs p deps packet.dest_channel s m {r = r} (ground arith),
  λ a. let (r, h) = suffices p deps packet.dest_channel s m a in (r, ground arith),
)

-- Only a packet with messages for the account makes the host send a message.
pub ibc_packet_receive-quiet :
    (p : Platform) (deps : Deps) (packet : IbcPacket) (s : State p) {r : IbcReceiveResponse}
    → (ibc_packet_receive p deps packet s).0 ≡ ok r
    → ((sender : String) × (msgs : List CosmosMsg) × (callback_id : Option String)
        × (p.packet.from_slice packet.payload ≡ ok (dispatch sender msgs callback_id)))
      ⊎ (r.messages ≡ [])
unfolding ibc_packet_receive receive_who_am_i receive_balances receive_query
ibc_packet_receive-quiet p deps packet s {r} h =
    elim (Outcome-cases (p.packet.from_slice packet.payload)) [
      | inr failed ↦ absurd (ground arith)
      | inl (dispatch sender msgs callback_id, e) ↦ inl (sender, msgs, callback_id, e)
      | inl (ibc_query sender msgs callback_id, e) ↦ inr (ground arith)
      | inl (who_am_i, e) ↦ inr (ground arith)
      | inl (balances, e) ↦ inr (ground arith)
    ]
