-- ===== src/Host/Contract/Close.antt =====
-- Closing a channel of the host.
use cw_ibc_demo.Prelude.{
  String, ◌≡◌, ◌==◌, if◌then◌else◌, none, some, List, [], ◌∷◌, ok, arith, commit, Outcome-cases,
  Option-cases, inl, inr,
}
use cw_ibc_demo.Std.{
  Addr, Binary, Coin, IbcChannelMsg, Env, Response, SubMsg, fire, wasm_execute, bank_send,
}
use cw_ibc_demo.Platform.{Platform, Deps}
use cw_ibc_demo.Host.Msg.{reflect_msg}
use cw_ibc_demo.Host.State.{State}
use cw_ibc_demo.Host.Contract.{ibc_channel_close, rescue_messages}

module _ (p : Platform) where
  -- What the host sends the account for the sake of `coins`: nothing if there are none, else one
  -- message, the bytes of a `ReflectMsg` (the host's own message type) with one bank transfer of
  -- them all to `target`.
  abbrev pub Asks : Addr → Addr → List Coin → List SubMsg → Type 0
  Asks target account [] messages = messages ≡ []
  Asks target account (c ∷ cs) messages =
      (bytes : Binary) × (messages ≡ fire (wasm_execute account bytes []) ∷ [])
      × (p.reflect.from_slice bytes ≡ ok (reflect_msg (bank_send target (c ∷ cs) ∷ [])))

  rescue_messages-Asks :
      (env : Env) (account : Addr) (coins : List Coin) {ms : List SubMsg}
      → rescue_messages p env account coins ≡ ok ms
      → Asks env.contract account coins ms
  rescue_messages-Asks env account [] h = ground arith
  rescue_messages-Asks env account (c ∷ cs) h =
      elim (Outcome-cases
        (p.reflect.to_binary (reflect_msg (bank_send env.contract (c ∷ cs) ∷ [])))) [
          | inl (bytes, e) ↦ (bytes, ground arith, p.reflect.round_trip _ bytes e)
          | inr failed ↦ absurd (ground arith)
        ]

  -- A channel that is closed without error was registered, and its account alone is forgotten. If
  -- the bank reports no coins for that account nothing is sent; else one message is sent, to that
  -- account: the encoding of the host's own `ReflectMsg` with one bank transfer, of exactly these
  -- coins to this contract. Whether the account can read that message is not said.
  pub ibc_channel_close-Asks :
      (deps : Deps) (env : Env) (m : IbcChannelMsg) (s : State p) {r : Response}
      → (ibc_channel_close p deps env m s).0 ≡ ok r
      → (account : Addr) × (coins : List Coin) × (p.get s.accounts m.channel.channel_id
          ≡ some account)
        × (deps.query_all_balances account ≡ ok coins)
        × Asks env.contract account coins r.messages
        × ((k : String)
            → p.get (commit (ibc_channel_close p deps env m) s).accounts k
              ≡ (if m.channel.channel_id == k then none else p.get s.accounts k))
  unfolding ibc_channel_close
  ibc_channel_close-Asks deps env m s {r} h =
      elim (Option-cases (p.get s.accounts m.channel.channel_id)) [
        | inl missing ↦ absurd (ground arith)
        | inr (account, found) ↦ elim (Outcome-cases (deps.query_all_balances account)) [
          | inr failed ↦ absurd (ground arith)
          | inl (coins, asked) ↦ elim (Outcome-cases (rescue_messages p env account coins)) [
            | inr failed ↦ absurd (ground arith)
            | inl (ms, e) ↦ (
              account,
              coins,
              found,
              asked,
              rescue_messages-Asks env account coins (ground arith),
              λ k. ground (arith, p.get-remove s.accounts m.channel.channel_id k),
            )
          ]
        ]
      ]
