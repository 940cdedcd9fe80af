-- ===== src/Protocol/Runtime/Opening.antt =====
-- The opening of a channel of the host, as the chain runs it: `ibc_channel_connect`, the
-- instantiation of the account that it asks for, and the reply to that, in one transaction.
use Prim.Native.String.{◌++◌ as ◌++ₛ◌}
use cw_ibc_demo.Prelude.{
  String, ◌≡◌, refl, ap, ◌∙◌, ◌==◌, if◌then◌else◌, Option, none, some, false, [], ◌∷◌, Entry, ◌>>=◌,
  ok, map_err, arith, inl, inr, Outcome-cases, Option-cases, bind-eq_ok, bind-of_ok, commit,
  commit-of_ok,
}
use cw_ibc_demo.Std.{
  Addr, Binary, Env, IbcChannelMsg, SubMsg, reply_on_success, wasm_instantiate, Reply, success,
  Response,
}
use cw_ibc_demo.Platform.{Platform, Deps}
use cw_ibc_demo.Host.Msg.{Config, ContractError, std}
use cw_ibc_demo.Host.State.{State, save_pending, remove_pending, save_account}
use cw_ibc_demo.Host.Contract.{ibc_channel_connect, reply, reply_init_callback, init_callback_id}
use cw_ibc_demo.Protocol.Runtime.{CallError, Chain, contract, settle, contract-eq_ok, settle-reply}

-- The message that creates the account of a channel.
abbrev pub creation : Config → String → Binary → SubMsg
creation cfg channel_id init =
    reply_on_success (wasm_instantiate none cfg.cw1_code_id init [] ("ibc-reflect-" ++ₛ channel_id))
      init_callback_id

module _ (p : Platform) where
  abbrev connecting : Env → IbcChannelMsg → Entry (State p) ContractError Response
  connecting e m s = (map_err std (ibc_channel_connect p e m s).0, (ibc_channel_connect p e m s).1)

  -- A basic response sets no acknowledgement: the data is of no use.
  unfoldable pub open_channel :
      Deps → Chain → Env → IbcChannelMsg → Entry (State p) CallError Binary
  unfolding settle
  open_channel d w e m = do r ← contract p (connecting e m); settle p d w r.messages []

  connecting-creates :
      (e : Env) (m : IbcChannelMsg) (s : State p) {r : Response}
      → (connecting e m s).0 ≡ ok r
      → (cfg : Config) × (init : Binary) × (p.item_get s.config ≡ some cfg)
        × (p.cw1_init.from_slice init ≡ ok (record { admins = e.contract ∷ []; mutable = false }))
        × (r.messages ≡ creation cfg m.channel.channel_id init ∷ [])
        × ((connecting e m s).1 ≡ save_pending p m.channel.channel_id s)
  unfolding ibc_channel_connect
  connecting-creates e m s h = elim (Option-cases (p.item_get s.config)) [
    | inl missing ↦ absurd (ground arith)
    | inr (cfg, found) ↦
        elim (Outcome-cases
          (p.cw1_init.to_binary (record { admins = e.contract ∷ []; mutable = false }))) [
            | inr failed ↦ absurd (ground arith)
            | inl (init, made) ↦
                (cfg, init, found, p.cw1_init.round_trip _ init made, ground arith, ground arith)
          ]
  ]

  reply-registers :
      (d : Deps) (r : Reply) (s : State p) (k : String) {x : Response}
      → r.id ≡ init_callback_id
      → p.item_get s.pending ≡ some k
      → (reply p d r s).0 ≡ ok x
      → (raw : String) × (account : Addr) × (p.parse_reply_instantiate_data r ≡ ok raw)
        × (d.addr_validate raw ≡ ok account)
        × (p.get s.accounts k ≡ none)
        × ((reply p d r s).1 ≡ save_account p k account (remove_pending p s))
  unfolding reply reply_init_callback
  reply-registers d r s k same waits h = elim (Outcome-cases (p.parse_reply_instantiate_data r)) [
    | inr failed ↦ absurd (ground arith)
    | inl (raw, parsed) ↦ elim (Outcome-cases (d.addr_validate raw)) [
      | inr failed ↦ absurd (ground arith)
      | inl (account, valid) ↦ elim (Option-cases (p.get s.accounts k)) [
        | inr (old, known) ↦ absurd (ground arith)
        | inl absent ↦ (raw, account, parsed, valid, absent, ground arith)
      ]
    ]
  ]

  -- A channel that is opened by a transaction that succeeds had no account. The chain created one
  -- with the stored code, whose only admin is this contract and for good; its address, as the
  -- chain returned it, is the account of the channel from then on. No other account changes, and
  -- no channel waits for its account afterwards.
  pub open_channel-registers :
      (d : Deps) (w : Chain) (e : Env) (m : IbcChannelMsg) (s : State p) (ack : Binary)
      → let k = m.channel.channel_id in
        let t = commit (open_channel d w e m) s in
        (open_channel d w e m s).0 ≡ ok ack
        → (cfg : Config) × (init : Binary) × (out : Option Binary) × (raw : String)
          × (account : Addr) × (p.item_get s.config ≡ some cfg)
          × (p.cw1_init.from_slice init ≡ ok (record { admins = e.contract ∷ []; mutable = false }))
          × (w (creation cfg k init) ≡ ok out)
          × (p.parse_reply_instantiate_data (record { id = init_callback_id; result = success out })
              ≡ ok raw)
          × (d.addr_validate raw ≡ ok account)
          × (p.get s.accounts k ≡ none)
          × (p.item_get t.pending ≡ none)
          × ((j : String)
              → p.get t.accounts j ≡ (if k == j then some account else p.get s.accounts j))
  unfolding open_channel
  open_channel-registers d w e m s ack h =
      let k = m.channel.channel_id in
      let (r, connected, settled) = bind-eq_ok (contract p (connecting e m)) _ s h in
      let got = contract-eq_ok p (connecting e m) s connected in
      let (cfg, init, found, made, messages, waits) = connecting-creates e m s {r = r} got in
      let between : State p = save_pending p k s in
      let creating = settle p d w (creation cfg k init ∷ []) [] in
      let settled' : (creating between).0 ≡ ok ack = rw (messages, waits) at settled in
      let (out, x, ran, answered, set, left) =
        settle-reply p d w (wasm_instantiate none cfg.cw1_code_id init [] ("ibc-reflect-" ++ₛ k))
          init_callback_id between [] ack settled' in
      let (raw, account, parsed, valid, absent, after) =
        reply-registers d (record { id = init_callback_id; result = success out }) between k {x = x}
          refl (p.item_get-save s.pending k) answered in
      let whole : (open_channel d w e m s).1 ≡ (creating between).1 =
        ap (λ y. y.1)
          (bind-of_ok (contract p (connecting e m)) (λ r. settle p d w r.messages []) s connected)
        ∙ rw (messages, waits) refl in
      let final : commit (open_channel d w e m) s
          ≡ save_account p k account (remove_pending p between) =
        commit-of_ok (open_channel d w e m) s h ∙ whole ∙ left ∙ after in
      (
        cfg,
        init,
        out,
        raw,
        account,
        found,
        made,
        ran,
        parsed,
        valid,
        absent,
        rw final (p.item_get-remove (p.item_save s.pending k)),
        λ j. rw final (p.get-save s.accounts k account j),
      )
