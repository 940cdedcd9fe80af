-- ===== src/Host/Contract/Handshake.antt =====
-- The host's handshake: which channels are accepted, and how one gets its account.
use cw_ibc_demo.Prelude.{
  String, ◌≡◌, ◌↔◌, ◌⊎◌, inl, inr, ◌==◌, if◌then◌else◌, none, some, [], ◌∷◌, ok, false, arith,
  commit, eq_iff, Option-cases, Outcome-cases,
}
use cw_ibc_demo.Std.{Addr, IbcChannelMsg, Env, Reply, Response}
use cw_ibc_demo.SimpleIca.Types.{app_order, ibc_app_version}
use cw_ibc_demo.SimpleIca.Checks.{check_order-ok}
use cw_ibc_demo.Platform.{Platform, Deps}
use cw_ibc_demo.Host.State.{State}
use cw_ibc_demo.Host.Contract.{
  ibc_channel_open, ibc_channel_connect, reply_init_callback, reply, init_callback_id,
}

-- The host accepts a channel exactly if it is unordered and the version of the other side, where
-- it is known, is `simple-ica-v2`; it answers with that version. What the channel itself asks for
-- is not looked at.
pub ibc_channel_open-some_iff :
    (m : IbcChannelMsg)
    → (ibc_channel_open m ≡ ok (some (record { version = ibc_app_version }))) ↔ (
        (m.channel.order ≡ app_order)
        × ((m.counterparty_version ≡ none) ⊎ (m.counterparty_version ≡ some ibc_app_version)))
unfolding ibc_channel_open
ibc_channel_open-some_iff m = elim (Option-cases m.counterparty_version) [
  | inl e ↦ ground (arith, e, check_order-ok m.channel.order)
  | inr (v, e) ↦ ground (arith, e, eq_iff v ibc_app_version, check_order-ok m.channel.order)
]

module _ (p : Platform) (deps : Deps) (s : State p) where
  -- After a channel is connected, the reply with the address of its new account registers that
  -- account for that channel, if it has none, and for no other, and nothing is pending any more.
  reply-connect :
      (env : Env) (m : IbcChannelMsg) (r : Reply) (raw : String) (addr : Addr) {res : Response}
      → let t = commit (ibc_channel_connect p env m) s in
        (ibc_channel_connect p env m s).0 ≡ ok res
        → r.id ≡ init_callback_id
        → p.parse_reply_instantiate_data r ≡ ok raw
        → deps.addr_validate raw ≡ ok addr
        → p.get s.accounts m.channel.channel_id ≡ none
        → (p.item_get (commit (reply p deps r) t).pending ≡ none)
          × ((k : String)
              → p.get (commit (reply p deps r) t).accounts k
                ≡ (if m.channel.channel_id == k then some addr else p.get s.accounts k))
  unfolding ibc_channel_connect reply reply_init_callback
  reply-connect env m r raw addr h id parsed valid absent =
      elim (Outcome-cases
        (p.cw1_init.to_binary (record { admins = env.contract ∷ []; mutable = false }))) [
          | inr failed ↦ absurd (ground (arith, h))
          | inl (bytes, e) ↦ elim (Option-cases (p.item_get s.config)) [
            | inl missing ↦ absurd (ground (arith, h))
            | inr (cfg, found) ↦ (
              ground (
                arith,
                p.item_get-save s.pending m.channel.channel_id,
                p.item_get-remove (p.item_save s.pending m.channel.channel_id),
              ),
              λ k. ground (
                arith,
                p.item_get-save s.pending m.channel.channel_id,
                p.get-save s.accounts m.channel.channel_id addr k,
              ),
            )
          ]
        ]
