-- ===== src/Host/Spec/Refines.antt =====
-- The code of the host does what the registry may do.
use mathlib.Core.Path.{fun_ext}
use cw_ibc_demo.Prelude.{
  String, ◌≡◌, ◌==ℕ◌, if◌then◌else◌, ℕ, false, [], ◌∷◌, ◌++◌, Entry, commit, arith, inl, inr,
  Outcome-cases, Option-cases, Bool-cases,
}
use cw_ibc_demo.Std.{Env, IbcChannelMsg, IbcPacket, Reply, execute}
use cw_ibc_demo.SimpleIca.Types.{PacketMsg, dispatch, ibc_query, who_am_i, balances}
use cw_ibc_demo.SimpleIca.Ack as ack
use cw_ibc_demo.Platform.{Platform, Deps}
use cw_ibc_demo.Host.Msg.{ContractError}
use cw_ibc_demo.Host.State.{
  State, save_pending, remove_pending, save_account, remove_account, save_results,
}
use cw_ibc_demo.Host.Contract.{
  ibc_channel_connect, ibc_channel_close, reply, reply_dispatch_callback, reply_init_callback,
  rescue_messages, reply_data, receive_dispatch_id, init_callback_id,
}
use cw_ibc_demo.Host.Packet.{
  ibc_packet_receive, receive, receive_dispatch, receive_who_am_i, receive_balances, ibc_packet_ack,
  ibc_packet_timeout,
}
use cw_ibc_demo.Host.Runs.{Step, connects, closes, replied, receives, acknowledges, times_out}
use cw_ibc_demo.Host.Spec.{
  Registry, Occasion, connected, closed, received, created, dispatched, unrelated, Does, nothing,
  awaits, registers, gives_up, starts, adds,
}

-- By the id of the reply.
abbrev pub reply_occasion : ℕ → Occasion
reply_occasion id =
    if id ==ℕ receive_dispatch_id
    then dispatched
    else if id ==ℕ init_callback_id
    then created
    else unrelated

module _ (p : Platform) where
  -- What is stored, by key.
  abbrev pub view : State p → Registry
  view s = record {
    pending = p.item_get s.pending;
    accounts = p.get s.accounts;
    results = p.item_get s.results;
  }

  -- The call wrote nothing, or left the state `u`.
  stays :
      {E A : Type 0} (m : Entry (State p) E A) (s : State p)
      → commit m s ≡ s
      → {o : Occasion} → Does (view s) o (view (commit m s))
  stays m s e = rw e nothing

  becomes :
      {E A : Type 0} (m : Entry (State p) E A) (s u : State p)
      → commit m s ≡ u
      → {o : Occasion} → Does (view s) o (view u)
      → Does (view s) o (view (commit m s))
  becomes m s u e h = rw e h

  connect-Does :
      (e : Env) (m : IbcChannelMsg) (s : State p)
      → Does (view s) (connected m.channel.channel_id) (view (commit (ibc_channel_connect p e m) s))
  unfolding ibc_channel_connect
  connect-Does e m s = elim (Option-cases (p.item_get s.config)) [
    | inl missing ↦ stays (ibc_channel_connect p e m) s (ground arith)
    | inr (cfg, found) ↦
        elim (Outcome-cases
          (p.cw1_init.to_binary (record { admins = e.contract ∷ []; mutable = false }))) [
            | inr failed ↦ stays (ibc_channel_connect p e m) s (ground arith)
            | inl (bytes, encoded) ↦
                becomes (ibc_channel_connect p e m) s (save_pending p m.channel.channel_id s)
                  (ground arith)
                  (rw (p.item_get-save s.pending m.channel.channel_id)
                    (awaits m.channel.channel_id))
          ]
  ]

  close-Does :
      (d : Deps) (e : Env) (m : IbcChannelMsg) (s : State p)
      → Does (view s) (closed m.channel.channel_id) (view (commit (ibc_channel_close p d e m) s))
  unfolding ibc_channel_close
  close-Does d e m s = elim (Option-cases (p.get s.accounts m.channel.channel_id)) [
    | inl missing ↦ stays (ibc_channel_close p d e m) s (ground arith)
    | inr (account, found) ↦ elim (Outcome-cases (d.query_all_balances account)) [
      | inr failed ↦ stays (ibc_channel_close p d e m) s (ground arith)
      | inl (coins, asked) ↦ elim (Outcome-cases (rescue_messages p e account coins)) [
        | inr failed ↦ stays (ibc_channel_close p d e m) s (ground arith)
        | inl (ms, made) ↦
            becomes (ibc_channel_close p d e m) s (remove_account p m.channel.channel_id s)
              (ground arith)
              (rw (fun_ext (λ j. p.get-remove s.accounts m.channel.channel_id j))
                (gives_up m.channel.channel_id account found))
      ]
    ]
  ]

  dispatch_reply-Does :
      (r : Reply) (s : State p)
      → Does (view s) dispatched (view (commit (reply_dispatch_callback p r) s))
  unfolding reply_dispatch_callback
  dispatch_reply-Does r s = elim (Option-cases (p.item_get s.results)) [
    | inl missing ↦ stays (reply_dispatch_callback p r) s (ground arith)
    | inr (old, found) ↦ elim (Outcome-cases (reply_data r.result)) [
      | inr failed ↦ stays (reply_dispatch_callback p r) s (ground arith)
      | inl (b, read) ↦
          elim (Outcome-cases
            (ack.success p {E = ContractError} p.dispatched (record { results = old ++ b ∷ [] }))) [
              | inr failed ↦ stays (reply_dispatch_callback p r) s (ground arith)
              | inl (payload, encoded) ↦
                  becomes (reply_dispatch_callback p r) s (save_results p (old ++ b ∷ []) s)
                    (ground arith)
                    (rw (p.item_get-save s.results (old ++ b ∷ [])) (adds old b found))
            ]
    ]
  ]

  init_reply-Does :
      (d : Deps) (r : Reply) (s : State p)
      → Does (view s) created (view (commit (reply_init_callback p d r) s))
  unfolding reply_init_callback
  init_reply-Does d r s = elim (Option-cases (p.item_get s.pending)) [
    | inl missing ↦ stays (reply_init_callback p d r) s (ground arith)
    | inr (k, waits) ↦ elim (Outcome-cases (p.parse_reply_instantiate_data r)) [
      | inr failed ↦ stays (reply_init_callback p d r) s (ground arith)
      | inl (raw, parsed) ↦ elim (Outcome-cases (d.addr_validate raw)) [
        | inr failed ↦ stays (reply_init_callback p d r) s (ground arith)
        | inl (a, valid) ↦ elim (Option-cases (p.get s.accounts k)) [
          | inr (old, known) ↦ stays (reply_init_callback p d r) s (ground arith)
          | inl absent ↦
              becomes (reply_init_callback p d r) s (save_account p k a (remove_pending p s))
                (ground arith)
                (rw (p.item_get-remove s.pending, fun_ext (λ j. p.get-save s.accounts k a j))
                  (registers k a waits absent))
        ]
      ]
    ]
  ]

  reply-Does :
      (d : Deps) (r : Reply) (s : State p)
      → Does (view s) (reply_occasion r.id) (view (commit (reply p d r) s))
  unfolding reply
  reply-Does d r s = elim (Bool-cases (r.id ==ℕ receive_dispatch_id)) [
    | inl yes_dispatch ↦ rw yes_dispatch (dispatch_reply-Does r s)
    | inr other ↦ rw other (elim (Bool-cases (r.id ==ℕ init_callback_id)) [
      | inl yes_init ↦ rw yes_init (init_reply-Does d r s)
      | inr unknown ↦ rw unknown nothing
    ])
  ]

  receive-Does :
      (d : Deps) (k : String) (m : PacketMsg) (s : State p)
      → Does (view s) (received k) (view (commit (receive p d k m) s))
  unfolding receive receive_dispatch receive_who_am_i receive_balances
  receive-Does d k (dispatch sender msgs callback_id) s = elim (Option-cases (p.get s.accounts k)) [
    | inl missing ↦ stays (receive p d k (dispatch sender msgs callback_id)) s (ground arith)
    | inr (a, found) ↦
        elim (Outcome-cases
          (ack.success p {E = ContractError} p.dispatched (record { results = [] }))) [
            | inr failed ↦ stays (receive p d k (dispatch sender msgs callback_id)) s (ground arith)
            | inl (b, encoded) ↦ elim (Outcome-cases (p.cw1_exec.to_binary (execute msgs))) [
              | inr failed ↦
                  stays (receive p d k (dispatch sender msgs callback_id)) s (ground arith)
              | inl (bytes, made) ↦
                  becomes (receive p d k (dispatch sender msgs callback_id)) s (save_results p [] s)
                    (ground arith) (rw (p.item_get-save s.results []) (starts k a found))
            ]
          ]
  ]
  receive-Does d k (ibc_query sender msgs callback_id) s =
      stays (receive p d k (ibc_query sender msgs callback_id)) s (ground arith)
  receive-Does d k who_am_i s = stays (receive p d k who_am_i) s (ground arith)
  receive-Does d k balances s = stays (receive p d k balances) s (ground arith)

  packet-Does :
      (d : Deps) (m : IbcPacket) (s : State p)
      → Does (view s) (received m.dest_channel) (view (commit (ibc_packet_receive p d m) s))
  unfolding ibc_packet_receive
  packet-Does d m s = elim (Outcome-cases (p.packet.from_slice m.payload)) [
    | inr failed ↦ stays (ibc_packet_receive p d m) s (ground arith)
    | inl (msg, decoded) ↦ rw decoded (receive-Does d m.dest_channel msg s)
  ]

  abbrev pub occasion_of : {s t : State p} → Step p s t → Occasion
  occasion_of (connects e m) = connected m.channel.channel_id
  occasion_of (closes d e m) = closed m.channel.channel_id
  occasion_of (replied d r) = reply_occasion r.id
  occasion_of (receives d m) = received m.dest_channel
  occasion_of (acknowledges m) = unrelated
  occasion_of (times_out m) = unrelated

  -- Every step of the host does at most one thing that the registry allows on that occasion: the
  -- opening of a channel makes it the one that waits for its account; the reply to an
  -- instantiation registers the account of the channel that waits, if that has none; the close of
  -- a channel gives up its account; a packet on a channel with an account may start a dispatch
  -- without results, and the reply to one adds a result behind those before; any other step, and a
  -- call that fails, changes nothing.
  pub Step-Does : {s t : State p} (st : Step p s t) → Does (view s) (occasion_of st) (view t)
  unfolding ibc_packet_ack ibc_packet_timeout
  Step-Does {s} (connects e m) = connect-Does e m s
  Step-Does {s} (closes d e m) = close-Does d e m s
  Step-Does {s} (replied d r) = reply-Does d r s
  Step-Does {s} (receives d m) = packet-Does d m s
  Step-Does (acknowledges m) = nothing
  Step-Does (times_out m) = nothing
