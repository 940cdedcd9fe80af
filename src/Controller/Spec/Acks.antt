-- ===== src/Controller/Spec/Acks.antt =====
-- What the acknowledgements may do to the ledger.
use mathlib.Core.Path.{fun_ext}
use cw_ibc_demo.Prelude.{
  String, ◌≡◌, ap, ◌==◌, Option, none, some, commit, arith, inl, inr, Outcome-cases, Option-cases,
  Bool-cases, eq_iff,
}
use cw_ibc_demo.Std.{Env, IbcPacketAckMsg}
use cw_ibc_demo.SimpleIca.Types.{
  PacketMsg, dispatch, ibc_query, who_am_i, balances, StdAck, result, error, BalancesResponse,
}
use cw_ibc_demo.Platform.{Platform}
use cw_ibc_demo.Controller.Msg.{AccountData}
use cw_ibc_demo.Controller.State.{State, save_account, save_query}
use cw_ibc_demo.Controller.Ibc.{
  ibc_packet_ack, acknowledge, acknowledge_dispatch, acknowledge_query, acknowledge_who_am_i,
  acknowledge_balances, set_first_addr, set_balances, query_callback,
}
use cw_ibc_demo.Controller.Ibc.Updates.{Fits}
use cw_ibc_demo.Controller.Spec.{Does, nothing, answered, learns, updates, keeps}
use cw_ibc_demo.Controller.Spec.View.{view, stays, becomes}

-- The account after an answer.
abbrev updated : Env → BalancesResponse → AccountData
updated e r = record {
  last_update_time = e.time;
  remote_addr = some r.account;
  remote_balance = r.balances;
}

module _ (p : Platform) where
  who-Does :
      (k : String) (res : StdAck) (s : State p)
      → Does (view p s) (answered k) (view p (commit (acknowledge_who_am_i p k res) s))
  unfolding acknowledge_who_am_i set_first_addr
  who-Does k (error e) s = nothing
  who-Does k (result res) s = elim (Outcome-cases (p.who.from_slice res)) [
    | inr failed ↦ stays p (acknowledge_who_am_i p k (result res)) s (ground arith)
    | inl (r, read) ↦ elim (Option-cases (p.get s.accounts k)) [
      | inl absent ↦ stays p (acknowledge_who_am_i p k (result res)) s (ground arith)
      | inr (a, found) ↦ elim (Option-cases a.remote_addr) [
        | inl unknown ↦
            becomes p (acknowledge_who_am_i p k (result res)) s
              (save_account p k (record a { remote_addr = some r.account }) s) (ground arith)
              (rw
                (fun_ext
                  (λ j. p.get-save s.accounts k (record a { remote_addr = some r.account }) j))
                (learns k r.account a found unknown))
        | inr (old, known) ↦
            becomes p (acknowledge_who_am_i p k (result res)) s (save_account p k a s)
              (ground arith) (rw (unchanged a found) nothing)
      ]
    ]
  ]
    where
      unchanged :
          (a : AccountData)
          → p.get s.accounts k ≡ some a
          → p.get (p.save s.accounts k a) ≡ p.get s.accounts
      unchanged a found = fun_ext (λ j.
          ground
            (arith, p.get-save s.accounts k a j, eq_iff k j, ap (p.get s.accounts) {x = k} {y = j}))

  balances-Does :
      (e : Env) (k : String) (res : StdAck) (s : State p)
      → Does (view p s) (answered k) (view p (commit (acknowledge_balances p e k res) s))
  unfolding acknowledge_balances set_balances
  balances-Does e k (error x) s = nothing
  balances-Does e k (result res) s = elim (Outcome-cases (p.balance.from_slice res)) [
    | inr failed ↦ stays p (acknowledge_balances p e k (result res)) s (ground arith)
    | inl (r, read) ↦ elim (Option-cases (p.get s.accounts k)) [
      | inl absent ↦ stays p (acknowledge_balances p e k (result res)) s (ground arith)
      | inr (a, found) ↦ elim (Option-cases a.remote_addr) [
        | inl unknown ↦ stored r a found (inl unknown) (ground arith)
        | inr (old, known) ↦ elim (Bool-cases (old == r.account)) [
          | inr other ↦ stays p (acknowledge_balances p e k (result res)) s (ground arith)
          | inl same ↦ stored r a found (inr (ground (arith, eq_iff old r.account))) (ground arith)
        ]
      ]
    ]
  ]
    where
      stored :
          (r : BalancesResponse) (a : AccountData)
          → p.get s.accounts k ≡ some a
          → Fits r.account a
          → commit (acknowledge_balances p e k (result res)) s ≡ save_account p k (updated e r) s
          → Does
              (view p s)
              (answered k)
              (view p (commit (acknowledge_balances p e k (result res)) s))
      stored r a found fits eq =
          becomes p (acknowledge_balances p e k (result res)) s (save_account p k (updated e r) s)
            eq
            (rw (fun_ext (λ j. p.get-save s.accounts k (updated e r) j))
              (updates k r.account a e.time r.balances found fits))

  query-Does :
      (e : Env) (k sender : String) (id : Option String) (m : IbcPacketAckMsg) (s : State p)
      → Does (view p s) (answered k) (view p (commit (acknowledge_query p e k sender id m) s))
  unfolding acknowledge_query
  query-Does e k sender id m s = elim (Outcome-cases (p.ack.from_slice m.acknowledgement)) [
    | inr failed ↦ stays p (acknowledge_query p e k sender id m) s (ground arith)
    | inl (res, read) ↦ elim (Outcome-cases (query_callback p sender res id)) [
      | inr failed ↦ stays p (acknowledge_query p e k sender id m) s (ground arith)
      | inl (r, called) ↦
          becomes p (acknowledge_query p e k sender id m) s
            (save_query p k (record { last_update_time = e.time; response = res }) s) (ground arith)
            (rw
              (fun_ext (λ j.
                p.get-save s.latest_queries k (record { last_update_time = e.time; response = res })
                  j))
              (keeps k (record { last_update_time = e.time; response = res })))
    ]
  ]

  acknowledge-Does :
      (e : Env) (k : String) (res : StdAck) (m : IbcPacketAckMsg) (packet : PacketMsg) (s : State p)
      → Does (view p s) (answered k) (view p (commit (acknowledge p e k res m packet) s))
  unfolding acknowledge acknowledge_dispatch
  acknowledge-Does e k res m (dispatch sender msgs none) s = nothing
  acknowledge-Does e k res m (dispatch sender msgs (some id)) s =
      stays p (acknowledge_dispatch p sender (some id) m) s (ground arith)
  acknowledge-Does e k res m (ibc_query sender msgs id) s = query-Does e k sender id m s
  acknowledge-Does e k res m who_am_i s = who-Does k res s
  acknowledge-Does e k res m balances s = balances-Does e k res s

  pub ack-Does :
      (e : Env) (m : IbcPacketAckMsg) (s : State p)
      → Does
          (view p s)
          (answered m.original_packet.src_channel)
          (view p (commit (ibc_packet_ack p e m) s))
  unfolding ibc_packet_ack
  ack-Does e m s = elim (Outcome-cases (p.packet.from_slice m.original_packet.payload)) [
    | inr failed ↦ stays p (ibc_packet_ack p e m) s (ground arith)
    | inl (packet, decoded) ↦ elim (Outcome-cases (p.ack.from_slice m.acknowledgement)) [
      | inr failed ↦ stays p (ibc_packet_ack p e m) s (ground arith)
      | inl (res, read) ↦
          rw (decoded, read) (acknowledge-Does e m.original_packet.src_channel res m packet s)
    ]
  ]
