-- ===== src/Controller/Ibc/Updates.antt =====
-- ibc.rs of the controller: the answers to `WhoAmI` and `Balances`.
use cw_ibc_demo.Prelude.{
  String, ◌≡◌, ◌↔◌, ◌⊎◌, Option-cases, inl, inr, ◌==◌, if◌then◌else◌, none, some, [], ◌∷◌, ok,
  arith, commit, eq_iff,
}
use cw_ibc_demo.Std.{Binary, Env, IbcPacketAckMsg, respond}
use cw_ibc_demo.SimpleIca.Types.{BalancesResponse, WhoAmIResponse, result, error}
use cw_ibc_demo.Platform.{Platform}
use cw_ibc_demo.Controller.Msg.{AccountData}
use cw_ibc_demo.Controller.State.{State}
use cw_ibc_demo.Controller.Ibc.{
  set_first_addr, set_balances, acknowledge_dispatch, acknowledge_query, acknowledge_who_am_i,
  acknowledge_balances, ibc_packet_ack,
}

-- The account fits an answer from `addr`: it has no remote address yet, or that one.
abbrev pub Fits : String → AccountData → Type 0
Fits addr a = (a.remote_addr ≡ none) ⊎ (a.remote_addr ≡ some addr)

module _ (p : Platform) (env : Env) (caller : String) (s : State p) where
  -- An answer with balances is accepted exactly if the channel is registered and its account has
  -- no remote address yet or the one of the answer.
  pub acknowledge_balances-ok_iff :
      (res : Binary) (r : BalancesResponse)
      → p.balance.from_slice res ≡ ok r
      → ((acknowledge_balances p env caller (result res) s).0
          ≡ ok (respond [] (("action", "acknowledge_balances") ∷ [])))
        ↔ ((a : AccountData) × (p.get s.accounts caller ≡ some a) × Fits r.account a)
  unfolding acknowledge_balances set_balances
  acknowledge_balances-ok_iff res r e = elim (Option-cases (p.get s.accounts caller)) [
    | inl absent ↦ ground arith
    | inr (a, found) ↦ (
      λ h. (a, found, Fits_of_accepted a h found),
      λ (b, h, f). ground (arith, eq_iff r.account r.account),
    )
  ]
    where
      Fits_of_accepted :
          (a : AccountData)
          → (acknowledge_balances p env caller (result res) s).0
            ≡ ok (respond [] (("action", "acknowledge_balances") ∷ []))
          → p.get s.accounts caller ≡ some a
          → Fits r.account a
      Fits_of_accepted a h found = elim (Option-cases a.remote_addr) [
        | inl unknown ↦ inl unknown
        | inr (old, known) ↦ inr (ground (arith, eq_iff old r.account))
      ]

  -- An accepted answer with balances sets the channel's account to the time of the block, the
  -- address and the balances of the answer, and leaves every other account.
  pub acknowledge_balances-stores :
      (res : Binary) (r : BalancesResponse) (a : AccountData)
      → p.balance.from_slice res ≡ ok r
      → p.get s.accounts caller ≡ some a
      → Fits r.account a
      → (k : String)
      → p.get (commit (acknowledge_balances p env caller (result res)) s).accounts k ≡ (
          if caller == k
          then some (record {
            last_update_time = env.time;
            remote_addr = some r.account;
            remote_balance = r.balances;
          })
          else p.get s.accounts k)
  unfolding acknowledge_balances set_balances
  acknowledge_balances-stores res r a e h (inl f) k = ground (
    arith,
    p.get-save s.accounts caller
        (record {
          last_update_time = env.time;
          remote_addr = some r.account;
          remote_balance = r.balances;
        })
        k,
  )
  acknowledge_balances-stores res r a e h (inr f) k = ground (
    arith,
    eq_iff r.account r.account,
    p.get-save s.accounts caller
        (record {
          last_update_time = env.time;
          remote_addr = some r.account;
          remote_balance = r.balances;
        })
        k,
  )

  -- An answer to `WhoAmI` for a registered channel is accepted, sets the remote address if there
  -- is none and keeps the one there is, and leaves every other account, time and balance.
  pub acknowledge_who_am_i-stores :
      (res : Binary) (r : WhoAmIResponse) (a : AccountData)
      → p.who.from_slice res ≡ ok r
      → p.get s.accounts caller ≡ some a
      → ((acknowledge_who_am_i p caller (result res) s).0
          ≡ ok (respond [] (("action", "acknowledge_who_am_i") ∷ [])))
        × ((k : String)
            → p.get (commit (acknowledge_who_am_i p caller (result res)) s).accounts k ≡ (
                if caller == k
                then some (record a {
                  remote_addr = elim a.remote_addr [ none ↦ some r.account | some old ↦ some old ];
                })
                else p.get s.accounts k))
  unfolding acknowledge_who_am_i set_first_addr
  acknowledge_who_am_i-stores res r a e h = (
    ground arith,
    λ k. ground (
      arith,
      p.get-save s.accounts caller
          (record a {
            remote_addr = elim a.remote_addr [ none ↦ some r.account | some old ↦ some old ];
          })
          k,
    ),
  )

-- An acknowledgement that is an error leaves the accounts and the admin as they were, whatever
-- packet it answers.
pub ibc_packet_ack-error :
    (p : Platform) (env : Env) (m : IbcPacketAckMsg) (s : State p) (e : String)
    → p.ack.from_slice m.acknowledgement ≡ ok (error e)
    → let t = commit (ibc_packet_ack p env m) s in (t.accounts ≡ s.accounts) × (t.config ≡ s.config)
unfolding ibc_packet_ack acknowledge_dispatch acknowledge_query acknowledge_who_am_i
    acknowledge_balances
ibc_packet_ack-error p env m s e h = ground arith
