-- ===== src/Controller/Ibc/Stable.antt =====
-- ibc.rs of the controller: what an acknowledgement does to the registered accounts.
use cw_ibc_demo.Prelude.{
  String, ◌≡◌, refl, ◌==◌, Option, none, some, Outcome, ok, err, panic, commit, arith, eq_iff, [],
  ◌∷◌, inl, inr, Option-cases, Bool-cases, ◌>>=◌, pure, lift, modify,
}
use cw_ibc_demo.Std.{IbcPacketAckMsg, Env, Response, respond}
use cw_ibc_demo.SimpleIca.Types.{
  PacketMsg, dispatch, ibc_query, who_am_i, balances, StdAck, result, error, BalancesResponse,
  WhoAmIResponse,
}
use cw_ibc_demo.Platform.{Platform}
use cw_ibc_demo.Controller.Msg.{AccountData, ContractError}
use cw_ibc_demo.Controller.State.{State, save_account}
use cw_ibc_demo.Controller.Ibc.{
  set_first_addr, set_balances, update_account, acknowledge_dispatch, acknowledge_query,
  acknowledge_who_am_i, acknowledge_balances, acknowledge, ibc_packet_ack,
}

-- An address that was known is still the same.
abbrev pub KeepsAddr : Option String → Option String → Type 0
KeepsAddr none new = Unit
KeepsAddr (some addr) new = new ≡ some addr

pub KeepsAddr-refl : (o : Option String) → KeepsAddr o o
KeepsAddr-refl none = tt
KeepsAddr-refl (some addr) = refl

-- The account may have been updated, but is the same account: it was not registered, nor
-- forgotten, and a remote address that was known is still the same.
abbrev pub SameAccount : Option AccountData → Option AccountData → Type 0
SameAccount none none = Unit
SameAccount none (some b) = ⊥
SameAccount (some a) none = ⊥
SameAccount (some a) (some b) = KeepsAddr a.remote_addr b.remote_addr

pub SameAccount-refl : (o : Option AccountData) → SameAccount o o
SameAccount-refl none = tt
SameAccount-refl (some a) = KeepsAddr-refl a.remote_addr

set_first_addr-SameAccount :
    (caller account : String) (o : Option AccountData) (b : AccountData)
    → set_first_addr caller account o ≡ ok b
    → SameAccount o (some b)
unfolding set_first_addr
set_first_addr-SameAccount caller account none b h = cc
set_first_addr-SameAccount caller account (some a) b h = elim (Option-cases a.remote_addr) [
  | inl e ↦ rw e tt
  | inr (addr, e) ↦ rw e (ground arith)
]

set_balances-SameAccount :
    (env : Env) (caller : String) (r : BalancesResponse) (o : Option AccountData) (b : AccountData)
    → set_balances env caller r o ≡ ok b
    → SameAccount o (some b)
unfolding set_balances
set_balances-SameAccount env caller r none b h = cc
set_balances-SameAccount env caller r (some a) b h = elim (Option-cases a.remote_addr) [
  | inl e ↦ rw e tt
  | inr (addr, e) ↦ rw e (ground (arith, eq_iff addr r.account))
]

module _ (p : Platform) where
  -- Every channel's account before and after.
  abbrev pub SameAccounts : State p → State p → Type 0
  SameAccounts s t = (k : String) → SameAccount (p.get s.accounts k) (p.get t.accounts k)

  save-SameAccounts :
      (s : State p) (caller : String) (b : AccountData)
      → SameAccount (p.get s.accounts caller) (some b)
      → SameAccounts s (record s { accounts = p.save s.accounts caller b })
  save-SameAccounts s caller b h k = elim (Bool-cases (caller == k)) [
    | inl e ↦ rw (p.get-save s.accounts caller b k, e) (rw (← (eq_iff caller k).0 e) h)
    | inr e ↦ rw (p.get-save s.accounts caller b k, e) (SameAccount-refl _)
  ]

  SameAccounts-refl : (s : State p) → SameAccounts s s
  SameAccounts-refl s k = SameAccount-refl (p.get s.accounts k)

  -- An update that keeps its own account keeps them all.
  update-SameAccounts :
      (s : State p) (caller : String)
      (action : Option AccountData → Outcome ContractError AccountData) (r : Response)
      → ((o : Option AccountData) (b : AccountData) → action o ≡ ok b → SameAccount o (some b))
      → SameAccounts s (commit (update_account p caller action >>= λ _. pure r) s)
  update-SameAccounts s caller action r same = go (action (p.get s.accounts caller)) refl
    where
      go :
          (o : Outcome ContractError AccountData)
          → action (p.get s.accounts caller) ≡ o
          → SameAccounts s
              (commit ((lift o >>= λ b. modify (save_account p caller b)) >>= λ _. pure r) s)
      go (ok b) e = save-SameAccounts s caller b (same _ b e)
      go (err x) e = SameAccounts-refl s
      go (panic x) e = SameAccounts-refl s

  who_am_i-SameAccounts :
      (s : State p) (caller : String) (r : WhoAmIResponse) (res : Response)
      → SameAccounts s
          (commit (update_account p caller (set_first_addr caller r.account) >>= λ _. pure res) s)
  who_am_i-SameAccounts s caller r res =
      update-SameAccounts s caller _ res (set_first_addr-SameAccount caller r.account)

  balances-SameAccounts :
      (s : State p) (env : Env) (caller : String) (r : BalancesResponse) (res : Response)
      → SameAccounts s
          (commit (update_account p caller (set_balances env caller r) >>= λ _. pure res) s)
  balances-SameAccounts s env caller r res =
      update-SameAccounts s caller _ res (set_balances-SameAccount env caller r)

  acknowledge-SameAccounts :
      (env : Env) (caller : String) (res : StdAck) (ack : IbcPacketAckMsg) (m : PacketMsg)
      (s : State p)
      → SameAccounts s (commit (acknowledge p env caller res ack m) s)
  unfolding acknowledge acknowledge_dispatch acknowledge_query acknowledge_who_am_i
      acknowledge_balances
  acknowledge-SameAccounts env caller res ack (dispatch sender msgs none) s k =
      SameAccounts-refl s k
  acknowledge-SameAccounts env caller res ack (dispatch sender msgs (some id)) s k =
      ground (arith, SameAccounts-refl s k)
  acknowledge-SameAccounts env caller res ack (ibc_query sender msgs callback_id) s k =
      ground (arith, SameAccounts-refl s k)
  acknowledge-SameAccounts env caller (error e) ack who_am_i s k = SameAccounts-refl s k
  acknowledge-SameAccounts env caller (result res) ack who_am_i s k = grind (
    arith,
    SameAccounts-refl,
    λ (r : WhoAmIResponse).
        who_am_i-SameAccounts s caller r (respond [] (("action", "acknowledge_who_am_i") ∷ [])) k,
  )
  acknowledge-SameAccounts env caller (error e) ack balances s k = SameAccounts-refl s k
  acknowledge-SameAccounts env caller (result res) ack balances s k = grind (
    arith,
    SameAccounts-refl,
    λ (r : BalancesResponse).
        balances-SameAccounts s env caller r (respond [] (("action", "acknowledge_balances") ∷ []))
          k,
  )

  -- No acknowledgement, whatever its content, registers or forgets a channel, or changes a remote
  -- address that is known: each channel's account before and after are the same account.
  pub ibc_packet_ack-SameAccounts :
      (env : Env) (m : IbcPacketAckMsg) (s : State p)
      → SameAccounts s (commit (ibc_packet_ack p env m) s)
  unfolding ibc_packet_ack
  ibc_packet_ack-SameAccounts env m s k = grind (arith, SameAccounts-refl, acknowledge-SameAccounts)
