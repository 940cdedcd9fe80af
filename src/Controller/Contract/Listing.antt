-- ===== src/Controller/Contract/Listing.antt =====
-- contract.rs of the controller: the list of the accounts.
use mathlib.Core.Option
use cw_ibc_demo.Prelude.{
  String, ◌≡◌, refl, ◌==◌, if◌then◌else◌, Option, none, some, List, [], ◌∷◌, map, ok, arith, lookup,
  eq_iff,
}
use cw_ibc_demo.Platform.{Platform}
use cw_ibc_demo.Controller.Msg.{AccountData, AccountInfo, convert}
use cw_ibc_demo.Controller.State.{State}
use cw_ibc_demo.Controller.Contract.{query_list_accounts}

-- The entry of a channel in the list.
pub find_info : String → List AccountInfo → Option AccountInfo
find_info k [] = none
find_info k (i ∷ is) = if i.channel_id == k then some i else find_info k is

find_info-map :
    (k : String) (l : List (String × AccountData))
    → find_info k (map (λ (j, a). convert j a) l) ≡ Option.map (convert k) (lookup k l)
unfolding find_info lookup
find_info-map k [] = refl
find_info-map k ((j, a) ∷ l) = ground (arith, find_info-map k l, eq_iff j k)

-- The list of accounts has an entry for a channel exactly if the channel is registered, and the
-- entry shows the time, the address and the balances that are stored for it.
pub query_list_accounts_lem :
    (p : Platform) (s : State p)
    → (l : List AccountInfo) × (query_list_accounts p s ≡ ok (record { accounts = l }))
      × ((k : String)
          → find_info k l
            ≡ Option.map
                (λ a. record {
                  channel_id = k;
                  last_update_time = a.last_update_time;
                  remote_addr = a.remote_addr;
                  remote_balance = a.remote_balance;
                })
                (p.get s.accounts k))
unfolding query_list_accounts
query_list_accounts_lem p s =
    (_, refl, λ k. rw (← p.lookup-range s.accounts k) (find_info-map k (p.range s.accounts)))
