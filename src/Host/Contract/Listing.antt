-- ===== src/Host/Contract/Listing.antt =====
-- The queries of the host.
use cw_ibc_demo.Prelude.{
  String, ◌≡◌, refl, ◌==◌, if◌then◌else◌, Option, none, some, List, [], ◌∷◌, map, ok, err, arith,
  lookup, eq_iff,
}
use cw_ibc_demo.Std.{Addr, not_found}
use cw_ibc_demo.Platform.{Platform, StdResult}
use cw_ibc_demo.Host.Msg.{AccountInfo, AccountResponse}
use cw_ibc_demo.Host.State.{State}
use cw_ibc_demo.Host.Contract.{query_list_accounts, query_account}

-- The account of a channel in the list.
pub find_info : String → List AccountInfo → Option Addr
find_info k [] = none
find_info k (i ∷ is) = if i.channel_id == k then some i.account else find_info k is

find_info-map :
    (k : String) (l : List (String × Addr))
    → find_info k (map (λ (j, a). record { account = a; channel_id = j }) l) ≡ lookup k l
unfolding find_info lookup
find_info-map k [] = refl
find_info-map k ((j, a) ∷ l) = ground (arith, find_info-map k l, eq_iff j k)

-- What the query of one channel answers, by the list.
abbrev pub answer : Option Addr → StdResult AccountResponse
answer none = err not_found
answer (some a) = ok (record { account = some a })

-- The list of accounts and the query of one channel agree: a channel has an entry exactly if it is
-- registered, and the query of a channel that is not in the list is an error, not an answer with
-- no account.
pub query_account-list :
    (p : Platform) (s : State p)
    → (l : List AccountInfo) × (query_list_accounts p s ≡ ok (record { accounts = l }))
      × ((k : String) → query_account p s k ≡ answer (find_info k l))
unfolding query_list_accounts query_account
query_account-list p s = (
  _,
  refl,
  λ k. rw (find_info-map k (p.range s.accounts)) (ground (arith, p.lookup-range s.accounts k)),
)
