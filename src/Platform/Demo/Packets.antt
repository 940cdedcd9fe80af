-- ===== src/Platform/Demo/Packets.antt =====
-- The packets and acknowledgements of the running platform.
use cw_ibc_demo.Prelude.{
  ℕ, zero, suc, String, refl, ap, Option, none, some, List, [], ◌∷◌, inl, inr, arith,
}
use cw_ibc_demo.Std.{Binary, CosmosMsg, other, QueryRequest}
use cw_ibc_demo.SimpleIca.Types.{
  PacketMsg, dispatch, ibc_query, who_am_i, balances, StdAck, result, error, DispatchResponse,
  IbcQueryResponse, WhoAmIResponse, BalancesResponse,
}
use cw_ibc_demo.Platform.{Codec}
use cw_ibc_demo.Platform.Demo.Texts.{
  name, unname, name-cases, put_coins, get_coins, coins-cases, put_all, get_all, get_all-put_all,
}
use cw_ibc_demo.Platform.Demo.Coding.{Inverse, codec}

-- The texts of messages that are only passed on, and back.
unfoldable pub put_others : List CosmosMsg → Option Binary
put_others [] = some []
put_others (other t ∷ ms) = elim (name t) [
  | none ↦ none
  | some i ↦ elim (put_others ms) [ none ↦ none | some b ↦ some (i ∷ b) ]
]
put_others (_ ∷ ms) = none

unfoldable pub get_others : Binary → Option (List CosmosMsg)
get_others [] = some []
get_others (i ∷ b) = elim (unname i) [
  | none ↦ none
  | some t ↦ elim (get_others b) [ none ↦ none | some ms ↦ some (other t ∷ ms) ]
]

pub others-cases : (ms : List CosmosMsg) → Inverse put_others get_others ms
unfolding put_others get_others
others-cases [] = inr ([], refl, refl)
others-cases (other t ∷ ms) = elim (name-cases t) [
  | inl n ↦ inl (ground arith)
  | inr (i, found, back) ↦ elim (others-cases ms) [
    | inl n ↦ inl (ground arith)
    | inr (b, put, got) ↦ inr (i ∷ b, ground arith, ground arith)
  ]
]
others-cases (_ ∷ ms) = inl refl

unfoldable pub put_requests : List QueryRequest → Option Binary
put_requests [] = some []
put_requests (q ∷ qs) = elim (name q.request) [
  | none ↦ none
  | some i ↦ elim (put_requests qs) [ none ↦ none | some b ↦ some (i ∷ b) ]
]

unfoldable pub get_requests : Binary → Option (List QueryRequest)
get_requests [] = some []
get_requests (i ∷ b) = elim (unname i) [
  | none ↦ none
  | some t ↦ elim (get_requests b) [ none ↦ none | some qs ↦ some (record { request = t } ∷ qs) ]
]

pub requests-cases : (qs : List QueryRequest) → Inverse put_requests get_requests qs
unfolding put_requests get_requests
requests-cases [] = inr ([], refl, refl)
requests-cases (q ∷ qs) = elim (name-cases q.request) [
  | inl n ↦ inl (ground arith)
  | inr (i, found, back) ↦ elim (requests-cases qs) [
    | inl n ↦ inl (ground arith)
    | inr (b, put, got) ↦ inr (i ∷ b, ground arith, ground arith)
  ]
]

-- `tag`, the place of the sender and of the id, and what follows. A packet without a callback id
-- has no form.
abbrev pub headed : ℕ → Option ℕ → Option ℕ → Option Binary → Option Binary
headed tag (some s) (some i) (some b) = some (tag ∷ s ∷ i ∷ b)
headed tag _ _ _ = none

unfoldable pub put_packet : PacketMsg → Option Binary
unfolding put_requests
put_packet who_am_i = some (0 ∷ [])
put_packet balances = some (1 ∷ [])
put_packet (dispatch s ms none) = none
put_packet (dispatch s ms (some id)) = headed 2 (name s) (name id) (put_others ms)
put_packet (ibc_query s qs none) = none
put_packet (ibc_query s qs (some id)) = headed 3 (name s) (name id) (put_requests qs)

abbrev pub dispatched : Option String → Option String → Option (List CosmosMsg) → Option PacketMsg
dispatched (some s) (some id) (some ms) = some (dispatch s ms (some id))
dispatched _ _ _ = none

abbrev pub queried : Option String → Option String → Option (List QueryRequest) → Option PacketMsg
queried (some s) (some id) (some qs) = some (ibc_query s qs (some id))
queried _ _ _ = none

unfoldable pub get_packet : Binary → Option PacketMsg
unfolding get_requests
get_packet (zero ∷ []) = some who_am_i
get_packet (suc zero ∷ []) = some balances
get_packet (suc (suc zero) ∷ s ∷ i ∷ b) = dispatched (unname s) (unname i) (get_others b)
get_packet (suc (suc (suc zero)) ∷ s ∷ i ∷ b) = queried (unname s) (unname i) (get_requests b)
get_packet _ = none

pub packet-cases : (m : PacketMsg) → Inverse put_packet get_packet m
unfolding put_packet get_packet
packet-cases who_am_i = inr (_, refl, refl)
packet-cases balances = inr (_, refl, refl)
packet-cases (dispatch s ms none) = inl refl
packet-cases (dispatch s ms (some id)) = elim (name-cases s) [
  | inl n ↦ inl (ground arith)
  | inr (i, p, p') ↦ elim (name-cases id) [
    | inl n ↦ inl (ground arith)
    | inr (j, q, q') ↦ elim (others-cases ms) [
      | inl n ↦ inl (ground arith)
      | inr (b, r, r') ↦ inr (2 ∷ i ∷ j ∷ b, ground arith, ground arith)
    ]
  ]
]
packet-cases (ibc_query s qs none) = inl refl
packet-cases (ibc_query s qs (some id)) = elim (name-cases s) [
  | inl n ↦ inl (ground arith)
  | inr (i, p, p') ↦ elim (name-cases id) [
    | inl n ↦ inl (ground arith)
    | inr (j, q, q') ↦ elim (requests-cases qs) [
      | inl n ↦ inl (ground arith)
      | inr (b, r, r') ↦ inr (3 ∷ i ∷ j ∷ b, ground arith, ground arith)
    ]
  ]
]

abbrev pub packet_codec : Codec PacketMsg
packet_codec = codec put_packet get_packet packet-cases

unfoldable pub put_ack : StdAck → Option Binary
put_ack (result b) = some (0 ∷ b)
put_ack (error e) = elim (name e) [ none ↦ none | some i ↦ some (1 ∷ i ∷ []) ]

unfoldable pub get_ack : Binary → Option StdAck
get_ack (zero ∷ b) = some (result b)
get_ack (suc zero ∷ i ∷ []) = elim (unname i) [ none ↦ none | some e ↦ some (error e) ]
get_ack _ = none

pub ack-cases : (a : StdAck) → Inverse put_ack get_ack a
unfolding put_ack get_ack
ack-cases (result b) = inr (0 ∷ b, refl, refl)
ack-cases (error e) = elim (name-cases e) [
  | inl n ↦ inl (ground arith)
  | inr (i, p, p') ↦ inr (1 ∷ i ∷ [], ground arith, ground arith)
]

abbrev pub ack_codec : Codec StdAck
ack_codec = codec put_ack get_ack ack-cases

abbrev pub results_codec : Codec DispatchResponse
results_codec =
    codec (λ r. some (put_all r.results)) (λ b. some (record { results = get_all b }))
      (λ r. inr (
        put_all r.results,
        refl,
        ap (λ x. some (record { results = x })) (get_all-put_all r.results),
      ))

abbrev pub queried_codec : Codec IbcQueryResponse
queried_codec =
    codec (λ r. some (put_all r.results)) (λ b. some (record { results = get_all b }))
      (λ r. inr (
        put_all r.results,
        refl,
        ap (λ x. some (record { results = x })) (get_all-put_all r.results),
      ))

unfoldable pub put_who : WhoAmIResponse → Option Binary
put_who r = elim (name r.account) [ none ↦ none | some i ↦ some (i ∷ []) ]

unfoldable pub get_who : Binary → Option WhoAmIResponse
get_who (i ∷ []) = elim (unname i) [ none ↦ none | some a ↦ some (record { account = a }) ]
get_who _ = none

pub who-cases : (r : WhoAmIResponse) → Inverse put_who get_who r
unfolding put_who get_who
who-cases r = elim (name-cases r.account) [
  | inl n ↦ inl (ground arith)
  | inr (i, p, p') ↦ inr (i ∷ [], ground arith, ground arith)
]

abbrev pub who_codec : Codec WhoAmIResponse
who_codec = codec put_who get_who who-cases

unfoldable pub put_balance : BalancesResponse → Option Binary
put_balance r = elim (name r.account) [
  | none ↦ none
  | some i ↦ elim (put_coins r.balances) [ none ↦ none | some b ↦ some (i ∷ b) ]
]

unfoldable pub get_balance : Binary → Option BalancesResponse
get_balance [] = none
get_balance (i ∷ b) = elim (unname i) [
  | none ↦ none
  | some a ↦ elim (get_coins b) [
    | none ↦ none
    | some cs ↦ some (record { account = a; balances = cs })
  ]
]

pub balance-cases : (r : BalancesResponse) → Inverse put_balance get_balance r
unfolding put_balance get_balance
balance-cases r = elim (name-cases r.account) [
  | inl n ↦ inl (ground arith)
  | inr (i, p, p') ↦ elim (coins-cases r.balances) [
    | inl n ↦ inl (ground arith)
    | inr (b, q, q') ↦ inr (i ∷ b, ground arith, ground arith)
  ]
]

abbrev pub balance_codec : Codec BalancesResponse
balance_codec = codec put_balance get_balance balance-cases
