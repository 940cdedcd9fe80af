-- ===== src/Platform/Total/Types.antt =====
-- The forms of the messages and answers.
use cw_ibc_demo.Prelude.{
  String, ◌≡◌, refl, Bool, true, false, Option, none, some, List, ◌⊎◌, inl, inr, ℕ,
}
use cw_ibc_demo.Std.{
  Binary, Coin, CosmosMsg, wasm_execute, wasm_instantiate, bank_send, ibc_send_packet, ibc_transfer,
  other, QueryRequest, Timestamp,
}
use cw_ibc_demo.SimpleIca.Types.{
  PacketMsg, dispatch, ibc_query, who_am_i, balances, StdAck, result, error, DispatchResponse,
  IbcQueryResponse, WhoAmIResponse, BalancesResponse, SimpleIcaReceiverExecuteMsg,
  receive_ica_response,
}
use cw_ibc_demo.Platform.Total.Format.{Format, number, empty, via, pair, sum, list}
use cw_ibc_demo.Platform.Total.Text.{text}

abbrev pub bytes : Format Binary
bytes = list number

abbrev to_bool : (Unit {0} ⊎ Unit {0}) → Bool
to_bool (inl u) = true
to_bool (inr u) = false

abbrev of_bool : Bool → Unit {0} ⊎ Unit {0}
of_bool true = inl tt
of_bool false = inr tt

pub to_bool-of_bool : (b : Bool) → to_bool (of_bool b) ≡ b
to_bool-of_bool true = refl
to_bool-of_bool false = refl

abbrev pub bool : Format Bool
bool = via to_bool of_bool to_bool-of_bool (sum empty empty)

module _ {A : Type 0} where
  abbrev to_option : (Unit {0} ⊎ A) → Option A
  to_option (inl u) = none
  to_option (inr a) = some a

  abbrev of_option : Option A → Unit {0} ⊎ A
  of_option none = inl tt
  of_option (some a) = inr a

  pub to_option-of_option : (o : Option A) → to_option (of_option o) ≡ o
  to_option-of_option none = refl
  to_option-of_option (some a) = refl

  abbrev pub option : Format A → Format (Option A)
  option F = via to_option of_option to_option-of_option (sum empty F)

abbrev pub coin : Format Coin
coin =
    via (λ x. record { denom = x.0; amount = x.1 }) (λ c. (c.denom, c.amount)) (λ c. refl)
      (pair text number)

abbrev Message : Type 0
Message =
    (String × (Binary × List Coin))
    ⊎ ((Option String × (ℕ × (Binary × (List Coin × String))))
        ⊎ ((String × List Coin)
            ⊎ ((String × (Binary × Timestamp))
                ⊎ ((String × (String × (Coin × Timestamp))) ⊎ String))))

abbrev to_message : Message → CosmosMsg
to_message (inl (a, (b, c))) = wasm_execute a b c
to_message (inr (inl (a, (b, (c, (d, e)))))) = wasm_instantiate a b c d e
to_message (inr (inr (inl (a, b)))) = bank_send a b
to_message (inr (inr (inr (inl (a, (b, c)))))) = ibc_send_packet a b c
to_message (inr (inr (inr (inr (inl (a, (b, (c, d)))))))) = ibc_transfer a b c d
to_message (inr (inr (inr (inr (inr a))))) = other a

abbrev of_message : CosmosMsg → Message
of_message (wasm_execute a b c) = inl (a, (b, c))
of_message (wasm_instantiate a b c d e) = inr (inl (a, (b, (c, (d, e)))))
of_message (bank_send a b) = inr (inr (inl (a, b)))
of_message (ibc_send_packet a b c) = inr (inr (inr (inl (a, (b, c)))))
of_message (ibc_transfer a b c d) = inr (inr (inr (inr (inl (a, (b, (c, d)))))))
of_message (other a) = inr (inr (inr (inr (inr a))))

pub to_message-of_message : (m : CosmosMsg) → to_message (of_message m) ≡ m
to_message-of_message (wasm_execute a b c) = refl
to_message-of_message (wasm_instantiate a b c d e) = refl
to_message-of_message (bank_send a b) = refl
to_message-of_message (ibc_send_packet a b c) = refl
to_message-of_message (ibc_transfer a b c d) = refl
to_message-of_message (other a) = refl

abbrev pub message : Format CosmosMsg
message = via to_message of_message to_message-of_message (
    sum (pair text (pair bytes (list coin))) (
      sum (pair (option text) (pair number (pair bytes (pair (list coin) text)))) (
        sum (pair text (list coin)) (
          sum (pair text (pair bytes number))
            (sum (pair text (pair text (pair coin number))) text)))))

abbrev pub request : Format QueryRequest
request = via (λ t. record { request = t }) (λ q. q.request) (λ q. refl) text

abbrev Packet : Type 0
Packet =
    (String × (List CosmosMsg × Option String))
    ⊎ ((String × (List QueryRequest × Option String)) ⊎ (Unit {0} ⊎ Unit {0}))

abbrev to_packet : Packet → PacketMsg
to_packet (inl (a, (b, c))) = dispatch a b c
to_packet (inr (inl (a, (b, c)))) = ibc_query a b c
to_packet (inr (inr (inl u))) = who_am_i
to_packet (inr (inr (inr u))) = balances

abbrev of_packet : PacketMsg → Packet
of_packet (dispatch a b c) = inl (a, (b, c))
of_packet (ibc_query a b c) = inr (inl (a, (b, c)))
of_packet who_am_i = inr (inr (inl tt))
of_packet balances = inr (inr (inr tt))

pub to_packet-of_packet : (m : PacketMsg) → to_packet (of_packet m) ≡ m
to_packet-of_packet (dispatch a b c) = refl
to_packet-of_packet (ibc_query a b c) = refl
to_packet-of_packet who_am_i = refl
to_packet-of_packet balances = refl

abbrev pub packet : Format PacketMsg
packet = via to_packet of_packet to_packet-of_packet (
    sum (pair text (pair (list message) (option text)))
      (sum (pair text (pair (list request) (option text))) (sum empty empty)))

abbrev to_ack : Binary ⊎ String → StdAck
to_ack (inl b) = result b
to_ack (inr e) = error e

abbrev of_ack : StdAck → Binary ⊎ String
of_ack (result b) = inl b
of_ack (error e) = inr e

pub to_ack-of_ack : (a : StdAck) → to_ack (of_ack a) ≡ a
to_ack-of_ack (result b) = refl
to_ack-of_ack (error e) = refl

abbrev pub ack : Format StdAck
ack = via to_ack of_ack to_ack-of_ack (sum bytes text)

abbrev pub dispatched : Format DispatchResponse
dispatched = via (λ l. record { results = l }) (λ r. r.results) (λ r. refl) (list bytes)

abbrev pub queried : Format IbcQueryResponse
queried = via (λ l. record { results = l }) (λ r. r.results) (λ r. refl) (list bytes)

abbrev pub who : Format WhoAmIResponse
who = via (λ a. record { account = a }) (λ r. r.account) (λ r. refl) text

abbrev pub balance : Format BalancesResponse
balance =
    via (λ x. record { account = x.0; balances = x.1 }) (λ r. (r.account, r.balances)) (λ r. refl)
      (pair text (list coin))

abbrev to_callback : String × StdAck → SimpleIcaReceiverExecuteMsg
to_callback (id, msg) = receive_ica_response (record { id = id; msg = msg })

abbrev of_callback : SimpleIcaReceiverExecuteMsg → String × StdAck
of_callback (receive_ica_response r) = (r.id, r.msg)

pub to_callback-of_callback : (m : SimpleIcaReceiverExecuteMsg) → to_callback (of_callback m) ≡ m
to_callback-of_callback (receive_ica_response r) = refl

abbrev pub callback : Format SimpleIcaReceiverExecuteMsg
callback = via to_callback of_callback to_callback-of_callback (pair text ack)
