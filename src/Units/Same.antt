-- ===== src/Units/Same.antt =====
-- The derived equalities that the assertions of the tests use.
use cw_ibc_demo.Prelude.{Bool, true, false, ◌&&◌, ◌==◌, ◌==ℕ◌, Option, none, some, List, [], ◌∷◌}
use cw_ibc_demo.Std.{
  Binary, Coin, Attribute, Event, CosmosMsg, wasm_execute, wasm_instantiate, bank_send,
  ibc_send_packet, ibc_transfer, other, SubMsg, ReplyOn, never, on_success, Cw1ExecuteMsg, execute,
}
use cw_ibc_demo.SimpleIca.Types.{StdAck, result, error}

module _ {A : Type 0} (same : A → A → Bool) where
  abbrev pub same_list : List A → List A → Bool
  same_list [] [] = true
  same_list [] (y ∷ ys) = false
  same_list (x ∷ xs) [] = false
  same_list (x ∷ xs) (y ∷ ys) = same x y && same_list xs ys

  abbrev pub same_option : Option A → Option A → Bool
  same_option none none = true
  same_option none (some y) = false
  same_option (some x) none = false
  same_option (some x) (some y) = same x y

abbrev pub same_binary : Binary → Binary → Bool
same_binary = same_list (λ i j. i ==ℕ j)

abbrev pub same_coin : Coin → Coin → Bool
same_coin c d = c.denom == d.denom && c.amount ==ℕ d.amount

abbrev pub same_coins : List Coin → List Coin → Bool
same_coins = same_list same_coin

abbrev pub same_attributes : List Attribute → List Attribute → Bool
same_attributes = same_list (λ a b. a.0 == b.0 && a.1 == b.1)

abbrev pub same_event : Event → Event → Bool
same_event e f = e.kind == f.kind && same_attributes e.attributes f.attributes

abbrev pub same_message : CosmosMsg → CosmosMsg → Bool
same_message (wasm_execute a b c) (wasm_execute a' b' c') =
    a == a' && same_binary b b' && same_coins c c'
same_message (wasm_instantiate a i b c l) (wasm_instantiate a' i' b' c' l') =
    same_option (λ x y. x == y) a a' && i ==ℕ i' && same_binary b b' && same_coins c c' && l == l'
same_message (bank_send a c) (bank_send a' c') = a == a' && same_coins c c'
same_message (ibc_send_packet c b t) (ibc_send_packet c' b' t') =
    c == c' && same_binary b b' && t ==ℕ t'
same_message (ibc_transfer c a x t) (ibc_transfer c' a' x' t') =
    c == c' && a == a' && same_coin x x' && t ==ℕ t'
same_message (other a) (other a') = a == a'
same_message _ _ = false

abbrev pub same_messages : List CosmosMsg → List CosmosMsg → Bool
same_messages = same_list same_message

abbrev same_reply_on : ReplyOn → ReplyOn → Bool
same_reply_on never never = true
same_reply_on on_success on_success = true
same_reply_on _ _ = false

abbrev pub same_submessage : SubMsg → SubMsg → Bool
same_submessage m n =
    m.id ==ℕ n.id && same_message m.msg n.msg && same_reply_on m.reply_on n.reply_on

abbrev pub same_ack : StdAck → StdAck → Bool
same_ack (result b) (result b') = same_binary b b'
same_ack (error e) (error e') = e == e'
same_ack _ _ = false

abbrev pub same_cw1 : Cw1ExecuteMsg → Cw1ExecuteMsg → Bool
same_cw1 (execute ms) (execute ms') = same_messages ms ms'
