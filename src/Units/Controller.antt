-- ===== src/Units/Controller.antt =====
-- `mod tests` of contracts/simple-ica-controller/src/contract.rs and ibc.rs.
use cw_ibc_demo.Prelude.{
  String, ◌==◌, ◌==ℕ◌, none, List, [], ◌∷◌, length, lift, ◌>>=◌, ◌>>◌, unwrap, Outcome, ok, panic,
  is_empty, is_some, not,
}
use cw_ibc_demo.Std.{Binary, Coin, CosmosMsg, ibc_send_packet, ibc_transfer, bank_send}
use cw_ibc_demo.SimpleIca.Types.{who_am_i, app_order, bad_app_order, ibc_app_version}
use cw_ibc_demo.SimpleIca.Ack as ack
use cw_ibc_demo.Platform.{Platform}
use cw_ibc_demo.Controller.Msg.{send_msgs, send_funds, account as account_of, AccountResponse}
use cw_ibc_demo.Controller.State.{State}
use cw_ibc_demo.Controller.Contract.{instantiate, execute, query, query_admin}
use cw_ibc_demo.Controller.Ibc.{ibc_channel_open, ibc_channel_connect, ibc_packet_ack}
use cw_ibc_demo.Units.{Steps, Mocks, unwrapped, runs, fails, asked, assert, first, present}
use cw_ibc_demo.Units.Same.{same_attributes, same_coin}

abbrev creator : String
creator = "creator"

-- The channel and the bytes of a packet that is sent.
abbrev packet_of : CosmosMsg → Outcome ⊥ (String × Binary)
packet_of (ibc_send_packet channel_id packet timeout) = ok (channel_id, packet)
packet_of _ = panic "Unexpected message"

-- The transfer that is sent. Its timeout is a time: it has no block.
abbrev transfer_of : CosmosMsg → Outcome ⊥ (String × String × Coin)
transfer_of (ibc_transfer channel_id to_address amount timeout) =
    ok (channel_id, to_address, amount)
transfer_of _ = panic "unexpected message"

abbrev utrgd : List Coin
utrgd = record { denom = "utrgd"; amount = 12344 } ∷ []

module _ (p : Platform) (m : Mocks) where
  -- in contract.rs
  abbrev pub instantiate_works : Steps (State p) (Unit {0})
  instantiate_works = do
    res ← unwrapped (instantiate p m.env (m.info creator []))
    assert (length res.messages ==ℕ 0)
    answer ← asked (query_admin p)
    assert (creator == answer.admin)

  -- in ibc.rs
  abbrev setup : Steps (State p) (Unit {0})
  setup = do
    res ← unwrapped (instantiate p m.env (m.info creator []))
    assert (length res.messages ==ℕ 0)

  abbrev connect : String → Steps (State p) (Unit {0})
  connect channel_id = do
    runs (lift (ibc_channel_open (m.channel_open_init channel_id app_order ibc_app_version)))
    res ←
        unwrapped
          (ibc_channel_connect p m.env (m.channel_connect_ack channel_id app_order ibc_app_version))
    assert (length res.messages ==ℕ 1)
    msg ← lift (first res.messages)
    sent ← lift (packet_of msg.msg)
    assert (sent.0 == channel_id)

  abbrev who_am_i_response : String → String → Steps (State p) (Unit {0})
  who_am_i_response channel_id account = do
    packet ← lift (unwrap "to_binary" (p.packet.to_binary who_am_i))
    res ← lift (ack.success p p.who (record { account = account }))
    answer ← unwrapped (ibc_packet_ack p m.env (m.packet_ack channel_id packet res))
    assert (length answer.messages ==ℕ 0)

  abbrev pub enforce_version_in_handshake : Steps (State p) (Unit {0})
  enforce_version_in_handshake = do
    setup
    fails (lift (ibc_channel_open (m.channel_open_try "channel-12" bad_app_order ibc_app_version)))
    fails (lift (ibc_channel_open (m.channel_open_try "channel-12" app_order "reflect")))
    runs (lift (ibc_channel_open (m.channel_open_try "channel-12" app_order ibc_app_version)))

  abbrev account_at : String → Steps (State p) AccountResponse
  account_at channel_id = do
    raw ← asked (λ s. query p s (account_of channel_id))
    lift (unwrap "from_slice" (p.ica_account.from_slice raw))

  abbrev pub proper_handshake_flow : Steps (State p) (Unit {0})
  proper_handshake_flow = do
    setup
    let channel_id : String = "channel-1234"
    connect channel_id
    empty ← account_at channel_id
    assert (not (is_some empty.remote_addr))
    assert (is_empty empty.remote_balance)
    assert (empty.last_update_time ==ℕ 0)
    let remote_addr : String = "account-789"
    who_am_i_response channel_id remote_addr
    acct ← account_at channel_id
    addr ← lift (present acct.remote_addr)
    assert (addr == remote_addr)
    assert (is_empty acct.remote_balance)
    assert (acct.last_update_time ==ℕ 0)

  abbrev pub dispatch_message_send_and_ack : Steps (State p) (Unit {0})
  dispatch_message_send_and_ack = do
    let channel_id : String = "channel-1234"
    let remote_addr : String = "account-789"
    setup
    connect channel_id
    who_am_i_response channel_id remote_addr
    let msgs_to_dispatch : List CosmosMsg =
        bank_send "my-friend" (record { denom = "uatom"; amount = 123456789 } ∷ []) ∷ []
    res ←
        unwrapped
          (execute p m.deps m.env (m.info creator []) (send_msgs channel_id msgs_to_dispatch none))
    assert (length res.messages ==ℕ 1)
    msg ← lift (first res.messages)
    sent ← lift (packet_of msg.msg)
    bytes ← lift (ack.success p m.unit tt)
    number ← lift (unwrap "to_binary" (m.u32 1))
    let mocked = m.packet_ack sent.0 number bytes
    answer ← unwrapped (
        ibc_packet_ack p m.env
          (record mocked { original_packet = record mocked.original_packet { payload = sent.1 } }))
    assert (length answer.messages ==ℕ 0)
    assert (same_attributes (("action", "acknowledge_dispatch") ∷ []) answer.attributes)

  abbrev pub send_remote_funds : Steps (State p) (Unit {0})
  send_remote_funds = do
    let reflect_channel_id : String = "channel-1234"
    let remote_addr : String = "account-789"
    let transfer_channel_id : String = "transfer-2"
    setup
    connect reflect_channel_id
    who_am_i_response reflect_channel_id remote_addr
    fails (
        execute p m.deps m.env (m.info creator utrgd)
          (send_funds "random-channel" transfer_channel_id))
    fails (
        execute p m.deps m.env (m.info creator [])
          (send_funds reflect_channel_id transfer_channel_id))
    res ← unwrapped (
        execute p m.deps m.env (m.info creator utrgd)
          (send_funds reflect_channel_id transfer_channel_id))
    assert (length res.messages ==ℕ 1)
    msg ← lift (first res.messages)
    sent ← lift (transfer_of msg.msg)
    assert (transfer_channel_id == sent.0)
    assert (remote_addr == sent.1)
    assert (same_coin (record { denom = "utrgd"; amount = 12344 }) sent.2)
