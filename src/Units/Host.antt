-- ===== src/Units/Host.antt =====
-- `mod tests` of contracts/simple-ica-host/src/contract.rs.
use Prim.Native.String.{len, find}
use Prim.Native.Nat.{◌%◌}
use cw_ibc_demo.Prelude.{
  ℕ, suc, String, Bool, false, not, ◌&&◌, ◌==◌, ◌==ℕ◌, none, some, List, [], ◌∷◌, length, pure,
  lift, ◌>>=◌, ◌>>◌, unwrap, Outcome, ok, panic,
}
use cw_ibc_demo.Std.{
  Binary, Coin, CosmosMsg, wasm_execute, wasm_instantiate, bank_send, success, execute,
}
use cw_ibc_demo.SimpleIca.Types.{dispatch, app_order, bad_app_order, ibc_app_version}
use cw_ibc_demo.SimpleIca.Ack as ack
use cw_ibc_demo.Platform.{Platform}
use cw_ibc_demo.Host.Msg.{
  ReflectExecuteMsg, reflect_msg, list_accounts, account as account_of, AccountInfo,
}
use cw_ibc_demo.Host.State.{State}
use cw_ibc_demo.Host.Contract.{
  instantiate, query, ibc_channel_open, ibc_channel_connect, ibc_channel_close, reply,
  receive_dispatch_id,
}
use cw_ibc_demo.Host.Packet.{ibc_packet_receive}
use cw_ibc_demo.Units.{Steps, Mocks, unwrapped, runs, fails, asked, assert, first, present}
use cw_ibc_demo.Units.Same.{same_event, same_coins, same_message, same_cw1}

abbrev reflect_id : ℕ
reflect_id = 101

abbrev reflect_addr : String
reflect_addr = "reflect-acct-1"

-- `str::contains`
abbrev contains : String → String → Bool
contains s t = not (find s t ==ℕ suc (len s))

-- The message that creates the account is as expected.
abbrev creates : String → CosmosMsg → Bool
creates channel_id (wasm_instantiate none code_id msg funds label) =
    code_id ==ℕ reflect_id && length funds ==ℕ 0 && contains label channel_id
creates channel_id _ = false

abbrev same_info : AccountInfo → AccountInfo → Bool
same_info a b = a.account == b.account && a.channel_id == b.channel_id

-- The account and the bytes of a message to it.
abbrev executed : CosmosMsg → Outcome ⊥ (String × Binary × List Coin)
executed (wasm_execute contract_addr msg funds) = ok (contract_addr, msg, funds)
executed _ = panic "invalid return message"

module _ (p : Platform) (m : Mocks) where
  abbrev fake_data : String → Binary
  fake_data addr = 10 ∷ len addr % 256 ∷ m.as_bytes addr

  abbrev setup : Steps (State p) (Unit {0})
  setup = do
    res ← unwrapped (instantiate p (record { cw1_code_id = reflect_id }))
    assert (length res.messages ==ℕ 0)

  abbrev connect : String → String → Steps (State p) (Unit {0})
  connect channel_id account = do
    runs (lift (ibc_channel_open (m.channel_open_init channel_id app_order ibc_app_version)))
    res ←
        unwrapped
          (ibc_channel_connect p m.env (m.channel_connect_ack channel_id app_order ibc_app_version))
    assert (length res.messages ==ℕ 1)
    assert (length res.events ==ℕ 1)
    event ← lift (first res.events)
    assert (same_event (record { kind = "ibc"; attributes = ("channel", "connect") ∷ [] }) event)
    msg ← lift (first res.messages)
    runs (reply p m.deps (record { id = msg.id; result = success (some (fake_data account)) }))

  abbrev listed : Steps (State p) (List AccountInfo)
  listed = do
    raw ← asked (λ s. query p s list_accounts)
    res ← lift (unwrap "from_slice" (p.host_accounts.from_slice raw))
    pure res.accounts

  abbrev pub instantiate_works : Steps (State p) (Unit {0})
  instantiate_works = do
    res ← unwrapped (instantiate p (record { cw1_code_id = 17 }))
    assert (length res.messages ==ℕ 0)

  abbrev pub enforce_version_in_handshake : Steps (State p) (Unit {0})
  enforce_version_in_handshake = do
    setup
    fails (lift (ibc_channel_open (m.channel_open_try "channel-12" bad_app_order ibc_app_version)))
    fails (lift (ibc_channel_open (m.channel_open_try "channel-12" app_order "reflect")))
    runs (lift (ibc_channel_open (m.channel_open_try "channel-12" app_order ibc_app_version)))

  abbrev pub proper_handshake_flow : Steps (State p) (Unit {0})
  proper_handshake_flow = do
    setup
    let channel_id : String = "channel-1234"
    runs (lift (ibc_channel_open (m.channel_open_init channel_id app_order ibc_app_version)))
    res ←
        unwrapped
          (ibc_channel_connect p m.env (m.channel_connect_ack channel_id app_order ibc_app_version))
    assert (length res.messages ==ℕ 1)
    msg ← lift (first res.messages)
    assert (creates channel_id msg.msg)
    before ← listed
    assert (length before ==ℕ 0)
    runs (reply p m.deps (record { id = msg.id; result = success (some (fake_data reflect_addr)) }))
    after ← listed
    assert (length after ==ℕ 1)
    info ← lift (first after)
    assert (same_info info (record { account = reflect_addr; channel_id = channel_id }))
    raw ← asked (λ s. query p s (account_of channel_id))
    answer ← lift (unwrap "from_slice" (p.host_account.from_slice raw))
    account ← lift (present answer.account)
    assert (account == reflect_addr)

  abbrev msgs_to_dispatch : List CosmosMsg
  msgs_to_dispatch =
      bank_send "my-friend" (record { denom = "uatom"; amount = 123456789 } ∷ []) ∷ []

  abbrev pub handle_dispatch_packet : Steps (State p) (Unit {0})
  handle_dispatch_packet = do
    setup
    let channel_id : String = "channel-123"
    let account : String = "acct-123"
    bytes ← lift (unwrap "to_binary" (p.packet.to_binary (dispatch account msgs_to_dispatch none)))
    let packet = m.packet_recv channel_id bytes
    fails (ibc_packet_receive p m.deps packet)
    connect channel_id account
    res ← unwrapped (ibc_packet_receive p m.deps packet)
    answer ← lift (unwrap "from_slice" (p.ack.from_slice res.acknowledgement))
    content ← lift (ack.unwrap_ack answer)
    assert (length res.messages ==ℕ 1)
    msg ← lift (first res.messages)
    assert (receive_dispatch_id ==ℕ msg.id)
    call ← lift (executed msg.msg)
    assert (account == call.0)
    assert (length call.2 ==ℕ 0)
    rmsg ← lift (unwrap "from_slice" (p.cw1_exec.from_slice call.1))
    assert (same_cw1 rmsg (execute msgs_to_dispatch))
    bad ← lift (unwrap "to_binary" (m.host_instantiate (record { cw1_code_id = 12345 })))
    fails (ibc_packet_receive p m.deps (m.packet_recv channel_id bad))

  -- The messages that the account is told to send.
  abbrev rescues : List Coin → ReflectExecuteMsg → Steps (State p) (Unit {0})
  rescues funds (reflect_msg msgs) = do
    assert (length msgs ==ℕ 1)
    msg ← lift (first msgs)
    assert (same_message msg (bank_send m.contract_addr funds))

  abbrev pub check_close_channel : Steps (State p) (Unit {0})
  check_close_channel = do
    setup
    let channel_id : String = "channel-123"
    let account : String = "acct-123"
    connect channel_id account
    let funds : List Coin =
        record { denom = "uatom"; amount = 123456 }
        ∷ record { denom = "tgrd"; amount = 7654321 }
        ∷ []
    let deps = m.update_balance account funds
    before ← listed
    assert (length before ==ℕ 1)
    balance ← lift (unwrap "balance" (deps.query_all_balances account))
    assert (same_coins funds balance)
    res ←
        unwrapped (
          ibc_channel_close p deps m.env
            (m.channel_close_init channel_id app_order ibc_app_version))
    assert (length res.messages ==ℕ 1)
    msg ← lift (first res.messages)
    call ← lift (executed msg.msg)
    assert (call.0 == account)
    reflect ← lift (unwrap "from_slice" (p.reflect.from_slice call.1))
    rescues funds reflect
    after ← listed
    assert (length after ==ℕ 0)
