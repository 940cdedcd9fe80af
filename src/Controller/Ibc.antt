-- ===== src/Controller/Ibc.antt =====
-- contracts/simple-ica-controller/src/ibc.rs: the channel handshake and the acknowledgements.
pub mod Stable
pub mod Handshake
pub mod Updates
pub mod Callback
pub mod Runs
pub mod Delivery
pub mod Learns
pub mod Accepts
use cw_ibc_demo.Prelude.{
  String, ◌==◌, if◌then◌else◌, Option, none, some, List, [], ◌∷◌, Entry, pure, throw, modify, lift,
  ◌>>=◌, ◌>>◌, Outcome, ok, err, map_err, and_then,
}
use cw_ibc_demo.Std.{
  Binary, Coin, StdError, fire, Response, respond, IbcReceiveResponse, IbcChannelMsg, IbcPacket,
  IbcPacketAckMsg, Env, Ibc3ChannelOpenResponse,
}
use cw_ibc_demo.SimpleIca.Types.{
  PacketMsg, dispatch, ibc_query, who_am_i, balances, StdAck, result, error, WhoAmIResponse,
  BalancesResponse,
}
use cw_ibc_demo.SimpleIca.Checks.{check_order, check_version}
use cw_ibc_demo.SimpleIca.Ack.{into_cosmos_msg}
use cw_ibc_demo.Platform.{Platform, Codec, StdResult}
use cw_ibc_demo.Controller.Msg.{
  AccountData, default_account, LatestQueryResponse, ContractError, std, simple_ica,
  unregistered_channel, remote_account_changed,
}
use cw_ibc_demo.Controller.State.{State, save_account, remove_account, save_query}
use cw_ibc_demo.Controller.Contract.{send_packet}

-- `if let Some(counter_version)`
abbrev pub check_counter : Option String → Outcome ContractError (Unit {0})
check_counter none = ok tt
check_counter (some v) = map_err simple_ica (check_version v)

unfoldable pub ibc_channel_open :
    IbcChannelMsg → Outcome ContractError (Option Ibc3ChannelOpenResponse)
unfolding check_order check_version
ibc_channel_open m = and_then (map_err simple_ica (check_order m.channel.order)) λ _.
    and_then (map_err simple_ica (check_version m.channel.version))
      λ _. and_then (check_counter m.counterparty_version) λ _. ok none

-- What `acknowledge_who_am_i` makes of the stored account.
unfoldable pub set_first_addr :
    String → String → Option AccountData → Outcome ContractError AccountData
set_first_addr caller account none = err (unregistered_channel caller)
set_first_addr caller account (some acct) =
    ok (elim acct.remote_addr [
      | none ↦ record acct { remote_addr = some account }
      | some old ↦ acct
    ])

-- The test of `acknowledge_balances` on the address stored before.
abbrev pub same_addr : Option String → String → Outcome ContractError (Unit {0})
same_addr none account = ok tt
same_addr (some old) account =
    if old == account then ok tt else err (remote_account_changed account old)

-- What `acknowledge_balances` makes of the stored account.
unfoldable pub set_balances :
    Env → String → BalancesResponse → Option AccountData → Outcome ContractError AccountData
set_balances env caller r none = err (unregistered_channel caller)
set_balances env caller r (some acct) = and_then (same_addr acct.remote_addr r.account) λ _.
    ok (record {
      last_update_time = env.time;
      remote_addr = some r.account;
      remote_balance = r.balances;
    })

module _ (p : Platform) where
  unfoldable pub ibc_channel_connect : Env → IbcChannelMsg → Entry (State p) StdError Response
  ibc_channel_connect env m = do
    let channel_id = m.channel.channel_id
    modify (save_account p channel_id default_account)
    bytes ← lift (p.packet.to_binary who_am_i)
    pure (
        respond (fire (send_packet p env channel_id bytes) ∷ [])
          (("action", "ibc_connect") ∷ ("channel_id", channel_id) ∷ []))

  unfoldable pub ibc_channel_close : Env → IbcChannelMsg → Entry (State p) StdError Response
  ibc_channel_close env m = do
    let channel_id = m.channel.channel_id
    modify (remove_account p channel_id)
    pure (respond [] (("action", "ibc_close") ∷ ("channel_id", channel_id) ∷ []))

  -- `b"{}"` is the two bytes of an empty object.
  unfoldable pub ibc_packet_receive : Env → IbcPacket → Entry (State p) StdError IbcReceiveResponse
  ibc_packet_receive env packet = pure (record {
    acknowledgement = b'{' ∷ b'}' ∷ [];
    messages = [];
    attributes = ("action", "ibc_packet_ack") ∷ [];
  })

  -- `ACCOUNTS.update`
  abbrev pub update_account :
      String
      → (Option AccountData → Outcome ContractError AccountData)
      → Entry (State p) ContractError (Unit {0})
  update_account caller action = do
    acct ← (λ s. (action (p.get s.accounts caller), s))
    modify (save_account p caller acct)

  unfoldable pub acknowledge_dispatch :
      String → Option String → IbcPacketAckMsg → Entry (State p) ContractError Response
  acknowledge_dispatch sender none ack = pure (respond [] (("action", "acknowledge_dispatch") ∷ []))
  acknowledge_dispatch sender (some id) ack = do
    msg ← lift (map_err std (p.ack.from_slice ack.acknowledgement))
    call ← lift (map_err std (into_cosmos_msg p (record { id = id; msg = msg }) sender))
    pure (respond (fire call ∷ []) (("action", "acknowledge_dispatch") ∷ ("callback_id", id) ∷ []))

  -- the message sent back, if the caller asked for one
  abbrev pub query_callback : String → StdAck → Option String → Outcome ContractError Response
  query_callback sender msg none = ok (respond [] (("action", "acknowledge_ibc_query") ∷ []))
  query_callback sender msg (some id) =
      and_then (map_err std (into_cosmos_msg p (record { id = id; msg = msg }) sender))
        λ call. ok (respond (fire call ∷ []) (("action", "acknowledge_ibc_query") ∷ []))

  unfoldable pub acknowledge_query :
      Env
      → String
      → String
      → Option String
      → IbcPacketAckMsg
      → Entry (State p) ContractError Response
  acknowledge_query env caller sender callback_id ack = do
    msg ← lift (map_err std (p.ack.from_slice ack.acknowledgement))
    modify (save_query p caller (record { last_update_time = env.time; response = msg }))
    lift (query_callback sender msg callback_id)

  unfoldable pub acknowledge_who_am_i : String → StdAck → Entry (State p) ContractError Response
  acknowledge_who_am_i caller (error e) =
      pure (respond [] (("action", "acknowledge_who_am_i") ∷ ("error", e) ∷ []))
  acknowledge_who_am_i caller (result res) = do
    r ← lift (map_err std (p.who.from_slice res))
    update_account caller (set_first_addr caller r.account)
    pure (respond [] (("action", "acknowledge_who_am_i") ∷ []))

  unfoldable pub acknowledge_balances :
      Env → String → StdAck → Entry (State p) ContractError Response
  acknowledge_balances env caller (error e) =
      pure (respond [] (("action", "acknowledge_balances") ∷ ("error", e) ∷ []))
  acknowledge_balances env caller (result res) = do
    r ← lift (map_err std (p.balance.from_slice res))
    update_account caller (set_balances env caller r)
    pure (respond [] (("action", "acknowledge_balances") ∷ []))

  -- the `match` on the original packet
  unfoldable pub acknowledge :
      Env → String → StdAck → IbcPacketAckMsg → PacketMsg → Entry (State p) ContractError Response
  acknowledge env caller res ack (dispatch sender msgs callback_id) =
      acknowledge_dispatch sender callback_id ack
  acknowledge env caller res ack (ibc_query sender msgs callback_id) =
      acknowledge_query env caller sender callback_id ack
  acknowledge env caller res ack who_am_i = acknowledge_who_am_i caller res
  acknowledge env caller res ack balances = acknowledge_balances env caller res

  unfoldable pub ibc_packet_ack : Env → IbcPacketAckMsg → Entry (State p) ContractError Response
  unfolding acknowledge
  ibc_packet_ack env m = do
    original_packet ← lift (map_err std (p.packet.from_slice m.original_packet.payload))
    res ← lift (map_err std (p.ack.from_slice m.acknowledgement))
    acknowledge env m.original_packet.src_channel res m original_packet

  unfoldable pub ibc_packet_timeout : Env → IbcPacket → Entry (State p) StdError Response
  ibc_packet_timeout env packet = pure (respond [] (("action", "ibc_packet_timeout") ∷ []))
