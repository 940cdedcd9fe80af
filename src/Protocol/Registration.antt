-- ===== src/Protocol/Registration.antt =====
-- How the controller learns the account that the host keeps for a channel, and its balance.
use cw_ibc_demo.Prelude.{[], String, ◌≡◌, ◌∙◌, ap, some, List, ok, commit, keep, eq_refl}
use cw_ibc_demo.Std.{Binary, Addr, Coin, Env, IbcChannelMsg, IbcReceiveResponse}
use cw_ibc_demo.SimpleIca.Types.{who_am_i, balances, result}
use cw_ibc_demo.Platform.{Platform, Deps}
use cw_ibc_demo.Controller.Msg.{AccountData, default_account}
use cw_ibc_demo.Controller.State as controller
use cw_ibc_demo.Controller.Ibc.{ibc_channel_connect, ibc_packet_ack}
use cw_ibc_demo.Controller.Ibc.Handshake.{ibc_channel_connect-registers}
use cw_ibc_demo.Controller.Ibc.Updates.{
  Fits, acknowledge_who_am_i-stores, acknowledge_balances-stores,
}
use cw_ibc_demo.Controller.Ibc.Delivery.{ibc_packet_ack-who_am_i, ibc_packet_ack-balances}
use cw_ibc_demo.Host.State as host
use cw_ibc_demo.Host.Packet.{ibc_packet_receive}
use cw_ibc_demo.Host.Packet.Acks.{ibc_packet_receive-who_am_i, ibc_packet_receive-balances}
use cw_ibc_demo.Protocol.{carried, answered}

module _ (p : Platform) (deps : Deps) (env : Env) (s : controller.State p) (h : host.State p)
    (dest : String) where
  -- The `WhoAmI` that the controller sends when a channel is connected, received by the host and
  -- acknowledged, leaves in the controller for that channel exactly the account that the host
  -- keeps for it, with no balance yet.
  pub connect-who_am_i :
      (m : IbcChannelMsg) (now : Env) (bytes : Binary) {r : IbcReceiveResponse}
      → let packet = carried m.channel.channel_id dest bytes in
        p.packet.to_binary who_am_i ≡ ok bytes
        → (ibc_packet_receive p deps packet h).0 ≡ ok r
        → (account : Addr) × (p.get h.accounts dest ≡ some account)
          × (p.get
                (commit
                  (ibc_packet_ack p now (answered packet r.acknowledgement))
                  (commit (ibc_channel_connect p env m) s)).accounts
                m.channel.channel_id
              ≡ some (record {
                last_update_time = 0;
                remote_addr = some account;
                remote_balance = [];
              }))
  connect-who_am_i m now bytes {r} e received =
      let src = m.channel.channel_id in
      let t = commit (ibc_channel_connect p env m) s in
      let (sent, decoded, accounts) = ibc_channel_connect-registers p env m s bytes e in
      let empty : p.get t.accounts src ≡ some default_account =
        rw (eq_refl src) at (accounts src) in
      let (account, found, (res, read, who)) =
        ibc_packet_receive-who_am_i p deps (carried src dest bytes) h {r = r} decoded received in
      let (accepted, stored) =
        acknowledge_who_am_i-stores p now src t res (record { account = account }) default_account
          who empty in
      (
        account,
        found,
        ap (λ x. p.get (keep t x).accounts src)
              (ibc_packet_ack-who_am_i p now (answered (carried src dest bytes) r.acknowledgement) t
                (result res) decoded read)
            ∙ (rw (eq_refl src) at (stored src)),
      )

  -- A `Balances` packet that the host receives, and whose acknowledgement comes back, leaves in
  -- the controller the host's account of the channel, the balance that the host's chain reports
  -- for it, and the time of the block, if the account fits what is known.
  pub ack-balances :
      (src : String) (now : Env) (bytes : Binary) (a : AccountData) {r : IbcReceiveResponse}
      → let packet = carried src dest bytes in
        p.packet.to_binary balances ≡ ok bytes
        → (ibc_packet_receive p deps packet h).0 ≡ ok r
        → p.get s.accounts src ≡ some a
        → ((account : Addr) → p.get h.accounts dest ≡ some account → Fits account a)
        → (account : Addr) × (coins : List Coin) × (p.get h.accounts dest ≡ some account)
          × (deps.query_all_balances account ≡ ok coins)
          × (p.get
                (commit (ibc_packet_ack p now (answered packet r.acknowledgement)) s).accounts
                src
              ≡ some (record {
                last_update_time = now.time;
                remote_addr = some account;
                remote_balance = coins;
              }))
  ack-balances src now bytes a {r} e received known fits =
      let decoded = p.packet.round_trip balances bytes e in
      let (account, coins, found, asked, (res, read, says)) =
        ibc_packet_receive-balances p deps (carried src dest bytes) h {r = r} decoded received in
      let stored =
        acknowledge_balances-stores p now src s res (record { account = account; balances = coins })
          a says known (fits account found) src in
      (
        account,
        coins,
        found,
        asked,
        ap (λ x. p.get (keep s x).accounts src)
              (ibc_packet_ack-balances p now (answered (carried src dest bytes) r.acknowledgement) s
                (result res) decoded read)
            ∙ (rw (eq_refl src) at stored),
      )
