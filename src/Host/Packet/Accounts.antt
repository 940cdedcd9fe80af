-- ===== src/Host/Packet/Accounts.antt =====
-- What a packet changes in the host.
use cw_ibc_demo.Prelude.{◌≡◌, arith, commit}
use cw_ibc_demo.Std.{IbcPacket}
use cw_ibc_demo.Platform.{Platform, Deps}
use cw_ibc_demo.Host.State.{State}
use cw_ibc_demo.Host.Packet.{
  receive_who_am_i, receive_balances, receive_dispatch, ibc_packet_receive,
}

-- No packet changes the accounts, the configuration or the pending channel of the host.
pub ibc_packet_receive-keeps :
    (p : Platform) (deps : Deps) (packet : IbcPacket) (s : State p)
    → let t = commit (ibc_packet_receive p deps packet) s in
      (t.accounts ≡ s.accounts) × (t.config ≡ s.config) × (t.pending ≡ s.pending)
unfolding ibc_packet_receive receive_who_am_i receive_balances receive_dispatch
ibc_packet_receive-keeps p deps packet s = ground arith
