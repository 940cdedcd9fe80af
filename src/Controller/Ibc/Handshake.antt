-- ===== src/Controller/Ibc/Handshake.antt =====
-- ibc.rs of the controller: which channels are accepted, and what opening and closing one does.
use cw_ibc_demo.Prelude.{
  String, ◌≡◌, ◌↔◌, ◌⊎◌, inl, inr, Option-cases, ◌==◌, if◌then◌else◌, none, some, [], ◌∷◌, ok,
  arith, commit, eq_iff,
}
use cw_ibc_demo.Std.{Binary, IbcChannelMsg, Env, fire}
use cw_ibc_demo.SimpleIca.Types.{who_am_i, app_order, ibc_app_version}
use cw_ibc_demo.SimpleIca.Checks.{check_order-ok}
use cw_ibc_demo.Platform.{Platform}
use cw_ibc_demo.Controller.Msg.{default_account}
use cw_ibc_demo.Controller.State.{State}
use cw_ibc_demo.Controller.Contract.{send_packet}
use cw_ibc_demo.Controller.Ibc.{ibc_channel_open, ibc_channel_connect}

-- The controller accepts a channel exactly if it is unordered and asks for `simple-ica-v2`, and
-- the version of the other side, where it is known, is `simple-ica-v2` too.
pub ibc_channel_open-ok_iff :
    (m : IbcChannelMsg)
    → (ibc_channel_open m ≡ ok none) ↔ (
        (m.channel.order ≡ app_order)
        × (m.channel.version ≡ ibc_app_version)
        × ((m.counterparty_version ≡ none) ⊎ (m.counterparty_version ≡ some ibc_app_version)))
unfolding ibc_channel_open
ibc_channel_open-ok_iff m = elim (Option-cases m.counterparty_version) [
  | inl e ↦
      ground (arith, e, check_order-ok m.channel.order, eq_iff m.channel.version ibc_app_version)
  | inr (v, e) ↦ ground (
    arith,
    e,
    eq_iff v ibc_app_version,
    check_order-ok m.channel.order,
    eq_iff m.channel.version ibc_app_version,
  )
]

module _ (p : Platform) (env : Env) (m : IbcChannelMsg) (s : State p) where
  -- Connecting a channel sends one packet on it, which the other side reads as `WhoAmI` and which
  -- lives one hour; the channel's account is the empty one, and no other account changes.
  pub ibc_channel_connect-registers :
      (bytes : Binary)
      → p.packet.to_binary who_am_i ≡ ok bytes
      → let channel = m.channel.channel_id in
        let t = commit (ibc_channel_connect p env m) s in
        ((ibc_channel_connect p env m s).0
          ≡ ok (record {
            messages = fire (send_packet p env channel bytes) ∷ [];
            attributes = ("action", "ibc_connect") ∷ ("channel_id", channel) ∷ [];
            events = [];
            payload = none;
          }))
        × (p.packet.from_slice bytes ≡ ok who_am_i)
        × ((k : String)
            → p.get t.accounts k
              ≡ (if channel == k then some default_account else p.get s.accounts k))
  unfolding ibc_channel_connect
  ibc_channel_connect-registers bytes e = (
    ground arith,
    p.packet.round_trip who_am_i bytes e,
    λ k. ground (arith, p.get-save s.accounts m.channel.channel_id default_account k),
  )
