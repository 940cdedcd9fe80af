-- ===== src/Protocol/Handshake.antt =====
-- The handshake: the two contracts agree on the channels that they accept.
use cw_ibc_demo.Prelude.{◌≡◌, String, none, some, ok, ap, inr, ◌∙◌, sym}
use cw_ibc_demo.Std.{IbcChannelMsg}
use cw_ibc_demo.Controller.Ibc as controller
use cw_ibc_demo.Controller.Ibc.Handshake.{ibc_channel_open-ok_iff}
use cw_ibc_demo.Host.Contract as host
use cw_ibc_demo.Host.Contract.Handshake.{ibc_channel_open-some_iff}

-- The step of the host's side that follows on `opening`: the same order, and the version of the
-- other side is known.
abbrev pub try_of : IbcChannelMsg → String → IbcChannelMsg
try_of opening channel_id = record {
  channel = record opening.channel { channel_id = channel_id };
  counterparty_version = some opening.channel.version;
}

-- A channel that the controller opens is accepted by the host, whose answer is the version that
-- the controller asked for.
pub open-try :
    (opening : IbcChannelMsg) (channel_id : String)
    → controller.ibc_channel_open opening ≡ ok none
    → host.ibc_channel_open (try_of opening channel_id)
      ≡ ok (some (record { version = opening.channel.version }))
open-try opening channel_id h =
    let (order, version, _) = (ibc_channel_open-ok_iff opening).0 h in
    (ibc_channel_open-some_iff (try_of opening channel_id)).1 (order, inr (ap some version))
    ∙ ap (λ v. ok (some (record { version = v }))) (sym version)
