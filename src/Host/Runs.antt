-- ===== src/Host/Runs.antt =====
-- The host over time: any sequence of handshakes, packets and replies.
use cw_ibc_demo.Prelude.{String, ◌≡◌, ◌≢◌, ◌∙◌, some, commit, arith, eq-false_of_ne}
use cw_ibc_demo.Std.{Addr, Env, IbcChannelMsg, IbcPacket, Reply}
use cw_ibc_demo.Platform.{Platform, Deps}
use cw_ibc_demo.Host.State.{State}
use cw_ibc_demo.Host.Contract.{ibc_channel_connect, ibc_channel_close, reply}
use cw_ibc_demo.Host.Contract.Replies.{reply-keeps}
use cw_ibc_demo.Host.Packet.{ibc_packet_receive, ibc_packet_ack, ibc_packet_timeout}
use cw_ibc_demo.Host.Packet.Accounts.{ibc_packet_receive-keeps}

-- The steps of the host, with what the chain answers at that time.
pub data Step (p : Platform) (s : State p) : State p → Type 0 where
  connects : (e : Env) (m : IbcChannelMsg) → Step p s (commit (ibc_channel_connect p e m) s)
  closes :
      (d : Deps) (e : Env) (m : IbcChannelMsg) → Step p s (commit (ibc_channel_close p d e m) s)
  replied : (d : Deps) (r : Reply) → Step p s (commit (reply p d r) s)
  receives : (d : Deps) (m : IbcPacket) → Step p s (commit (ibc_packet_receive p d m) s)
  acknowledges : (m : IbcPacket) → Step p s (commit (ibc_packet_ack p m) s)
  times_out : (m : IbcPacket) → Step p s (commit (ibc_packet_timeout p m) s)

module _ {p : Platform} where
  -- The step does not close the channel.
  abbrev pub Keeps : String → {s t : State p} → Step p s t → Type 0
  Keeps k (connects e m) = Unit
  Keeps k (closes d e m) = m.channel.channel_id ≢ k
  Keeps k (replied d r) = Unit
  Keeps k (receives d m) = Unit
  Keeps k (acknowledges m) = Unit
  Keeps k (times_out m) = Unit

  -- States that are reached without closing the channel.
  pub data Reach (k : String) (s : State p) : State p → Type 0 where
    here : Reach k s s
    next : {t u : State p} → Reach k s t → (st : Step p t u) → Keeps k st → Reach k s u

  connect-keeps :
      (e : Env) (m : IbcChannelMsg) (s : State p)
      → (commit (ibc_channel_connect p e m) s).accounts ≡ s.accounts
  unfolding ibc_channel_connect
  connect-keeps e m s = ground arith

  close-keeps :
      (d : Deps) (e : Env) (m : IbcChannelMsg) (s : State p) (k : String)
      → m.channel.channel_id ≢ k
      → p.get (commit (ibc_channel_close p d e m) s).accounts k ≡ p.get s.accounts k
  unfolding ibc_channel_close
  close-keeps d e m s k ne = ground (
    arith,
    p.get-remove s.accounts m.channel.channel_id k,
    eq-false_of_ne m.channel.channel_id k ne,
  )

  pub account-Step :
      (k : String) (a : Addr) {s t : State p} (st : Step p s t)
      → Keeps k st
      → p.get s.accounts k ≡ some a
      → p.get t.accounts k ≡ some a
  unfolding ibc_packet_ack ibc_packet_timeout
  account-Step k a {s} (connects e m) n h = rw (connect-keeps e m s) h
  account-Step k a {s} (closes d e m) n h = close-keeps d e m s k n ∙ h
  account-Step k a {s} (replied d r) n h = (reply-keeps p d r s k a h).0
  account-Step k a {s} (receives d m) n h = rw (ibc_packet_receive-keeps p d m s).0 h
  account-Step k a (acknowledges m) n h = h
  account-Step k a (times_out m) n h = h

  -- Once a channel has its account, it has that account in every state that the host reaches
  -- without closing the channel, whatever else happens on this and the other channels.
  pub Reach-account :
      (k : String) (a : Addr) {s t : State p}
      → Reach k s t
      → p.get s.accounts k ≡ some a
      → p.get t.accounts k ≡ some a
  Reach-account k a here h = h
  Reach-account k a (next r st n) h = account-Step k a st n (Reach-account k a r h)
