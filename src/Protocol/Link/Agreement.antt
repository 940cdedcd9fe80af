-- ===== src/Protocol/Link/Agreement.antt =====
-- The controller and the host agree on the account of the channel.
use cw_ibc_demo.Prelude.{
  String, ◌≡◌, sym, ap, ◌∙◌, none, some, List, [], ◌∷◌, ok, keep, inl, inr, arith, Option,
}
use cw_ibc_demo.Std.{Binary, CosmosMsg, IbcReceiveResponse}
use cw_ibc_demo.SimpleIca.Types.{PacketMsg, dispatch, error, StdAck}
use cw_ibc_demo.Platform.{Platform, Deps}
use cw_ibc_demo.Controller.Msg.{AccountData}
use cw_ibc_demo.Controller.Ibc.Learns.{Names, as_who, as_balances, Knows, ibc_packet_ack-Learns}
use cw_ibc_demo.Controller.Ibc.Runs.Known.{step-Knows}
use cw_ibc_demo.Host.State as host
use cw_ibc_demo.Host.Runs.{account-Step}
use cw_ibc_demo.Host.Packet.{ibc_packet_receive}
use cw_ibc_demo.Host.Packet.Accounts.{ibc_packet_receive-keeps}
use cw_ibc_demo.Host.Packet.Acks.{ibc_packet_receive-who_am_i, ibc_packet_receive-balances}
use cw_ibc_demo.Protocol.{carried, answered}
use cw_ibc_demo.Protocol.Link.{
  Link, Sent, first, later, Step, calls, hosts, receives, replies, fails, handles, Reach, here,
  next,
}

module _ (p : Platform) (src dest : String) where
  -- The host has the account for the channel.
  abbrev pub Has : host.State p → String → Type 0
  Has h addr = p.get h.accounts dest ≡ some addr

  -- If the acknowledgement names an address, that is the host's account of the channel.
  abbrev pub Truthful : host.State p → Binary → Binary → Type 0
  Truthful h bytes b =
      (addr : String) (packet : PacketMsg) (res : StdAck)
      → p.packet.from_slice bytes ≡ ok packet
      → p.ack.from_slice b ≡ ok res
      → Names p addr packet res
      → Has h addr

  -- All acknowledgements are truthful, and an address that the controller knows is the host's
  -- account.
  pub record Agree (l : Link p) : Type 0 where
    pub truthful : (bytes b : Binary) → Sent bytes b l.acks → Truthful l.host bytes b
    pub agreed : (addr : String) → Knows p l.controller src addr → Has l.host addr

  received-Truthful :
      (d : Deps) (h : host.State p) (bytes : Binary) {r : IbcReceiveResponse}
      → (ibc_packet_receive p d (carried src dest bytes) h).0 ≡ ok r
      → Truthful h bytes r.acknowledgement
  received-Truthful d h bytes {r} e addr _ _ decoded read (as_who {res} {r = w} who same) =
      let (account, found, (res', read', says)) =
        ibc_packet_receive-who_am_i p d (carried src dest bytes) h {r = r} decoded e in
      ground arith
  received-Truthful d h bytes {r} e addr _ _ decoded read (as_balances {res} {r = w} balance same) =
      let (account, coins, found, asked, (res', read', says)) =
        ibc_packet_receive-balances p d (carried src dest bytes) h {r = r} decoded e in
      ground arith

  replied-Truthful :
      (h : host.State p) {bytes b : Binary} {sender : String} {msgs : List CosmosMsg}
      {callback_id : Option String}
      → p.packet.from_slice bytes ≡ ok (dispatch sender msgs callback_id)
      → Truthful h bytes b
  replied-Truthful h e addr _ _ decoded read (as_who who same) = absurd (ground arith)
  replied-Truthful h e addr _ _ decoded read (as_balances balance same) = absurd (ground arith)

  failed-Truthful :
      (h : host.State p) {bytes b : Binary} {text : String}
      → p.ack.from_slice b ≡ ok (error text)
      → Truthful h bytes b
  failed-Truthful h e addr _ _ decoded read (as_who who same) = absurd (ground arith)
  failed-Truthful h e addr _ _ decoded read (as_balances balance same) = absurd (ground arith)

  -- What the host has it still has, so the acknowledgements on their way stay truthful.
  Agree-host :
      {l : Link p} {t : host.State p}
      → ((addr : String) → Has l.host addr → Has t addr)
      → Agree l
      → Agree (record l { host = t })
  Agree-host keeps inv = record {
    truthful = λ bytes b sent addr packet res e e' names.
        keeps addr (inv.truthful bytes b sent addr packet res e e' names);
    agreed = λ addr knows. keeps addr (inv.agreed addr knows);
  }

  Agree-ack :
      {l : Link p} {bytes b : Binary}
      → Truthful l.host bytes b
      → Agree l
      → Agree (record l { acks = (bytes, b) ∷ l.acks })
  Agree-ack {l} {bytes} {b} new inv = record { truthful = each; agreed = inv.agreed }
    where
      each : (bytes' b' : Binary) → Sent bytes' b' ((bytes, b) ∷ l.acks) → Truthful l.host bytes' b'
      each _ _ first = new
      each bytes' b' (later sent) = inv.truthful bytes' b' sent

  received-accounts :
      (d : Deps) (h t : host.State p) (bytes : Binary) {r : IbcReceiveResponse}
      → ibc_packet_receive p d (carried src dest bytes) h ≡ (ok r, t)
      → t.accounts ≡ h.accounts
  received-accounts d h t bytes e =
      ap (λ x. (keep h x).accounts) (sym e)
      ∙ (ibc_packet_receive-keeps p d (carried src dest bytes) h).0

  Step-Agree : {l m : Link p} → Step p src dest l m → Agree l → Agree m
  Step-Agree {l} (calls c far) inv = record {
    truthful = inv.truthful;
    agreed = λ addr knows. inv.agreed addr (step-Knows p l.controller c src addr far knows);
  }
  Step-Agree (hosts st stays) inv = Agree-host (λ addr has. account-Step dest addr st stays has) inv
  Step-Agree {l} (receives d bytes {r} {t} e) inv =
      let same = received-accounts d l.host t bytes {r = r} e in
      let moved = Agree-host (λ addr has. rw (← same) at has) inv in
      let new = received-Truthful d l.host bytes {r = r} (ap (λ x. x.0) e) in
      Agree-ack (λ addr packet res e₁ e₂ names. rw (← same) at (new addr packet res e₁ e₂ names))
        moved
  Step-Agree {l} (replies e) inv = Agree-ack (replied-Truthful l.host e) inv
  Step-Agree {l} (fails e) inv = Agree-ack (failed-Truthful l.host e) inv
  Step-Agree {l} (handles now {bytes} {b} sent) inv = record {
    truthful = inv.truthful;
    agreed = λ addr knows.
        elim (ibc_packet_ack-Learns p now (answered (carried src dest bytes) b) l.controller addr
          knows) [
            | inl before ↦ inv.agreed addr before
            | inr (packet, res, e, read, names) ↦
                inv.truthful bytes b sent addr packet res e read names
          ];
  }

  pub Reach-Agree : {l m : Link p} → Reach p src dest l m → Agree l → Agree m
  Reach-Agree here inv = inv
  Reach-Agree (next reach st) inv = Step-Agree st (Reach-Agree reach inv)

  none-Sent : {bytes b : Binary} → Sent bytes b [] → ⊥
  none-Sent sent = elim sent [ ]

  pub Agree-fresh :
      {l : Link p}
      → l.acks ≡ []
      → ((a : AccountData) → p.get l.controller.accounts src ≡ some a → a.remote_addr ≡ none)
      → Agree l
  Agree-fresh {l} empty unknown = record {
    truthful = λ bytes b sent. absurd (none-Sent (rw empty at sent));
    agreed = λ addr (a, found, known). absurd (ground (arith, unknown a found));
  }

  -- Whatever the two contracts do, in whatever order, while the host does not close the channel:
  -- if at first no packet of the channel is acknowledged and the controller knows no remote
  -- address for it, then every remote address that the controller ever knows for the channel is
  -- the account that the host has for it at that time.
  pub Reach-agreed :
      {l m : Link p} (addr : String)
      → l.acks ≡ []
      → ((a : AccountData) → p.get l.controller.accounts src ≡ some a → a.remote_addr ≡ none)
      → Reach p src dest l m
      → Knows p m.controller src addr
      → p.get m.host.accounts dest ≡ some addr
  Reach-agreed addr empty unknown reach knows =
      (Reach-Agree reach (Agree-fresh empty unknown)).agreed addr knows
