-- ===== src/Protocol/Net/Refines.antt =====
-- The numbered packets are an implementation of the link, which knows of acknowledgements only.
use cw_ibc_demo.Prelude.{
  ℕ, String, ◌≡◌, refl, sym, ap, ◌∙◌, subst, none, some, List, [], ◌∷◌, All, ok, inl, inr,
}
use cw_ibc_demo.Std.{Binary}
use cw_ibc_demo.Platform.{Platform, Deps}
use cw_ibc_demo.Controller.Msg.{AccountData}
use cw_ibc_demo.Controller.Ibc.{ibc_packet_timeout}
use cw_ibc_demo.Controller.Ibc.Learns.{Knows}
use cw_ibc_demo.Controller.Ibc.Runs.Sends.{packets_on, sends}
use cw_ibc_demo.Host.State as host
use cw_ibc_demo.Host.Packet.{ibc_packet_receive}
use cw_ibc_demo.Host.Runs as runs
use cw_ibc_demo.Protocol.{carried}
use cw_ibc_demo.Protocol.Runtime.{Chain, deliver, deliver-parts}
use cw_ibc_demo.Protocol.Link as link
use cw_ibc_demo.Protocol.Link.{Link, Sent, first, later}
use cw_ibc_demo.Protocol.Link.Agreement.{Reach-agreed}
use cw_ibc_demo.Protocol.Net.{
  Slot, idle, sent, expired, acked, done, Net, put, enqueue, Apart, Move, delivers, fails, expires,
  handles, Step, calls, hosts, moves, Reach, here, next,
}
use cw_ibc_demo.Protocol.Net.Slots.{put-All, enqueue-All, enqueue-controller, enqueue-host}

-- The view of the net: its contracts, with these acknowledgements on their way.
abbrev pub link_of : {p : Platform} → Net p → List (Binary × Binary) → Link p
link_of l acks = record { controller = l.controller; host = l.host; acks = acks }

-- Every acknowledgement that waits in a slot is among them.
abbrev pub Among : List (Binary × Binary) → Slot → Type 0
Among acks idle = Unit
Among acks (sent bytes) = Unit
Among acks (expired bytes) = Unit
Among acks (acked bytes ack) = Sent bytes ack acks
Among acks (done bytes ack made) = Unit

abbrev pub Covers : {p : Platform} → List (Binary × Binary) → Net p → Type 0
Covers acks l = (i : ℕ) → Among acks (l.slot i)

Among-later :
    (x : Binary × Binary) (acks : List (Binary × Binary)) (y : Slot)
    → Among acks y
    → Among (x ∷ acks) y
Among-later x acks idle h = tt
Among-later x acks (sent b) h = tt
Among-later x acks (expired b) h = tt
Among-later x acks (acked b a) h = later h
Among-later x acks (done b a m) h = tt

All-idle : (acks : List (Binary × Binary)) (bs : List Binary) → All (λ b. Among acks (sent b)) bs
All-idle acks [] = tt
All-idle acks (b ∷ bs) = (tt, All-idle acks bs)

enqueue-Covers :
    {p : Platform} (acks : List (Binary × Binary)) (bs : List Binary) (l : Net p)
    → Covers acks l
    → Covers acks (enqueue bs l)
enqueue-Covers acks bs l h = enqueue-All (Among acks) bs l (All-idle acks bs) h

link_of-enqueue :
    {p : Platform} (acks : List (Binary × Binary)) (bs : List Binary) (l : Net p)
    → link_of (enqueue bs l) acks ≡ link_of l acks
link_of-enqueue acks bs l = rw (enqueue-controller bs l, enqueue-host bs l) refl

Apart-Keeps :
    {p : Platform} (k : String) {s t : host.State p} (st : runs.Step p s t)
    → Apart k st
    → runs.Keeps k st
Apart-Keeps k (runs.connects e m) h = tt
Apart-Keeps k (runs.closes d e m) h = h
Apart-Keeps k (runs.replied d r) h = tt
Apart-Keeps k (runs.receives d m) h = tt
Apart-Keeps k (runs.acknowledges m) h = tt
Apart-Keeps k (runs.times_out m) h = tt

module _ (p : Platform) (src dest : String) where
  -- Some steps of the link lead to the view of `m`, and what waits in `m` is covered.
  abbrev pub Follows : Link p → Net p → Type 0
  Follows a m =
      (acks : List (Binary × Binary)) × link.Reach p src dest a (link_of m acks) × Covers acks m

  delivered-Follows :
      (l : Net p) (acks : List (Binary × Binary)) (i : ℕ) (d : Deps) (w : Chain)
      (bytes ack : Binary) {t : host.State p}
      → Covers acks l
      → deliver p d w (carried src dest bytes) l.host ≡ (ok ack, t)
      → Follows (link_of l acks) (record l { host = t; slot = put l.slot i (acked bytes ack) })
  delivered-Follows l acks i d w bytes ack {t} covers e =
      let packet = carried src dest bytes in
      let seen = (ibc_packet_receive p d packet l.host).1 in
      let (r, received, rest) = deliver-parts p d w packet l.host ack (ap (λ x. x.0) e) in
      let whole : ibc_packet_receive p d packet l.host ≡ (ok r, seen) =
        ap (λ o. (o, seen)) received in
      let got : link.Reach p src dest (link_of l acks) (record {
        controller = l.controller;
        host = seen;
        acks = (bytes, r.acknowledgement) ∷ acks;
      }) =
        link.next link.here (link.receives d bytes whole) in
      let at_end : t ≡ (deliver p d w packet l.host).1 = ap (λ x. x.1) (sym e) in
      elim rest [
        | inl (same, state) ↦
            let more = (bytes, r.acknowledgement) ∷ acks in
            (
              more,
              subst
                  (λ h.
                    link.Reach p src dest (link_of l acks)
                      (record { controller = l.controller; host = h; acks = more }))
                  (sym (at_end ∙ state)) got,
              put-All (Among more) l.slot i (acked bytes ack)
                  (subst (λ a. Sent bytes a more) (sym same) first)
                  (λ j. Among-later _ acks (l.slot j) (covers j)),
            )
        | inr (sender, msgs, callback_id, again, decoded, state) ↦
            let more = (bytes, ack) ∷ (bytes, r.acknowledgement) ∷ acks in
            (
              more,
              subst
                  (λ h.
                    link.Reach p src dest (link_of l acks)
                      (record { controller = l.controller; host = h; acks = more }))
                  (sym (at_end ∙ state))
                  (link.next (link.next got (link.hosts (runs.replied d again) tt))
                    (link.replies decoded)),
              put-All (Among more) l.slot i (acked bytes ack) first
                  (λ j. Among-later _ _ (l.slot j) (Among-later _ acks (l.slot j) (covers j))),
            )
      ]

  -- An acknowledgement that waits in a slot is on its way in the view.
  waiting :
      (acks : List (Binary × Binary)) {x : Slot} (bytes ack : Binary)
      → x ≡ acked bytes ack
      → Among acks x
      → Sent bytes ack acks
  waiting acks bytes ack e h = rw e at h

  Move-Follows :
      {l m : Net p} (acks : List (Binary × Binary))
      → Covers acks l
      → Move p src dest l m
      → Follows (link_of l acks) m
  unfolding ibc_packet_timeout
  Move-Follows {l} acks covers (delivers i d w {bytes} {ack} e h) =
      delivered-Follows l acks i d w bytes ack covers h
  Move-Follows {l} acks covers (fails i d w {bytes} {ack} e f h) = (
    (bytes, ack) ∷ acks,
    link.next link.here (link.fails h),
    put-All (Among ((bytes, ack) ∷ acks)) l.slot i (acked bytes ack) first
        (λ j. Among-later _ acks (l.slot j) (covers j)),
  )
  Move-Follows {l} acks covers (expires i env {bytes} {r} e h) = (
    acks,
    subst (link.Reach p src dest (link_of l acks))
        (sym (link_of-enqueue acks (packets_on src r.messages) _)) link.here,
    enqueue-Covers acks (packets_on src r.messages) _
        (put-All (Among acks) l.slot i (expired bytes) tt covers),
  )
  Move-Follows {l} acks covers (handles i now {bytes} {ack} {r} e h) = (
    acks,
    subst (link.Reach p src dest (link_of l acks))
        (sym (link_of-enqueue acks (packets_on src r.messages) _))
        (link.next link.here (link.handles now (waiting acks bytes ack e (covers i)))),
    enqueue-Covers acks (packets_on src r.messages) _
        (put-All (Among acks) l.slot i (done bytes ack r.messages) tt covers),
  )

  -- The link follows a step of the net, perhaps in several steps.
  Step-Follows :
      {l m : Net p} (acks : List (Binary × Binary))
      → Covers acks l
      → Step p src dest l m
      → Follows (link_of l acks) m
  Step-Follows {l} acks covers (calls c far) = (
    acks,
    subst (link.Reach p src dest (link_of l acks))
        (sym (link_of-enqueue acks (packets_on src (sends p l.controller c)) _))
        (link.next link.here (link.calls c far)),
    enqueue-Covers acks (packets_on src (sends p l.controller c)) _ covers,
  )
  Step-Follows acks covers (hosts st far) =
      (acks, link.next link.here (link.hosts st (Apart-Keeps dest st far)), covers)
  Step-Follows acks covers (moves mv) = Move-Follows acks covers mv

  Reach-trans :
      {a b c : Link p}
      → link.Reach p src dest a b
      → link.Reach p src dest b c
      → link.Reach p src dest a c
  Reach-trans r link.here = r
  Reach-trans r (link.next q st) = link.next (Reach-trans r q) st

  -- Every run of the net is a run of the link: where the acknowledgements that wait at first are
  -- on their way in the link, the link reaches the same contracts by steps of its own, with every
  -- acknowledgement that waits then on its way.
  pub Reach-Follows :
      {l m : Net p} (acks : List (Binary × Binary))
      → Covers acks l
      → Reach p src dest l m
      → Follows (link_of l acks) m
  Reach-Follows acks covers here = (acks, link.here, covers)
  Reach-Follows acks covers (next r st) =
      let (between, reached, covered) = Reach-Follows acks covers r in
      let (after, steps, covered') = Step-Follows between covered st in
      (after, Reach-trans reached steps, covered')

  -- In a run of the net in which no packet is on its way at first and the controller knows no
  -- remote address for the channel, every remote address that it ever knows for the channel is the
  -- account that the host has for it at that time.
  pub Reach-agreed_net :
      {l m : Net p} (addr : String)
      → ((i : ℕ) → l.slot i ≡ idle)
      → ((a : AccountData) → p.get l.controller.accounts src ≡ some a → a.remote_addr ≡ none)
      → Reach p src dest l m
      → Knows p m.controller src addr
      → p.get m.host.accounts dest ≡ some addr
  Reach-agreed_net {l} addr fresh unknown reach knows =
      let (acks, steps, covered) =
        Reach-Follows [] (λ i. subst (Among []) (sym (fresh i)) tt) reach in
      Reach-agreed p src dest {l = link_of l []} addr refl unknown steps knows
