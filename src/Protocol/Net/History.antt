-- ===== src/Protocol/Net/History.antt =====
-- What is known of every packet on its way: which step of the run sent it, which step answered it,
-- and how that answer was handled.
use cw_ibc_demo.Prelude.{
  ℕ, String, ◌≡◌, refl, ◌⊎◌, inl, inr, Option, none, some, List, ok, arith, ap, ◌∙◌, sym, subst,
  Outcome-cases,
}
use cw_ibc_demo.Std.{Binary, Env, SubMsg, Response}
use cw_ibc_demo.SimpleIca.Types.{PacketMsg, StdAck, error}
use cw_ibc_demo.Platform.{Platform, Deps}
use cw_ibc_demo.Controller.State as controller
use cw_ibc_demo.Controller.Ibc.{ibc_packet_ack}
use cw_ibc_demo.Controller.Ibc.Callback.{wanted, Calls, ibc_packet_ack-Calls}
use cw_ibc_demo.Controller.Ibc.Runs.{Call, step}
use cw_ibc_demo.Controller.Ibc.Runs.Known.{Elsewhere}
use cw_ibc_demo.Controller.Ibc.Runs.Sends.{packets_on, sends, Authentic, sends-Authentic}
use cw_ibc_demo.Host.Contract.{}
use cw_ibc_demo.Host.Contract.Replies.{}
use cw_ibc_demo.Host.Packet.{}
use cw_ibc_demo.Protocol.{carried, answered}
use cw_ibc_demo.Protocol.Runtime.{Chain, deliver}
use cw_ibc_demo.Protocol.Net.{
  Slot, idle, sent, expired, acked, done, Net, enqueue, Move, delivers, fails, expires, handles,
  Step, calls, hosts, moves, Reach, here, next,
}
use cw_ibc_demo.Protocol.Net.Slots.{put-at, enqueue-cases, enqueue-none}
use cw_ibc_demo.Protocol.Net.Ends.{Fits, Reach-Fits, silent, timeout_silent}
use cw_ibc_demo.Protocol.Net.Events.{
  Took, Sending, Receipt, Refusal, Took-elim, Receipt-elim, Refusal-error,
}

module _ {p : Platform} (src dest : String) (start : Net p) where
  -- The controller made the calls that the packet asks for, on the acknowledgement.
  abbrev pub Handled : Binary → Binary → List SubMsg → Type 0
  Handled bytes ack made =
      (m : PacketMsg) × (res : StdAck) × (p.packet.from_slice bytes ≡ ok m)
      × (p.ack.from_slice ack ≡ ok res)
      × Calls p res (wanted m) made

  -- What the chain of the host did when the packet was delivered.
  abbrev pub Returned : Binary → Binary → Deps → Chain → Net p → Type 0
  Returned bytes ack d w l = (deliver p d w (carried src dest bytes) l.host).0 ≡ ok ack

  ibc_packet_ack-Handled :
      (now : Env) (s : controller.State p) (bytes ack : Binary) {r : Response}
      → (ibc_packet_ack p now (answered (carried src dest bytes) ack) s).0 ≡ ok r
      → Handled bytes ack r.messages
  unfolding ibc_packet_ack
  ibc_packet_ack-Handled now s bytes ack {r} h = elim (Outcome-cases (p.packet.from_slice bytes)) [
    | inr failed ↦ absurd (ground arith)
    | inl (m, e) ↦ elim (Outcome-cases (p.ack.from_slice ack)) [
      | inr failed ↦ absurd (ground arith)
      | inl (res, e') ↦ (
        m,
        res,
        e,
        e',
        ibc_packet_ack-Calls p now (answered (carried src dest bytes) ack) s m res {r = r} e e' h,
      )
    ]
  ]

  -- The packet of a slot, if it has one.
  abbrev pub packet_of : Slot → Option Binary
  packet_of idle = none
  packet_of (sent bytes) = some bytes
  packet_of (expired bytes) = some bytes
  packet_of (acked bytes ack) = some bytes
  packet_of (done bytes ack made) = some bytes

  module _ (i : ℕ) where
    -- The call that sent the packet, in this run.
    abbrev pub Sent : {m : Net p} → Reach p src dest start m → Binary → Type 0
    Sent r bytes = Took (Sending i bytes (λ l c. Authentic p l.controller src c bytes)) r

    -- The packet was answered in this run, by an error of the chain or by what came of its delivery.
    abbrev pub Answered : {m : Net p} → Reach p src dest start m → Binary → Binary → Type 0
    Answered r bytes ack =
        Took (Refusal i bytes ack) r ⊎ Took (Receipt i bytes ack (Returned bytes ack)) r

    abbrev pub Accounted : {m : Net p} → Reach p src dest start m → Slot → Type 0
    Accounted r idle = Unit
    Accounted r (sent bytes) = Sent r bytes
    Accounted r (expired bytes) = Sent r bytes
    Accounted r (acked bytes ack) = Sent r bytes × Answered r bytes ack
    Accounted r (done bytes ack made) = Sent r bytes × Answered r bytes ack × Handled bytes ack made

    pub at_slot :
        {m : Net p} (r : Reach p src dest start m) {x y : Slot}
        → x ≡ y
        → Accounted r x
        → Accounted r y
    at_slot r e h = rw (← e) h

    still-Answered :
        {l m : Net p} (r : Reach p src dest start l) (st : Step p src dest l m) (bytes ack : Binary)
        → Answered r bytes ack
        → Answered (next r st) bytes ack
    still-Answered r st b a (inl refused) = inl (inl refused)
    still-Answered r st b a (inr received) = inr (inl received)

    later :
        {l m : Net p} (r : Reach p src dest start l) (st : Step p src dest l m) (x : Slot)
        → Accounted r x
        → Accounted (next r st) x
    later r st idle h = tt
    later r st (sent b) h = inl h
    later r st (expired b) h = inl h
    later r st (acked b a) h = (inl h.0, still-Answered r st b a h.1)
    later r st (done b a made) h = (inl h.0, still-Answered r st b a h.1, h.2)

    -- What is known of the slot of a move that is the one in question.
    moved :
        {l : Net p} (r : Reach p src dest start l) (j : ℕ) {x : Slot}
        → l.slot j ≡ x
        → j ≡ i
        → Accounted r (l.slot i)
        → Accounted r x
    moved {l} r j e same old = at_slot r (ap l.slot (sym same) ∙ e) old

    calls-Accounted :
        {l : Net p} (r : Reach p src dest start l) (fits : Fits l) (c : Call)
        (far : Elsewhere src c)
        → Accounted r (l.slot i)
        → Accounted (next r (calls c far)) (
            (enqueue
                (packets_on src (sends p l.controller c))
                (record l { controller = step p l.controller c })).slot
              i)
    calls-Accounted {l} r fits c far old =
        elim (enqueue-cases (Authentic p l.controller src c)
          (packets_on src (sends p l.controller c))
          (record l { controller = step p l.controller c }) i
          (sends-Authentic p l.controller c src)) [
            | inl same ↦
                at_slot (next r (calls c far)) (sym same) (later r (calls c far) (l.slot i) old)
            | inr (b, new, above, authentic) ↦
                at_slot (next r (calls c far)) (sym new) (inr (fits i above, new, authentic))
          ]

    Move-Accounted :
        {l m : Net p} (r : Reach p src dest start l)
        → Accounted r (l.slot i)
        → (mv : Move p src dest l m) → Accounted (next r (moves mv)) (m.slot i)
    Move-Accounted {l} r old (delivers j d w {bytes} {ack} e h) =
        let st = moves (delivers j d w {bytes = bytes} {ack = ack} e h) in
        put-at (Accounted (next r st)) l.slot j (acked bytes ack) i
          (λ same. (inl (moved r j e same old), inr (inr (same, refl, refl, ap (λ x. x.0) h))))
          (later r st (l.slot i) old)
    Move-Accounted {l} r old (fails j d w {bytes} {ack} {text} e f h) =
        let st = moves (fails j d w {bytes = bytes} {ack = ack} {text = text} e f h) in
        put-at (Accounted (next r st)) l.slot j (acked bytes ack) i
          (λ same. (inl (moved r j e same old), inl (inr (same, refl, refl, f, h))))
          (later r st (l.slot i) old)
    Move-Accounted {l} r old (expires j env {bytes} {r = x} e h) =
        let st = moves (expires j env {bytes = bytes} {r = x} e h) in
        at_slot (next r st)
          (sym (
            ap (λ n. n.slot i)
              (enqueue-none (packets_on src x.messages) _
                (timeout_silent p src dest env l.controller bytes h))))
          (put-at (Accounted (next r st)) l.slot j (expired bytes) i
            (λ same. inl (moved r j e same old)) (later r st (l.slot i) old))
    Move-Accounted {l} r old (handles j now {bytes} {ack} {r = x} e h) =
        let st = moves (handles j now {bytes = bytes} {ack = ack} {r = x} e h) in
        at_slot (next r st)
          (sym (
            ap (λ n. n.slot i)
              (enqueue-none (packets_on src x.messages) _
                (silent p src dest now l.controller bytes ack h))))
          (put-at (Accounted (next r st)) l.slot j (done bytes ack x.messages) i
            (λ same.
              let (by, answer) = moved r j e same old in
              (
                inl by,
                still-Answered r st bytes ack answer,
                ibc_packet_ack-Handled now l.controller bytes ack {r = x} h,
              ))
            (later r st (l.slot i) old))

    pub Reach-Accounted :
        {m : Net p}
        → ((j : ℕ) → start.slot j ≡ idle)
        → (r : Reach p src dest start m) → Accounted r (m.slot i)
    Reach-Accounted fresh here = at_slot here (sym (fresh i)) tt
    Reach-Accounted fresh (next r (calls c far)) =
        calls-Accounted r (Reach-Fits p src dest (λ j above. fresh j) r) c far
          (Reach-Accounted fresh r)
    Reach-Accounted fresh (next {m = l} r (hosts st far)) =
        later r (hosts st far) (l.slot i) (Reach-Accounted fresh r)
    Reach-Accounted fresh (next r (moves mv)) = Move-Accounted r (Reach-Accounted fresh r) mv

    Reach-Answered :
        {m : Net p} {bytes ack : Binary}
        → ((j : ℕ) → start.slot j ≡ idle)
        → (r : Reach p src dest start m) → m.slot i ≡ acked bytes ack
        → Answered r bytes ack
    Reach-Answered fresh r waits = (at_slot r waits (Reach-Accounted fresh r)).1

    -- What an acknowledgement that waits was answered with.
    pub answer_of :
        {m : Net p} {bytes ack : Binary}
        → ((j : ℕ) → start.slot j ≡ idle)
        → (r : Reach p src dest start m) → m.slot i ≡ acked bytes ack
        → ((text : String) × (p.ack.from_slice ack ≡ ok (error text)))
          ⊎ ((d : Deps) × (w : Chain) × (l : Net p) × Returned bytes ack d w l)
    answer_of {m} {bytes} {ack} fresh r waits = elim (Reach-Answered fresh r waits) [
      | inl refused ↦ inl (Took-elim _ _ (Refusal-error i bytes ack) r refused)
      | inr received ↦
          inr (Took-elim _ _ (Receipt-elim i bytes ack _ _ λ d w l h. (d, w, l, h)) r received)
    ]

    pub sender_of :
        {m : Net p} (r : Reach p src dest start m) (x : Slot) {bytes : Binary}
        → Accounted r x
        → packet_of x ≡ some bytes
        → Sent r bytes
    sender_of r idle h e = absurd (cc)
    sender_of r (sent b) h e = subst (Sent r) (ground arith) h
    sender_of r (expired b) h e = subst (Sent r) (ground arith) h
    sender_of r (acked b ack) h e = subst (Sent r) (ground arith) h.0
    sender_of r (done b ack made) h e = subst (Sent r) (ground arith) h.0
