-- ===== src/Protocol/Net.antt =====
-- The two contracts with the packets between them: each packet is numbered when the controller
-- sends it, is received by the host or expires, and its acknowledgement is handled once.
pub mod Slots
pub mod Events
pub mod History
pub mod Outcomes
pub mod Callers
pub mod Refines
pub mod Ends
pub mod Unchanged
pub mod Handles
use cw_ibc_demo.Prelude.{
  ℕ, suc, String, ◌≡◌, ◌≢◌, ◌==ℕ◌, if◌then◌else◌, List, [], ◌∷◌, Outcome, ok, Failed, commit,
}
use cw_ibc_demo.Std.{Binary, Env, SubMsg, Response}
use cw_ibc_demo.SimpleIca.Types.{error}
use cw_ibc_demo.Platform.{Platform, Deps}
use cw_ibc_demo.Controller.State as controller
use cw_ibc_demo.Controller.Ibc.{ibc_packet_ack, ibc_packet_timeout}
use cw_ibc_demo.Controller.Ibc.Runs.{Call, step}
use cw_ibc_demo.Controller.Ibc.Runs.Known.{Elsewhere}
use cw_ibc_demo.Controller.Ibc.Runs.Sends.{packets_on, sends}
use cw_ibc_demo.Host.State as host
use cw_ibc_demo.Host.Runs as runs
use cw_ibc_demo.Protocol.{carried, answered}
use cw_ibc_demo.Protocol.Runtime.{Chain, deliver}

-- What has become of the packet of a number: `done` keeps the messages with which the controller
-- handled the acknowledgement.
pub data Slot : Type 0 where
  idle : Slot
  sent expired : (bytes : Binary) → Slot
  acked : (bytes ack : Binary) → Slot
  done : (bytes ack : Binary) → (calls : List SubMsg) → Slot

pub record Net (p : Platform) : Type 0 where
  pub controller : controller.State p
  pub host : host.State p
  pub next : ℕ
  pub slot : ℕ → Slot

abbrev pub put : (ℕ → Slot) → ℕ → Slot → ℕ → Slot
put f i x j = if i ==ℕ j then x else f j

-- New packets take the next numbers.
unfoldable pub enqueue : {p : Platform} → List Binary → Net p → Net p
enqueue [] l = l
enqueue (b ∷ bs) l = enqueue bs (record l { next = suc l.next; slot = put l.slot l.next (sent b) })

-- The step of the host is not about this channel: it neither closes it nor receives a packet of it.
abbrev pub Apart : {p : Platform} → String → {s t : host.State p} → runs.Step p s t → Type 0
Apart k (runs.connects e m) = Unit
Apart k (runs.closes d e m) = m.channel.channel_id ≢ k
Apart k (runs.replied d r) = Unit
Apart k (runs.receives d m) = m.dest_channel ≢ k
Apart k (runs.acknowledges m) = Unit
Apart k (runs.times_out m) = Unit

-- What happens to a packet on its way.
pub data Move (p : Platform) (src dest : String) (l : Net p) : Net p → Type 0 where
  -- the host receives the packet, and all that follows from it is one transaction
  delivers :
      (i : ℕ) (d : Deps) (w : Chain) {bytes ack : Binary} {t : host.State p}
      → l.slot i ≡ sent bytes
      → deliver p d w (carried src dest bytes) l.host ≡ (ok ack, t)
      → Move p src dest l (record l { host = t; slot = put l.slot i (acked bytes ack) })
  -- the transaction fails: the chain acknowledges the packet with an error
  fails :
      (i : ℕ) (d : Deps) (w : Chain) {bytes ack : Binary} {text : String}
      → l.slot i ≡ sent bytes
      → Failed (deliver p d w (carried src dest bytes) l.host).0
      → p.ack.from_slice ack ≡ ok (error text)
      → Move p src dest l (record l { slot = put l.slot i (acked bytes ack) })
  -- nobody received it in time, which the controller is told; what it sends then is sent
  expires :
      (i : ℕ) (e : Env) {bytes : Binary} {r : Response}
      → l.slot i ≡ sent bytes
      → (ibc_packet_timeout p e (carried src dest bytes) l.controller).0 ≡ ok r
      → Move p src dest l (
          enqueue (packets_on src r.messages) (record l {
            controller = commit (ibc_packet_timeout p e (carried src dest bytes)) l.controller;
            slot = put l.slot i (expired bytes);
          }))
  -- the controller handles the acknowledgement; a call that fails changes nothing and is tried
  -- again
  handles :
      (i : ℕ) (now : Env) {bytes ack : Binary} {r : Response}
      → l.slot i ≡ acked bytes ack
      → (ibc_packet_ack p now (answered (carried src dest bytes) ack) l.controller).0 ≡ ok r
      → Move p src dest l (
          enqueue (packets_on src r.messages) (record l {
            controller =
                commit (ibc_packet_ack p now (answered (carried src dest bytes) ack)) l.controller;
            slot = put l.slot i (done bytes ack r.messages);
          }))

pub data Step (p : Platform) (src dest : String) (l : Net p) : Net p → Type 0 where
  -- a call of the controller that is no acknowledgement on this channel; its packets are sent
  calls :
      (c : Call)
      → Elsewhere src c
      → Step p src dest l (
          enqueue
            (packets_on src (sends p l.controller c))
            (record l { controller = step p l.controller c }))
  hosts :
      {t : host.State p} (st : runs.Step p l.host t)
      → Apart dest st
      → Step p src dest l (record l { host = t })
  moves : {m : Net p} → Move p src dest l m → Step p src dest l m

pub data Reach (p : Platform) (src dest : String) (l : Net p) : Net p → Type 0 where
  here : Reach p src dest l l
  next : {m n : Net p} → Reach p src dest l m → Step p src dest m n → Reach p src dest l n
