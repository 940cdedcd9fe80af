-- ===== src/Protocol/Net/Events.antt =====
-- What happened in a run of the net: the steps that it took, and the packets they were about.
use cw_ibc_demo.Prelude.{ℕ, String, ◌≡◌, ◌⊎◌, inl, inr, ok, Failed}
use cw_ibc_demo.Std.{Binary}
use cw_ibc_demo.SimpleIca.Types.{error}
use cw_ibc_demo.Platform.{Platform, Deps}
use cw_ibc_demo.Controller.Ibc.Runs.{Call}
use cw_ibc_demo.Protocol.{carried}
use cw_ibc_demo.Protocol.Runtime.{Chain, deliver}
use cw_ibc_demo.Protocol.Net.{
  idle, sent, Net, delivers, fails, expires, handles, Step, calls, hosts, moves, Reach, here, next,
}

module _ {p : Platform} {src dest : String} where
  -- A step of the run is a `P`.
  abbrev pub Took :
      {start : Net p}
      → ((l n : Net p) → Step p src dest l n → Type 0)
      → {m : Net p} → Reach p src dest start m
      → Type 0
  Took P here = ⊥
  Took P (next {m} {n} r st) = Took P r ⊎ P m n st

  -- The step is a call of the controller that makes `bytes` the packet of number `i`, and the call
  -- and the net before it are a `Q`.
  abbrev pub Sending :
      ℕ → Binary → (Net p → Call → Type 0) → (l n : Net p) → Step p src dest l n → Type 0
  Sending i bytes Q l n (calls c far) = (l.slot i ≡ idle) × (n.slot i ≡ sent bytes) × Q l c
  Sending i bytes Q l n (hosts st far) = ⊥
  Sending i bytes Q l n (moves mv) = ⊥

  -- The step is the delivery of the packet of number `i`, the bytes of which are `bytes` and which
  -- is acknowledged by `ack`; what the chain answers to the contract, what it makes of the messages,
  -- and the net before it are a `Q`.
  abbrev pub Receipt :
      ℕ
      → Binary
      → Binary
      → (Deps → Chain → Net p → Type 0)
      → (l n : Net p) → Step p src dest l n
      → Type 0
  Receipt i bytes ack Q l n (calls c far) = ⊥
  Receipt i bytes ack Q l n (hosts st far) = ⊥
  Receipt i bytes ack Q l n (moves (delivers j d w {bytes = b} {ack = a} e h)) =
      (j ≡ i) × (b ≡ bytes) × (a ≡ ack) × Q d w l
  Receipt i bytes ack Q l n (moves (fails j d w e f h)) = ⊥
  Receipt i bytes ack Q l n (moves (expires j env e h)) = ⊥
  Receipt i bytes ack Q l n (moves (handles j now e h)) = ⊥

  -- The step is a delivery of the packet of number `i` that fails, and `ack` is the error with
  -- which the chain answers it.
  abbrev pub Refusal : ℕ → Binary → Binary → (l n : Net p) → Step p src dest l n → Type 0
  Refusal i bytes ack l n (calls c far) = ⊥
  Refusal i bytes ack l n (hosts st far) = ⊥
  Refusal i bytes ack l n (moves (delivers j d w e h)) = ⊥
  Refusal i bytes ack l n (moves (fails j d w {bytes = b} {ack = a} {text = text} e f h)) =
      (j ≡ i)
      × (b ≡ bytes)
      × (a ≡ ack)
      × Failed (deliver p d w (carried src dest bytes) l.host).0
      × (p.ack.from_slice ack ≡ ok (error text))
  Refusal i bytes ack l n (moves (expires j env e h)) = ⊥
  Refusal i bytes ack l n (moves (handles j now e h)) = ⊥

  pub Took-map :
      {start : Net p} (P Q : (l n : Net p) → Step p src dest l n → Type 0)
      → ((l n : Net p) (st : Step p src dest l n) → P l n st → Q l n st)
      → {m : Net p} (r : Reach p src dest start m) → Took P r
      → Took Q r
  Took-map P Q f here h = h
  Took-map P Q f (next {m} {n} r st) (inl old) = inl (Took-map P Q f r old)
  Took-map P Q f (next {m} {n} r st) (inr new) = inr (f m n st new)

  -- What the steps of a kind have in common is had by a run that took one.
  pub Took-elim :
      {start : Net p} (P : (l n : Net p) → Step p src dest l n → Type 0) (A : Type 0)
      → ((l n : Net p) (st : Step p src dest l n) → P l n st → A)
      → {m : Net p} (r : Reach p src dest start m) → Took P r
      → A
  Took-elim P A f here h = absurd h
  Took-elim P A f (next {m} {n} r st) (inl old) = Took-elim P A f r old
  Took-elim P A f (next {m} {n} r st) (inr new) = f m n st new

  module _ (i : ℕ) (bytes : Binary) where
    pub Sending-map :
        (Q Q' : Net p → Call → Type 0)
        → ((l : Net p) (c : Call) → Q l c → Q' l c)
        → (l n : Net p) (st : Step p src dest l n) → Sending i bytes Q l n st
        → Sending i bytes Q' l n st
    Sending-map Q Q' f l n (calls c far) h = (h.0, h.1, f l c h.2)
    Sending-map Q Q' f l n (hosts st far) h = h
    Sending-map Q Q' f l n (moves mv) h = h

    module _ (ack : Binary) where
      pub Receipt-map :
          (Q Q' : Deps → Chain → Net p → Type 0)
          → ((d : Deps) (w : Chain) (l : Net p) → Q d w l → Q' d w l)
          → (l n : Net p) (st : Step p src dest l n) → Receipt i bytes ack Q l n st
          → Receipt i bytes ack Q' l n st
      Receipt-map Q Q' f l n (calls c far) h = h
      Receipt-map Q Q' f l n (hosts st far) h = h
      Receipt-map Q Q' f l n (moves (delivers j d w e k)) h = (h.0, h.1, h.2, f d w l h.3)
      Receipt-map Q Q' f l n (moves (fails j d w e g k)) h = h
      Receipt-map Q Q' f l n (moves (expires j env e k)) h = h
      Receipt-map Q Q' f l n (moves (handles j now e k)) h = h

      pub Refusal-error :
          (l n : Net p) (st : Step p src dest l n)
          → Refusal i bytes ack l n st
          → (text : String) × (p.ack.from_slice ack ≡ ok (error text))
      Refusal-error l n (calls c far) h = absurd h
      Refusal-error l n (hosts st far) h = absurd h
      Refusal-error l n (moves (delivers j d w e k)) h = absurd h
      Refusal-error l n (moves (fails j d w {bytes = b} {ack = a} {text = text} e f k)) h =
          (text, h.4)
      Refusal-error l n (moves (expires j env e k)) h = absurd h
      Refusal-error l n (moves (handles j now e k)) h = absurd h

      -- Where a packet was delivered, what is known of its delivery.
      pub Receipt-elim :
          (Q : Deps → Chain → Net p → Type 0) (A : Type 0)
          → ((d : Deps) (w : Chain) (l : Net p) → Q d w l → A)
          → (l n : Net p) (st : Step p src dest l n) → Receipt i bytes ack Q l n st
          → A
      Receipt-elim Q A f l n (calls c far) h = absurd h
      Receipt-elim Q A f l n (hosts st far) h = absurd h
      Receipt-elim Q A f l n (moves (delivers j d w e k)) h = f d w l h.3
      Receipt-elim Q A f l n (moves (fails j d w e g k)) h = absurd h
      Receipt-elim Q A f l n (moves (expires j env e k)) h = absurd h
      Receipt-elim Q A f l n (moves (handles j now e k)) h = absurd h
