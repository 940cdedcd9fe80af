-- ===== src/Protocol/Net/Ends.antt =====
-- The packets come to rest: without further calls of the controller, nothing goes on for ever.
use cw_ibc_demo.Prelude.{
  ℕ, zero, suc, String, ◌+◌, ◌*◌, ◌≤◌, ◌<◌, ◌≡◌, refl, ap, sym, ◌∙◌, ◌==ℕ◌, List, [], ◌∷◌, ok,
  arith, inl, inr, Bool-cases, false,
}
use native.Mathlib.Decide.{dec_lt}
use cw_ibc_demo.Std.{Binary, Env, Response}
use cw_ibc_demo.Platform.{Platform}
use cw_ibc_demo.Controller.State as controller
use cw_ibc_demo.Controller.Ibc.{ibc_packet_ack, ibc_packet_timeout}
use cw_ibc_demo.Controller.Ibc.Runs.Sends.{
  packets_on, messages_of, ibc_packet_ack-silent, ibc_packet_timeout-silent,
}
use cw_ibc_demo.Protocol.{carried, answered}
use cw_ibc_demo.Protocol.Net.{
  Slot, idle, sent, expired, acked, done, Net, put, enqueue, Move, delivers, fails, expires,
  handles, calls, hosts, moves, Reach, here, next,
}
use cw_ibc_demo.Protocol.Net.Slots.{enqueue-none}

-- The moves that are left for a packet.
abbrev pub left : Slot → ℕ
left idle = 0
left (sent bytes) = 2
left (expired bytes) = 0
left (acked bytes ack) = 1
left (done bytes ack made) = 0

pub total : ℕ → (ℕ → Slot) → ℕ
total zero f = 0
total (suc n) f = left (f n) + total n f

total-le : (n : ℕ) (f : ℕ → Slot) → total n f ≤ 2 * n
unfolding total
total-le zero f = omega arith
total-le (suc n) f = omega (arith, total-le n f, left-le (f n))
  where
    left-le : (x : Slot) → left x ≤ 2
    left-le idle = omega arith
    left-le (sent b) = omega arith
    left-le (expired b) = omega arith
    left-le (acked b a) = omega arith
    left-le (done b a m) = omega arith

total-put_ge : (n i : ℕ) (f : ℕ → Slot) (x : Slot) → n ≤ i → total n (put f i x) ≡ total n f
unfolding total
total-put_ge zero i f x h = refl
total-put_ge (suc n) i f x h = ground (arith, total-put_ge n i f x)

total-put :
    (n i : ℕ) (f : ℕ → Slot) (x : Slot)
    → i < n
    → total n (put f i x) + left (f i) ≡ total n f + left x
unfolding total
total-put zero i f x h = absurd (omega arith)
total-put (suc n) i f x h = elim (Bool-cases (i ==ℕ n)) [
  | inl same ↦ let e : i ≡ n = ground arith in rw e (ground (arith, total-put_ge n n f x))
  | inr other ↦ ground (arith, total-put n i f x)
]

module _ {p : Platform} where
  -- Numbers that were not given out have no packet.
  abbrev pub Fits : Net p → Type 0
  Fits l = (i : ℕ) → l.next ≤ i → l.slot i ≡ idle

  abbrev pub pending : Net p → ℕ
  pending l = total l.next l.slot

  -- A move of the packet of a slot takes one of the moves that are left for it.
  put-pending :
      (l : Net p) (i : ℕ) (x : Slot)
      → Fits l
      → left x < left (l.slot i)
      → (total l.next (put l.slot i x) < total l.next l.slot)
        × ((j : ℕ) → l.next ≤ j → put l.slot i x j ≡ idle)
  put-pending l i x fits less = elim (dec_lt i l.next) [
    | no above ↦ absurd (omega (arith, ap left (fits i (omega arith))))
    | yes below ↦ (
      omega (arith, total-put l.next i l.slot x below),
      λ j h. let other : (i ==ℕ j) ≡ false = ground arith in rw other (fits j h),
    )
  ]

module _ (p : Platform) (src dest : String) where
  -- A number of moves, one after the other.
  pub data Work (l : Net p) : ℕ → Net p → Type 0 where
    rest : Work l 0 l
    work : {k : ℕ} {m n : Net p} → Work l k m → Move p src dest m n → Work l (suc k) n

  pub silent :
      (now : Env) (s : controller.State p) (bytes ack : Binary) {r : Response}
      → (ibc_packet_ack p now (answered (carried src dest bytes) ack) s).0 ≡ ok r
      → packets_on src r.messages ≡ []
  silent now s bytes ack h =
      ap (λ o. packets_on src (messages_of o)) (sym h)
      ∙ ibc_packet_ack-silent p now (answered (carried src dest bytes) ack) s src

  pub timeout_silent :
      (now : Env) (s : controller.State p) (bytes : Binary) {r : Response}
      → (ibc_packet_timeout p now (carried src dest bytes) s).0 ≡ ok r
      → packets_on src r.messages ≡ []
  timeout_silent now s bytes h =
      ap (λ o. packets_on src (messages_of o)) (sym h)
      ∙ ibc_packet_timeout-silent p now (carried src dest bytes) s src

  Move-pending :
      {l m : Net p}
      → Move p src dest l m
      → Fits l
      → (pending m < pending l) × (m.next ≡ l.next) × Fits m
  Move-pending {l} (delivers i d w {bytes} {ack} e h) fits =
      let (less, still) = put-pending l i (acked bytes ack) fits (omega (arith, ap left e)) in
      (less, refl, still)
  Move-pending {l} (fails i d w {bytes} {ack} e f h) fits =
      let (less, still) = put-pending l i (acked bytes ack) fits (omega (arith, ap left e)) in
      (less, refl, still)
  Move-pending {l} (expires i env {bytes} {r} e h) fits =
      let (less, still) = put-pending l i (expired bytes) fits (omega (arith, ap left e)) in
      rw (enqueue-none (packets_on src r.messages) _ (timeout_silent env l.controller bytes h))
        (less, refl, still)
  Move-pending {l} (handles i now {bytes} {ack} {r} e h) fits =
      let (less, still) =
        put-pending l i (done bytes ack r.messages) fits (omega (arith, ap left e)) in
      rw (enqueue-none (packets_on src r.messages) _ (silent now l.controller bytes ack h))
        (less, refl, still)

  Work-pending :
      {l m : Net p} {k : ℕ}
      → Fits l
      → Work l k m
      → (k + pending m ≤ pending l) × (m.next ≡ l.next) × Fits m
  Work-pending fits rest = (omega arith, refl, fits)
  Work-pending fits (work w mv) =
      let (bound, same, between) = Work-pending fits w in
      let (less, same', after) = Move-pending mv between in (omega arith, same' ∙ same, after)

  enqueue-Fits : (bs : List Binary) (l : Net p) → Fits l → Fits (enqueue bs l)
  unfolding enqueue
  enqueue-Fits [] l h = h
  enqueue-Fits (b ∷ bs) l h =
      enqueue-Fits bs (record l { next = suc l.next; slot = put l.slot l.next (sent b) })
        λ j above. let other : (l.next ==ℕ j) ≡ false = ground arith in rw other (h j (omega arith))

  pub Reach-Fits : {l m : Net p} → Fits l → Reach p src dest l m → Fits m
  Reach-Fits fits here = fits
  Reach-Fits fits (next r (calls c far)) = enqueue-Fits _ _ (Reach-Fits fits r)
  Reach-Fits fits (next r (hosts st far)) = Reach-Fits fits r
  Reach-Fits fits (next r (moves mv)) = (Move-pending mv (Reach-Fits fits r)).2

  -- The contracts never keep each other busy: in a run of the net in which no packet is on its way
  -- at first, from every state that is reached, the deliveries, expiries and acknowledgements that
  -- can follow one another, in any order, are at most as many as are left, which are at most two
  -- for each packet sent so far, and on none of them does the controller send a
  -- new packet.
  pub Work-le :
      {start l m : Net p} {k : ℕ}
      → ((i : ℕ) → start.slot i ≡ idle)
      → Reach p src dest start l
      → Work l k m
      → (k + pending m ≤ pending l) × (pending l ≤ 2 * l.next) × (m.next ≡ l.next)
  Work-le {l = l} fresh reach w =
      let (bound, same, fits) = Work-pending (Reach-Fits (λ i above. fresh i) reach) w in
      (bound, total-le l.next l.slot, same)
