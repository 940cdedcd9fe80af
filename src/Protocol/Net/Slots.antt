-- ===== src/Protocol/Net/Slots.antt =====
-- The slots of the packets: what holds of all of them is kept where it holds of what is put in.
use cw_ibc_demo.Prelude.{
  ℕ, suc, ◌≤◌, ◌≡◌, ◌⊎◌, ◌∙◌, arith, refl, ◌==ℕ◌, List, [], ◌∷◌, All, inl, inr, Bool-cases,
}
use cw_ibc_demo.Std.{Binary}
use cw_ibc_demo.Platform.{Platform}
use cw_ibc_demo.Protocol.Net.{Slot, sent, Net, put, enqueue}

module _ {κ} (P : Slot → Type κ) where
  pub put-All :
      (f : ℕ → Slot) (i : ℕ) (x : Slot) → P x → ((j : ℕ) → P (f j)) → (j : ℕ) → P (put f i x j)
  put-All f i x new old j = elim (Bool-cases (i ==ℕ j)) [
    | inl same ↦ rw same new
    | inr other ↦ rw other (old j)
  ]

  -- The same for one slot.
  pub put-at : (f : ℕ → Slot) (i : ℕ) (x : Slot) (j : ℕ) → (i ≡ j → P x) → P (f j) → P (put f i x j)
  put-at f i x j new old = elim (Bool-cases (i ==ℕ j)) [
    | inl same ↦ rw same (new (ground arith))
    | inr other ↦ rw other old
  ]

  pub enqueue-All :
      {p : Platform} (bs : List Binary) (l : Net p)
      → All (λ b. P (sent b)) bs
      → ((j : ℕ) → P (l.slot j))
      → (j : ℕ) → P ((enqueue bs l).slot j)
  unfolding enqueue
  enqueue-All [] l new old j = old j
  enqueue-All (b ∷ bs) l new old j =
      enqueue-All bs (record l { next = suc l.next; slot = put l.slot l.next (sent b) }) new.1
        (put-All l.slot l.next (sent b) new.0 old) j

-- One slot after new packets took the next numbers: it is as it was, or holds one of them.
pub enqueue-cases {κ} :
    {p : Platform} (Q : Binary → Type κ) (bs : List Binary) (l : Net p) (j : ℕ)
    → All Q bs
    → ((enqueue bs l).slot j ≡ l.slot j)
      ⊎ ((b : Binary) × ((enqueue bs l).slot j ≡ sent b) × (l.next ≤ j) × Q b)
unfolding enqueue
enqueue-cases Q [] l j h = inl refl
enqueue-cases Q (b ∷ bs) l j h =
    let l' = record l { next = suc l.next; slot = put l.slot l.next (sent b) } in
    elim (enqueue-cases Q bs l' j h.1) [
      | inr (c, is, above, good) ↦ inr (c, is, omega arith, good)
      | inl same ↦ elim (Bool-cases (l.next ==ℕ j)) [
        | inl here ↦ inr (b, same ∙ (rw here refl), ground arith, h.0)
        | inr other ↦ inl (same ∙ (rw other refl))
      ]
    ]

pub enqueue-controller :
    {p : Platform} (bs : List Binary) (l : Net p) → (enqueue bs l).controller ≡ l.controller
unfolding enqueue
enqueue-controller [] l = refl
enqueue-controller (b ∷ bs) l =
    enqueue-controller bs (record l { next = suc l.next; slot = put l.slot l.next (sent b) })

pub enqueue-host : {p : Platform} (bs : List Binary) (l : Net p) → (enqueue bs l).host ≡ l.host
unfolding enqueue
enqueue-host [] l = refl
enqueue-host (b ∷ bs) l =
    enqueue-host bs (record l { next = suc l.next; slot = put l.slot l.next (sent b) })

-- Where nothing is sent, nothing changes.
pub enqueue-none : {p : Platform} (bs : List Binary) (l : Net p) → bs ≡ [] → enqueue bs l ≡ l
unfolding enqueue
enqueue-none [] l h = refl
enqueue-none (b ∷ bs) l h = absurd (cc)
