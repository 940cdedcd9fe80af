-- ===== src/SimpleIca/Ack/RoundTrip.antt =====
-- An acknowledgement that one side builds is read back by the other.
use cw_ibc_demo.Prelude.{◌≡◌, ok, inl, inr, arith, Outcome-cases}
use cw_ibc_demo.Std.{Binary}
use cw_ibc_demo.SimpleIca.Types.{StdAck, result}
use cw_ibc_demo.SimpleIca.Ack.{success, unwrap_into}
use cw_ibc_demo.Platform.{Platform, Codec}

module _ (p : Platform) {E : Type 0} where
  pub success-parts :
      {T : Type 0} (c : Codec T) (x : T) (b : Binary)
      → success p {E = E} c x ≡ ok b
      → (res : Binary) × (c.to_binary x ≡ ok res) × (p.ack.to_binary (result res) ≡ ok b)
  success-parts c x b h = elim (Outcome-cases (c.to_binary x)) [
    | inr failed ↦ absurd (ground arith)
    | inl (res, e) ↦ elim (Outcome-cases (p.ack.to_binary (result res))) [
      | inr failed ↦ absurd (ground arith)
      | inl (b', e') ↦ (res, e, ground arith)
    ]
  ]

  -- What `StdAck::success` encodes is read as a success, and `unwrap_into` gives the value back.
  pub unwrap_into-success :
      {T : Type 0} (c : Codec T) (x : T) (b : Binary)
      → success p {E = E} c x ≡ ok b
      → (a : StdAck) × (p.ack.from_slice b ≡ ok a) × (unwrap_into p {E = E} c a ≡ ok x)
  unfolding unwrap_into
  unwrap_into-success c x b h =
      let (res, e, e') = success-parts c x b h in
      (result res, p.ack.round_trip _ b e', ground (arith, c.round_trip x res e))
