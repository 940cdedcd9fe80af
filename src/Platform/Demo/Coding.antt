-- ===== src/Platform/Demo/Coding.antt =====
-- Codecs from partial encodings: a value that has no form is an error of `to_binary`.
use cw_ibc_demo.Prelude.{◌≡◌, refl, Option, none, some, ok, err, ◌⊎◌, inl, inr, arith}
use cw_ibc_demo.Std.{Binary, serialize_err, parse_err}
use cw_ibc_demo.Platform.{Codec, StdResult}

-- A codec from a partial encoding and its decoding.
abbrev pub written : Option Binary → StdResult Binary
written none = err (serialize_err "demo" "no form")
written (some b) = ok b

abbrev pub read : {T : Type 0} → Option T → StdResult T
read none = err (parse_err "demo" "no value")
read (some x) = ok x

-- A value has no form, or one from which it is read again.
abbrev pub Inverse : {T : Type 0} → (T → Option Binary) → (Binary → Option T) → T → Type 0
Inverse put get x = (put x ≡ none) ⊎ ((b : Binary) × (put x ≡ some b) × (get b ≡ some x))

pub read-written :
    {T : Type 0} (put : T → Option Binary) (get : Binary → Option T)
    → ((x : T) → Inverse put get x)
    → (x : T) (b : Binary) → written (put x) ≡ ok b
    → read (get b) ≡ ok x
read-written put get inv x b h = elim (inv x) [
  | inl n ↦ absurd (ground arith)
  | inr (b', p, q) ↦ let e : b' ≡ b = ground arith in rw (← e, q) refl
]

abbrev pub codec :
    {T : Type 0} (put : T → Option Binary) (get : Binary → Option T)
    → ((x : T) → Inverse put get x)
    → Codec T
codec put get inv = record {
  to_binary = λ x. written (put x);
  from_slice = λ b. read (get b);
  round_trip = read-written put get inv;
}

-- A type of which no value has a form.
abbrev pub no_codec : {T : Type 0} → Codec T
no_codec = codec (λ x. none) (λ b. none) (λ x. inl refl)
