-- ===== src/Prelude/Results.antt =====
-- Results of Rust code that returns `Result` or panics, and entry points that also write storage.
use Prim.Native.String.{String}
use mathlib.Core.Path.{◌≡◌, refl}
use mathlib.Core.Logic.{◌⊎◌, inl, inr}
use mathlib.Core.Bool.{Bool, true, false}
use native.Mathlib.Omega.{arith}

-- `Ok`, `Err`, or a panic with its message (an `unwrap` of an error).
pub data Outcome (E A : Type 0) : Type 0 where
  ok : A → Outcome E A
  err : E → Outcome E A
  panic : String → Outcome E A

-- An entry point over the storage `S`. What was written before an error stays written here; the
-- runtime discards it (`commit`).
abbrev pub Entry : Type 0 → Type 0 → Type 0 → Type 0
Entry S E A = S → Outcome E A × S

abbrev pub pure : {S E A : Type 0} → A → Entry S E A
pure a s = (ok a, s)

abbrev pub throw : {S E A : Type 0} → E → Entry S E A
throw e s = (err e, s)

abbrev pub modify : {S E : Type 0} → (S → S) → Entry S E (Unit {0})
modify f s = (ok tt, f s)

-- A computation that does not touch storage.
abbrev pub lift : {S E A : Type 0} → Outcome E A → Entry S E A
lift r s = (r, s)

abbrev pub continue : {S E A B : Type 0} → Outcome E A → (A → Entry S E B) → Entry S E B
continue (ok a) f s = f a s
continue (err e) f s = (err e, s)
continue (panic m) f s = (panic m, s)

infixl 5 ◌>>=◌ ◌>>◌
abbrev pub ◌>>=◌ : {S E A B : Type 0} → Entry S E A → (A → Entry S E B) → Entry S E B
◌>>=◌ m f s = continue (m s).0 f (m s).1

abbrev pub ◌>>◌ : {S E B : Type 0} → Entry S E (Unit {0}) → Entry S E B → Entry S E B
m >> k = m >>= λ _. k

-- `?` where the function's error type is another than the callee's (`#[from]`).
abbrev pub map_err : {E F A : Type 0} → (E → F) → Outcome E A → Outcome F A
map_err f (ok a) = ok a
map_err f (err e) = err (f e)
map_err f (panic m) = panic m

-- `and_then` on results without storage.
abbrev pub and_then : {E A B : Type 0} → Outcome E A → (A → Outcome E B) → Outcome E B
and_then (ok a) f = f a
and_then (err e) f = err e
and_then (panic m) f = panic m

-- `Result::unwrap`.
abbrev pub unwrap : {E F A : Type 0} → String → Outcome E A → Outcome F A
unwrap message (ok a) = ok a
unwrap message (err e) = panic message
unwrap message (panic m) = panic m

-- What the x/wasm runtime keeps of a call: the writes if it returned `Ok`, else the old storage.
abbrev pub keep : {S E A : Type 0} → S → Outcome E A × S → S
keep s (ok a, s') = s'
keep s (err e, s') = s
keep s (panic m, s') = s

abbrev pub commit : {S E A : Type 0} → Entry S E A → S → S
commit m s = keep s (m s)

abbrev pub Failed : {E A : Type 0} → Outcome E A → Type 0
Failed {E} o = ((e : E) × (o ≡ err e)) ⊎ ((m : String) × (o ≡ panic m))

-- To split on a computed result and keep the equation.
pub Outcome-cases : {E A : Type 0} (o : Outcome E A) → ((a : A) × (o ≡ ok a)) ⊎ Failed o
Outcome-cases (ok a) = inl (a, refl)
Outcome-cases (err e) = inr (inl (e, refl))
Outcome-cases (panic m) = inr (inr (m, refl))

-- `if !test { return Err(e) }`
abbrev pub ensure : {S E : Type 0} → Bool → E → Entry S E (Unit {0})
ensure true e = pure tt
ensure false e = throw e

-- Inversion of a computation that ran without error: so did its first part, and the rest on what
-- it gave.
pub bind-eq_ok :
    {S E A B : Type 0} (m : Entry S E A) (f : A → Entry S E B) (s : S) {b : B}
    → ((m >>= f) s).0 ≡ ok b
    → (a : A) × ((m s).0 ≡ ok a) × ((f a (m s).1).0 ≡ ok b)
bind-eq_ok {S} {E} {A} {B} m f s {b} h = go (m s).0 refl
  where
    go : (o : Outcome E A) → (m s).0 ≡ o → (a : A) × ((m s).0 ≡ ok a) × ((f a (m s).1).0 ≡ ok b)
    go (ok a) e = (a, e, rw e at h)
    go (err x) e = absurd (cc (rw e at h))
    go (panic x) e = absurd (cc (rw e at h))

-- What a call that ran without error wrote is kept.
pub commit-of_ok :
    {S E A : Type 0} (m : Entry S E A) (s : S) {a : A} → (m s).0 ≡ ok a → commit m s ≡ (m s).1
commit-of_ok m s h = ground arith

pub bind-of_ok :
    {S E A B : Type 0} (m : Entry S E A) (f : A → Entry S E B) (s : S) {a : A}
    → (m s).0 ≡ ok a
    → (m >>= f) s ≡ f a (m s).1
bind-of_ok m f s h = rw h refl
