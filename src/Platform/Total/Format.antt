-- ===== src/Platform/Total/Format.antt =====
-- Forms in which every value of a type can be written, one value behind the other.
use mathlib.Core.List.{append_assoc, append-nil}
use cw_ibc_demo.Prelude.{
  ℕ, zero, suc, ◌≡◌, refl, Option, none, some, List, [], ◌∷◌, ◌++◌, ◌⊎◌, inl, inr, ok, err, arith,
  subst, ◌∙◌,
}
use cw_ibc_demo.Std.{Binary, parse_err}
use cw_ibc_demo.Platform.{Codec, StdResult}

-- How a value is written, and read with what follows it.
pub record Format (A : Type 0) : Type 0 where
  pub put : A → Binary
  pub get : Binary → Option (A × Binary)
  pub get-put : (a : A) (r : Binary) → get (put a ++ r) ≡ some (a, r)

abbrev next : {A B : Type 0} → Option (A × Binary) → (A → Binary → Option B) → Option B
next none f = none
next (some (a, r)) f = f a r

abbrev get_number : Binary → Option (ℕ × Binary)
get_number [] = none
get_number (n ∷ r) = some (n, r)

abbrev pub number : Format ℕ
number = record { put = λ n. n ∷ []; get = get_number; get-put = λ n r. refl }

abbrev pub empty : Format (Unit {0})
empty = record { put = λ u. []; get = λ r. some (tt, r); get-put = λ u r. refl }

module _ {A B : Type 0} where
  -- The values of `B` are written as those of `A`.
  abbrev pub via : (to : A → B) (from : B → A) → ((b : B) → to (from b) ≡ b) → Format A → Format B
  via to from inverse F = record {
    put = λ b. F.put (from b);
    get = λ x. next (F.get x) λ a r. some (to a, r);
    get-put = λ b r. rw (F.get-put (from b) r, inverse b) refl;
  }

  abbrev pub pair : Format A → Format B → Format (A × B)
  pair F G = record {
    put = λ x. F.put x.0 ++ G.put x.1;
    get = λ x. next (F.get x) λ a r. next (G.get r) λ b r'. some ((a, b), r');
    get-put = λ x r.
        rw (append_assoc (F.put x.0) (G.put x.1) r, F.get-put x.0 (G.put x.1 ++ r), G.get-put x.1 r)
          refl;
  }

  abbrev put_sum : Format A → Format B → A ⊎ B → Binary
  put_sum F G (inl a) = 0 ∷ F.put a
  put_sum F G (inr b) = 1 ∷ G.put b

  abbrev get_sum : Format A → Format B → Binary → Option ((A ⊎ B) × Binary)
  get_sum F G [] = none
  get_sum F G (zero ∷ x) = next (F.get x) λ a r. some (inl a, r)
  get_sum F G (suc n ∷ x) = next (G.get x) λ b r. some (inr b, r)

  pub get_sum-put_sum :
      (F : Format A) (G : Format B) (x : A ⊎ B) (r : Binary)
      → get_sum F G (put_sum F G x ++ r) ≡ some (x, r)
  get_sum-put_sum F G (inl a) r = rw (F.get-put a r) refl
  get_sum-put_sum F G (inr b) r = rw (G.get-put b r) refl

  abbrev pub sum : Format A → Format B → Format (A ⊎ B)
  sum F G = record { put = put_sum F G; get = get_sum F G; get-put = get_sum-put_sum F G }

module _ {A : Type 0} (F : Format A) where
  abbrev size : List A → ℕ
  size [] = 0
  size (x ∷ xs) = suc (size xs)

  abbrev put_each : List A → Binary
  put_each [] = []
  put_each (x ∷ xs) = F.put x ++ put_each xs

  abbrev get_each : ℕ → Binary → Option (List A × Binary)
  get_each zero b = some ([], b)
  get_each (suc n) b = next (F.get b) λ x r. next (get_each n r) λ xs r'. some (x ∷ xs, r')

  pub get_each-put_each :
      (xs : List A) (r : Binary) → get_each (size xs) (put_each xs ++ r) ≡ some (xs, r)
  get_each-put_each [] r = refl
  get_each-put_each (x ∷ xs) r =
      rw
        (
          append_assoc (F.put x) (put_each xs) r,
          F.get-put x (put_each xs ++ r),
          get_each-put_each xs r,
        )
        refl

  abbrev get_list : Binary → Option (List A × Binary)
  get_list [] = none
  get_list (n ∷ b) = get_each n b

  abbrev pub list : Format (List A)
  list = record { put = λ xs. size xs ∷ put_each xs; get = get_list; get-put = get_each-put_each }

  abbrev whole : Option (A × Binary) → StdResult A
  whole (some (a, [])) = ok a
  whole _ = err (parse_err "total" "no value")

  abbrev written : A → StdResult Binary
  written a = ok (F.put a)

  pub whole-put : (a : A) (b : Binary) → written a ≡ ok b → whole (F.get b) ≡ ok a
  whole-put a b e =
      let same : F.put a ≡ b = ground arith in
      let got : F.get b ≡ some (a, []) =
        subst (λ x. F.get x ≡ some (a, [])) (append-nil (F.put a) ∙ same) (F.get-put a []) in
      rw got refl

  -- Every value has a form.
  abbrev pub codec : Codec A
  codec = record { to_binary = written; from_slice = λ b. whole (F.get b); round_trip = whole-put }
