-- ===== src/Platform/Total/Text.antt =====
-- The forms of texts: the numbers of their characters.
use Prim.Native.Nat.{Ordering, compare}
use Prim.Native.Char.{Char, char, code, IsLt, IsScalar}
use Prim.Native.String as string
use cw_ibc_demo.Prelude.{ℕ, String, ◌≡◌, refl, ap, Option, none, some, List, [], ◌∷◌}
use cw_ibc_demo.Std.{Binary}
use cw_ibc_demo.Platform.Total.Format.{Format, via, list}

abbrev TwoLess : Ordering → Ordering → Type 0
TwoLess Ordering.lt o = IsLt o
TwoLess Ordering.eq o = ⊥
TwoLess Ordering.gt o = ⊥

-- `IsScalar n` is this of three comparisons.
abbrev OneRange : Ordering → Ordering → Ordering → Type 0
OneRange Ordering.lt o p = Unit
OneRange Ordering.eq o p = TwoLess o p
OneRange Ordering.gt o p = TwoLess o p

abbrev is_less : (o : Ordering) → Option (IsLt o)
is_less Ordering.lt = some tt
is_less Ordering.eq = none
is_less Ordering.gt = none

abbrev are_less : (o p : Ordering) → Option (TwoLess o p)
are_less Ordering.lt p = is_less p
are_less Ordering.eq p = none
are_less Ordering.gt p = none

abbrev in_range : (o p q : Ordering) → Option (OneRange o p q)
in_range Ordering.lt p q = some tt
in_range Ordering.eq p q = are_less p q
in_range Ordering.gt p q = are_less p q

is_less-some : (o : Ordering) (h : IsLt o) → is_less o ≡ some h
is_less-some Ordering.lt h = refl
is_less-some Ordering.eq h = absurd h
is_less-some Ordering.gt h = absurd h

are_less-some : (o p : Ordering) (h : TwoLess o p) → are_less o p ≡ some h
are_less-some Ordering.lt p h = is_less-some p h
are_less-some Ordering.eq p h = absurd h
are_less-some Ordering.gt p h = absurd h

in_range-some : (o p q : Ordering) (h : OneRange o p q) → in_range o p q ≡ some h
in_range-some Ordering.lt p q h = refl
in_range-some Ordering.eq p q h = are_less-some p q h
in_range-some Ordering.gt p q h = are_less-some p q h

abbrev scalar : (n : ℕ) → Option (IsScalar n)
scalar n = in_range (compare n 55296) (compare 57343 n) (compare n 1114112)

abbrev char_of : (n : ℕ) → Option (IsScalar n) → Option Char
char_of n none = none
char_of n (some h) = some (char n h)

abbrev and_rest : Option Char → Binary → Option (Char × Binary)
and_rest none r = none
and_rest (some c) r = some (c, r)

abbrev get_char : Binary → Option (Char × Binary)
get_char [] = none
get_char (n ∷ r) = and_rest (char_of n (scalar n)) r

pub get_char-code : (c : Char) (r : Binary) → get_char (code c ∷ r) ≡ some (c, r)
get_char-code (char n h) r =
    ap (λ o. and_rest (char_of n o) r)
      (in_range-some (compare n 55296) (compare 57343 n) (compare n 1114112) h)

abbrev character : Format Char
character = record { put = λ c. code c ∷ []; get = get_char; get-put = get_char-code }

abbrev chars : String → List Char
chars string.[] = []
chars (string.◌∷◌ c s) = c ∷ chars s

abbrev text_of : List Char → String
text_of [] = string.[]
text_of (c ∷ cs) = string.◌∷◌ c (text_of cs)

pub text_of-chars : (s : String) → text_of (chars s) ≡ s
text_of-chars string.[] = refl
text_of-chars (string.◌∷◌ c s) = ap (λ t. string.◌∷◌ c t) (text_of-chars s)

abbrev pub text : Format String
text = via text_of chars text_of-chars (list character)
