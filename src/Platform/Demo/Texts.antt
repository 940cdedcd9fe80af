-- ===== src/Platform/Demo/Texts.antt =====
-- Texts by their place in a table, and the parts of a message that are made of them.
use cw_ibc_demo.Prelude.{
  ℕ, zero, suc, String, ◌≡◌, refl, ◌==◌, if◌then◌else◌, Option, none, some, List, [], ◌∷◌, ◌++◌,
  map, ◌⊎◌, inl, inr, arith, eq_iff, ap, Bool-cases,
}
use cw_ibc_demo.Std.{Binary, Coin}

abbrev pub table : List String
table =
    "admin" ∷ "channel-1" ∷ "account" ∷ "query" ∷ "id" ∷ "atom" ∷ "capturer" ∷ "host" ∷ "vote"
    ∷ "channel-2" ∷ "bob" ∷ []

index_of : String → List String → Option ℕ
index_of s [] = none
index_of s (t ∷ ts) =
    let later = index_of s ts in
    if t == s then some 0 else elim later [ none ↦ none | some i ↦ some (suc i) ]

get_elem? : List String → ℕ → Option String
get_elem? [] i = none
get_elem? (t ∷ ts) zero = some t
get_elem? (t ∷ ts) (suc i) = get_elem? ts i

abbrev Named : List String → String → Option ℕ → Type 0
Named ts s o = (o ≡ none) ⊎ ((i : ℕ) × (o ≡ some i) × (get_elem? ts i ≡ some s))

index_of-Named : (s : String) (ts : List String) → Named ts s (index_of s ts)
unfolding index_of get_elem?
index_of-Named s [] = inl refl
index_of-Named s (t ∷ ts) = elim (Bool-cases (t == s)) [
  | inl e ↦ inr (0, ground arith, ap some ((eq_iff t s).0 e))
  | inr e ↦ elim (index_of-Named s ts) [
    | inl n ↦ inl (ground arith)
    | inr (i, found, back) ↦ inr (suc i, ground arith, back)
  ]
]

unfoldable pub name : String → Option ℕ
unfolding index_of
name s = index_of s table

unfoldable pub unname : ℕ → Option String
unfolding get_elem?
unname i = get_elem? table i

-- A text has no place, or one at which it is found again.
pub name-cases :
    (s : String) → (name s ≡ none) ⊎ ((i : ℕ) × (name s ≡ some i) × (unname i ≡ some s))
unfolding name unname
name-cases s = index_of-Named s table

-- Coins: the place of the denomination and the amount.
unfoldable pub put_coins : List Coin → Option Binary
put_coins [] = some []
put_coins (c ∷ cs) = elim (name c.denom) [
  | none ↦ none
  | some i ↦ elim (put_coins cs) [ none ↦ none | some b ↦ some (i ∷ c.amount ∷ b) ]
]

unfoldable pub get_coins : Binary → Option (List Coin)
get_coins [] = some []
get_coins (i ∷ []) = none
get_coins (i ∷ n ∷ b) = elim (unname i) [
  | none ↦ none
  | some d ↦ elim (get_coins b) [
    | none ↦ none
    | some cs ↦ some (record { denom = d; amount = n } ∷ cs)
  ]
]

pub coins-cases :
    (cs : List Coin)
    → (put_coins cs ≡ none) ⊎ ((b : Binary) × (put_coins cs ≡ some b) × (get_coins b ≡ some cs))
unfolding put_coins get_coins
coins-cases [] = inr ([], refl, refl)
coins-cases (c ∷ cs) = elim (name-cases c.denom) [
  | inl n ↦ inl (ground arith)
  | inr (i, found, back) ↦ elim (coins-cases cs) [
    | inl n ↦ inl (ground arith)
    | inr (b, put, got) ↦ inr (i ∷ c.amount ∷ b, ground arith, ground arith)
  ]
]

-- Lists of bytes, each closed by a zero.
unfoldable pub put_all : List Binary → Binary
put_all [] = []
put_all (b ∷ bs) = map suc b ++ zero ∷ put_all bs

push : ℕ → List Binary → List Binary
push x [] = (x ∷ []) ∷ []
push x (b ∷ bs) = (x ∷ b) ∷ bs

pub get_all : Binary → List Binary
unfolding push
get_all [] = []
get_all (zero ∷ r) = [] ∷ get_all r
get_all (suc x ∷ r) = push x (get_all r)

get_all-one : (b r : Binary) → get_all (map suc b ++ zero ∷ r) ≡ b ∷ get_all r
unfolding get_all
get_all-one [] r = refl
get_all-one (x ∷ b) r = rw (get_all-one b r) refl

pub get_all-put_all : (bs : List Binary) → get_all (put_all bs) ≡ bs
unfolding put_all get_all
get_all-put_all [] = refl
get_all-put_all (b ∷ bs) = rw (get_all-one b (put_all bs), get_all-put_all bs) refl
