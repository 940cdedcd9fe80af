-- ===== src/Platform/Demo/Assoc.antt =====
-- Lists of entries as maps.
use cw_ibc_demo.Prelude.{
  String, ◌≡◌, refl, ◌==◌, if◌then◌else◌, none, some, List, [], ◌∷◌, lookup, arith, eq_iff,
}

module _ {V : Type 0} where
  -- The entry of `key` is replaced where it stands, or added at the end.
  unfoldable pub entered : List (String × V) → String → V → List (String × V)
  entered [] key new = (key, new) ∷ []
  entered ((here, old) ∷ more) key new =
      if here == key then (key, new) ∷ more else (here, old) ∷ entered more key new

  -- All entries but those of `key`.
  unfoldable pub dropped : List (String × V) → String → List (String × V)
  dropped [] key = []
  dropped ((here, old) ∷ more) key =
      let kept = dropped more key in if here == key then kept else (here, old) ∷ kept

  pub lookup-empty : (key : String) → lookup {V = V} key [] ≡ none
  unfolding lookup
  lookup-empty key = refl

  pub lookup-entered :
      (table : List (String × V)) (key : String) (new : V) (asked : String)
      → lookup asked (entered table key new)
        ≡ (if key == asked then some new else lookup asked table)
  unfolding entered lookup
  lookup-entered [] key new asked = refl
  lookup-entered ((here, old) ∷ more) key new asked =
      let later = lookup-entered more key new asked in
      ground (arith, later, eq_iff key asked, eq_iff here key, eq_iff here asked)

  pub lookup-dropped :
      (table : List (String × V)) (key asked : String)
      → lookup asked (dropped table key) ≡ (if key == asked then none else lookup asked table)
  unfolding dropped lookup
  lookup-dropped [] key asked = ground arith
  lookup-dropped ((here, old) ∷ more) key asked =
      let later = lookup-dropped more key asked in
      ground (arith, later, eq_iff key asked, eq_iff here key, eq_iff here asked)
