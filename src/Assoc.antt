-- ===== src/Assoc.antt =====
-- `Map` with texts for keys, in the order of the first insertion of each key.
use jubs.Common.{◌≡◌, refl, Bool, Option, none, some, List, [], ◌∷◌, arith, if◌then◌else◌, is_some}
use jubs.Text.{Text, ◌==◌}
use jubs.Text.Laws.{==_iff}

abbrev pub Assoc {ℓ} : Type ℓ → Type ℓ
Assoc V = List (Text × V)

module _ {ℓ} {V : Type ℓ} where
  -- `map.get(key)`
  unfoldable pub lookup : Text → Assoc V → Option V
  lookup key [] = none
  lookup key ((held, value) ∷ rest) = if held == key then some value else lookup key rest

  -- `map.has(key)`
  abbrev pub has : Text → Assoc V → Bool
  has key map = is_some (lookup key map)

  -- `map.set(key, value)`
  unfoldable pub insert : Text → V → Assoc V → Assoc V
  insert key value [] = (key, value) ∷ []
  insert key value ((held, old) ∷ rest) =
      if held == key then (key, value) ∷ rest else (held, old) ∷ insert key value rest

  -- `map.delete(key)`
  unfoldable pub remove : Text → Assoc V → Assoc V
  remove key [] = []
  remove key ((held, value) ∷ rest) =
      let others = remove key rest in if held == key then others else (held, value) ∷ others

  pub lookup-remove :
      (gone asked : Text) (map : Assoc V)
      → lookup asked (remove gone map) ≡ (if gone == asked then none else lookup asked map)
  unfolding lookup remove
  lookup-remove gone asked [] = ground arith
  lookup-remove gone asked ((held, value) ∷ rest) =
      ground (
        arith,
        lookup-remove gone asked rest,
        ==_iff held gone,
        ==_iff held asked,
        ==_iff gone asked,
      )

  pub lookup-insert :
      (set asked : Text) (value : V) (map : Assoc V)
      → lookup asked (insert set value map)
        ≡ (if set == asked then some value else lookup asked map)
  unfolding lookup insert
  lookup-insert set asked value [] = refl
  lookup-insert set asked value ((held, old) ∷ rest) = ground (
    arith,
    lookup-insert set asked value rest,
    ==_iff set asked,
    ==_iff held set,
    ==_iff held asked,
  )
