-- ===== src/Text.antt =====
-- Texts of the program, as the lists of their code units, with the methods of `String` that it calls.
pub mod Laws
pub mod Decimal
use Prim.Native.Char.{code}
use jubs.Common.{
  ℕ, zero, suc, ◌-◌, String, Bool, true, false, ◌&&◌, Option, none, some, List, [], ◌∷◌, ◌++◌, eqb,
  length, take, drop, if◌then◌else◌,
}

abbrev pub Text : Type 0
Text = List ℕ

-- A literal.
abbrev pub codes : String → Text
codes String.[] = []
codes (String.◌∷◌ c s) = code c ∷ codes s

-- `a === b`
infix 50 ◌==◌
unfoldable pub ◌==◌ : Text → Text → Bool
[] == [] = true
[] == (y ∷ ys) = false
(x ∷ xs) == [] = false
(x ∷ xs) == (y ∷ ys) = eqb x y && xs == ys

abbrev up_by_one : Option ℕ → Option ℕ
up_by_one none = none
up_by_one (some n) = some (suc n)

-- `s.indexOf(c)` for one character, `none` for -1.
unfoldable pub index_of : ℕ → Text → Option ℕ
index_of c [] = none
index_of c (x ∷ xs) = if eqb x c then some 0 else up_by_one (index_of c xs)

-- `s.includes(c)` for one character.
unfoldable pub includes : ℕ → Text → Bool
includes c [] = false
includes c (x ∷ xs) = if eqb x c then true else includes c xs

-- `s.startsWith(p)`
unfoldable pub starts_with : Text → Text → Bool
starts_with s [] = true
starts_with [] (p ∷ ps) = false
starts_with (x ∷ xs) (p ∷ ps) = eqb x p && starts_with xs ps

-- `s.endsWith(p)`
unfoldable pub ends_with : Text → Text → Bool
unfolding ◌==◌
ends_with s p = drop (length s - length p) s == p
