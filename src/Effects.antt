-- ===== src/Effects.antt =====
-- Code that may throw, and code that may throw and changes a state: what was written before a throw
-- stays written, so the state comes back beside the error too.
use jubs.Fault.{Thrown}
use jubs.Result.{Result, ok, err}

abbrev pub Exec {ℓ} : Type ℓ → Type ℓ → Type ℓ
Exec S A = S → Result A × S

module _ {ℓ} {S A : Type ℓ} where
  abbrev pub pure : A → Exec S A
  pure a s = (ok a, s)

  abbrev pub raise : Thrown → Exec S A
  raise thrown s = (err thrown, s)

  abbrev pub lift : Result A → Exec S A
  lift result s = (result, s)

  -- `action.catch(handler)`
  abbrev pub handle : Result A → (Thrown → Exec S A) → Exec S A
  handle (ok a) h s = (ok a, s)
  handle (err e) h s = h e s

  abbrev pub catch : Exec S A → (Thrown → Exec S A) → Exec S A
  catch m h s = let (r, s') = m s in handle r h s'

module _ {ℓ} {S A B : Type ℓ} where
  abbrev pub continue : Result A → (A → Exec S B) → Exec S B
  continue (ok a) f s = f a s
  continue (err e) f s = (err e, s)

  infixl 10 ◌>>=◌ ◌>>◌
  abbrev pub ◌>>=◌ : Exec S A → (A → Exec S B) → Exec S B
  ◌>>=◌ m f s = let (r, s') = m s in continue r f s'

  abbrev pub ◌>>◌ : Exec S A → Exec S B → Exec S B
  first >> second = first >>= λ _. second
