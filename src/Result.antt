-- ===== src/Result.antt =====
-- Code that returns or throws.
use jubs.Common.{◌≡◌, refl, ◌⊎◌, inl, inr, Bool, true, false}
use jubs.Fault.{Thrown, Reason, refused}

pub data Result {ℓ} (A : Type ℓ) : Type ℓ where
  ok : A → Result A
  err : Thrown → Result A

infixl 10 ◌>>=◌ ◌>>◌
-- What comes after code that returns; what it throws is passed on.
abbrev pub ◌>>=◌ {ℓ κ} : {X : Type ℓ} {Y : Type κ} → Result X → (X → Result Y) → Result Y
err e >>= next = err e
ok x >>= next = next x

abbrev pub ◌>>◌ {κ} : {Y : Type κ} → Result (Unit {0}) → Result Y → Result Y
check >> next = check >>= λ _. next

-- `if (!test) throw new Error(reason)`
abbrev pub require : Bool → Reason → Result (Unit {0})
require true r = ok tt
require false r = err (refused r)

abbrev pub refuse {ℓ} : {A : Type ℓ} → Reason → Result A
refuse r = err (refused r)

pub >>=-eq-ok {ℓ κ} :
    {X : Type ℓ} {Y : Type κ} (r : Result X) (next : X → Result Y) {y : Y}
    → (r >>= next) ≡ ok y
    → (x : X) × (r ≡ ok x) × (next x ≡ ok y)
>>=-eq-ok (err e) next h = cc
>>=-eq-ok (ok x) next h = (x, refl, h)

pub ok-injective {ℓ} : {A : Type ℓ} {a b : A} → ok a ≡ ok b → a ≡ b
ok-injective h = cc

pub Result-cases {ℓ} :
    {A : Type ℓ} (r : Result A) → ((a : A) × (r ≡ ok a)) ⊎ ((e : Thrown) × (r ≡ err e))
Result-cases (ok a) = inl (a, refl)
Result-cases (err e) = inr (e, refl)
