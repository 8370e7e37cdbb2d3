-- ===== src/Text/Decimal.antt =====
-- `String(n)` for a count, and `Number(s)` for a text of digits.
use jubs.Common.{
  ℕ, zero, suc, ◌+◌, ◌-◌, ◌*◌, ◌/◌, ◌%◌, ◌<◌, ◌≡◌, refl, ap, Bool, true, ◌&&◌, [], ◌∷◌, ◌++◌, arith,
  ltb, leb, all, if◌then◌else◌, Bool-cases, inl, inr, ◌≢◌, ◌∙◌, sym,
}
use jubs.Text.{Text}

abbrev pub is_digit : ℕ → Bool
is_digit c = leb b'0' c && leb c b'9'

-- The digits of `n`, last digit first decided; the fuel bounds how many there are.
digits : ℕ → ℕ → Text
digits zero n = []
digits (suc fuel) n =
    let higher = digits fuel (n / 10) in
    if ltb n 10 then (b'0' + n) ∷ [] else higher ++ (b'0' + n % 10) ∷ []

-- `String(n)`
unfoldable pub show : ℕ → Text
unfolding digits
show n = digits (suc n) n

number_from : ℕ → Text → ℕ
number_from acc [] = acc
number_from acc (d ∷ ds) = number_from (acc * 10 + (d - b'0')) ds

-- `Number(s)` for digits
unfoldable pub number_of : Text → ℕ
unfolding number_from
number_of ds = number_from 0 ds

number_from-append :
    (acc : ℕ) (ds : Text) (d : ℕ)
    → number_from acc (ds ++ d ∷ []) ≡ number_from acc ds * 10 + (d - b'0')
unfolding number_from
number_from-append acc [] d = refl
number_from-append acc (e ∷ ds) d = number_from-append (acc * 10 + (e - b'0')) ds d

number_from-digits : (fuel n : ℕ) → n < fuel → number_from 0 (digits fuel n) ≡ n
unfolding digits
number_from-digits zero n h = absurd (omega arith)
number_from-digits (suc fuel) n h = elim (Bool-cases (ltb n 10)) [
  | inl small ↦ rw small (unfold number_from in omega arith)
  | inr large ↦
      let tens : n / 10 < fuel = ground arith in
      rw
        (
          large,
          number_from-append 0 (digits fuel (n / 10)) (b'0' + n % 10),
          number_from-digits fuel (n / 10) tens,
        )
        (omega arith)
]

-- A count is read back from its decimal text.
pub number_of-show : (n : ℕ) → number_of (show n) ≡ n
unfolding number_of show
number_of-show n = number_from-digits (suc n) n (omega arith)

pub show-injective : (m n : ℕ) → show m ≡ show n → m ≡ n
show-injective m n h = sym (number_of-show m) ∙ ap number_of h ∙ number_of-show n

all-append :
    (p : ℕ → Bool) (xs : Text) (d : ℕ) → all p xs ≡ true → p d ≡ true → all p (xs ++ d ∷ []) ≡ true
all-append p [] d h k = rw k
all-append p (x ∷ xs) d h k = ground (arith, all-append p xs d)

all-digits : (fuel n : ℕ) → all is_digit (digits fuel n) ≡ true
unfolding digits
all-digits zero n = refl
all-digits (suc fuel) n = elim (Bool-cases (ltb n 10)) [
  | inl small ↦ rw small (ground arith)
  | inr large ↦ rw large (
      all-append is_digit (digits fuel (n / 10)) (b'0' + n % 10) (all-digits fuel (n / 10))
        (ground arith))
]

pub show-all_digits : (n : ℕ) → all is_digit (show n) ≡ true
unfolding show
show-all_digits n = all-digits (suc n) n

append-ne-nil : (xs : Text) (d : ℕ) → xs ++ d ∷ [] ≢ []
append-ne-nil [] d h = cc
append-ne-nil (x ∷ xs) d h = cc

pub show-ne-nil : (n : ℕ) → show n ≢ []
unfolding show digits
show-ne-nil n = ground (arith, append-ne-nil (digits n (n / 10)) (b'0' + n % 10))
