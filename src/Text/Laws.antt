-- ===== src/Text/Laws.antt =====
-- Laws of the texts: equality is decided, and a text is cut where `index_of` says.
use jubs.Common.{
  ℕ, zero, suc, ◌-◌, ◌<◌, ◌≡◌, refl, ap, ◌↔◌, true, false, none, some, [], ◌∷◌, ◌++◌, arith, length,
  take, drop, length-append, drop-append_length, take-append-drop, sym, ◌∙◌,
}
use jubs.Text.{Text, ◌==◌, index_of, includes, starts_with, ends_with}

pub ==_sound : (a b : Text) → (a == b) ≡ true → a ≡ b
unfolding ◌==◌
==_sound [] [] h = refl
==_sound [] (y ∷ ys) h = cc
==_sound (x ∷ xs) [] h = cc
==_sound (x ∷ xs) (y ∷ ys) h = ground (arith, ==_sound xs ys)

pub ==_refl : (a : Text) → (a == a) ≡ true
unfolding ◌==◌
==_refl [] = refl
==_refl (x ∷ xs) = ground (arith, ==_refl xs)

pub ==_iff : (a b : Text) → ((a == b) ≡ true) ↔ (a ≡ b)
==_iff a b = (==_sound a b, λ e. rw e (==_refl b))

-- The first occurrence in a text that begins without the character is where that beginning ends.
pub index_of-append :
    (c : ℕ) (s t : Text) → includes c s ≡ false → index_of c (s ++ c ∷ t) ≡ some (length s)
unfolding index_of includes
index_of-append c [] t h = ground arith
index_of-append c (x ∷ s) t h = ground (arith, index_of-append c s t)

pub index_of-none : (c : ℕ) (s : Text) → includes c s ≡ false → index_of c s ≡ none
unfolding index_of includes
index_of-none c [] h = refl
index_of-none c (x ∷ s) h = ground (arith, index_of-none c s)

-- What stands before the first occurrence has none, and behind it goes the rest of the text.
pub index_of-cut :
    (c n : ℕ) (s : Text)
    → index_of c s ≡ some n
    → (s ≡ take n s ++ c ∷ drop (suc n) s) × (includes c (take n s) ≡ false) × (n < length s)
unfolding index_of includes
index_of-cut c n [] h = cc
index_of-cut c zero (x ∷ s) h = ground arith
index_of-cut c (suc n) (x ∷ s) h = ground (arith, index_of-cut c n s)

pub includes-append :
    (c : ℕ) (s t : Text) → includes c s ≡ false → includes c t ≡ false → includes c (s ++ t) ≡ false
unfolding includes
includes-append c [] t h k = k
includes-append c (x ∷ s) t h k = ground (arith, includes-append c s t)

pub ends_with-append : (s p : Text) → ends_with (s ++ p) p ≡ true
unfolding ends_with
ends_with-append s p =
    let cut : length (s ++ p) - length p ≡ length s = omega (arith, length-append s p) in
    rw (cut, drop-append_length s p) (==_refl p)

pub ends_with-split : (s p : Text) → ends_with s p ≡ true → s ≡ take (length s - length p) s ++ p
unfolding ends_with
ends_with-split s p h =
    sym (take-append-drop (length s - length p) s)
    ∙ ap (λ t. take (length s - length p) s ++ t) (==_sound _ p h)

pub starts_with-append : (p s : Text) → starts_with (p ++ s) p ≡ true
unfolding starts_with
starts_with-append [] s = refl
starts_with-append (x ∷ p) s = ground (arith, starts_with-append p s)
