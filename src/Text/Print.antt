-- ===== src/Text/Print.antt =====
-- Printed numbers can be read back, whatever follows them, so they tell their numbers apart.
use mathlib.Core.List.{append-nil}
use forex_automated_copy_tra.Base.{
  ℕ, zero, suc, ◌+◌, ◌*◌, ◌/◌, ◌%◌, ◌-◌, ◌<◌, ◌≡◌, ◌≢◌, some, refl, sym, ap, ◌∙◌, true, [], ◌∷◌,
  ◌++◌, ltb, arith, Bool-cases, inl, inr,
}
use forex_automated_copy_tra.Text.{
  Text, digits_before, str, is_digit, read_from, int, all_read, before_first, text_eq,
}

digits_before-append :
    (f n : ℕ) (xs ys : Text) → digits_before f n xs ++ ys ≡ digits_before f n (xs ++ ys)
unfolding digits_before
digits_before-append zero n xs ys = refl
digits_before-append (suc f) n xs ys =
    ground (arith, digits_before-append f (n / 10) ((48 + n % 10) ∷ xs) ys)

read_from-digit :
    (acc d : ℕ) (rest : Text)
    → d < 10
    → read_from acc ((48 + d) ∷ rest) ≡ read_from (acc * 10 + d) rest
unfolding read_from
read_from-digit acc d rest h =
    let digit : is_digit (48 + d) ≡ true = ground arith in
    let value : 48 + d - 48 ≡ d = omega arith in rw (digit, value)

read_from-digits_before :
    (f n : ℕ) (rest : Text) → n < f → read_from 0 (digits_before f n rest) ≡ read_from n rest
unfolding digits_before
read_from-digits_before zero n rest h = elim h [ ]
read_from-digits_before (suc f) n rest h = elim (Bool-cases (ltb n 10)) [
  | inl one_digit ↦
      rw one_digit
        (read_from-digit 0 n rest (ground arith) ∙ ap (λ t. read_from t rest) (omega arith))
  | inr more ↦ rw more (
      read_from-digits_before f (n / 10) ((48 + n % 10) ∷ rest) (ground arith)
      ∙ read_from-digit (n / 10) (n % 10) rest (omega arith)
      ∙ ap (λ t. read_from t rest) (omega arith))
]

-- Reading a printed number gives the number, and what followed it.
pub read_from-str : (n : ℕ) (rest : Text) → read_from 0 (str n ++ rest) ≡ read_from n rest
unfolding str
read_from-str n rest =
    rw (digits_before-append (suc n) n [] rest)
      (read_from-digits_before (suc n) n rest (omega arith))

-- A printed number ends in a digit, so it is not empty.
pub str-ends : (n : ℕ) → (front : Text) × (d : ℕ) × (d < 10) × (str n ≡ front ++ (48 + d) ∷ [])
unfolding str digits_before
str-ends n = elim (Bool-cases (ltb n 10)) [
  | inl one_digit ↦ ([], n, ground arith, rw one_digit)
  | inr more ↦ (
    digits_before n (n / 10) [],
    n % 10,
    omega arith,
    rw more (sym (digits_before-append n (n / 10) [] ((48 + n % 10) ∷ []))),
  )
]

int-of_read : (s : Text) (n : ℕ) → s ≢ [] → read_from 0 s ≡ (n, []) → int s ≡ some n
unfolding int
int-of_read [] n nonempty h = absurd (nonempty refl)
int-of_read (c ∷ cs) n nonempty h = ap all_read h

snoc-ne-nil : (c : ℕ) (front : Text) → front ++ c ∷ [] ≢ []
snoc-ne-nil c [] e = cc
snoc-ne-nil c (x ∷ front) e = cc

str-ne-nil : (n : ℕ) → str n ≢ []
str-ne-nil n e =
    let (front, d, small, ends) = str-ends n in snoc-ne-nil (48 + d) front (sym ends ∙ e)

read_from-nil : (n : ℕ) → read_from n [] ≡ (n, [])
unfolding read_from
read_from-nil n = refl

-- `int(str(n))` is n.
pub int-str : (n : ℕ) → int (str n) ≡ some n
int-str n =
    int-of_read (str n) n (str-ne-nil n)
      (ap (read_from 0) (sym (append-nil (str n))) ∙ read_from-str n [] ∙ read_from-nil n)

before_first-digits :
    (f n : ℕ) (rest : Text)
    → before_first b'.' (digits_before f n rest) ≡ digits_before f n (before_first b'.' rest)
unfolding digits_before before_first
before_first-digits zero n rest = refl
before_first-digits (suc f) n rest =
    ground (arith, before_first-digits f (n / 10) ((48 + n % 10) ∷ rest))

-- What stands before the dot behind a printed number is the number.
pub before_first-str : (n : ℕ) (rest : Text) → before_first b'.' (str n ++ b'.' ∷ rest) ≡ str n
unfolding str
before_first-str n rest =
    rw
      (digits_before-append (suc n) n [] (b'.' ∷ rest), before_first-digits (suc n) n (b'.' ∷ rest))
      (unfold before_first in refl)

pub text_eq_refl : (t : Text) → text_eq t t ≡ true
unfolding text_eq
text_eq_refl [] = refl
text_eq_refl (c ∷ cs) = ground (arith, text_eq_refl cs)
