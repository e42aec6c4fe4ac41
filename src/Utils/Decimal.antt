-- ===== src/Utils/Decimal.antt =====
-- Decimal notation: different numbers have different texts, all of digits.
use fsracer.Prelude.{
  ℕ, zero, suc, ◌+◌, ◌-◌, ◌*◌, ◌/◌, ◌%◌, ◌<◌, ◌≡◌, refl, ap, ◌∙◌, sym, true, [], ◌∷◌, ◌++◌, Text,
  arith, ltb, Bool-cases, inl, inr,
}
use fsracer.Utils.{to_string_in, to_string, all_digits, is_digit}

-- The number that digits stand for, most significant first.
unfoldable pub value_from : ℕ → Text → ℕ
value_from acc [] = acc
value_from acc (c ∷ str) = value_from (acc * 10 + (c - 48)) str

value_from-concat :
    (acc : ℕ) (str : Text) (c : ℕ)
    → value_from acc (str ++ c ∷ []) ≡ value_from acc str * 10 + (c - 48)
unfolding value_from
value_from-concat acc [] c = refl
value_from-concat acc (d ∷ str) c = value_from-concat (acc * 10 + (d - 48)) str c

all_digits-concat :
    (str : Text) (c : ℕ)
    → all_digits str ≡ true
    → is_digit c ≡ true
    → all_digits (str ++ c ∷ []) ≡ true
all_digits-concat [] c h d = ground arith
all_digits-concat (x ∷ str) c h d = ground (arith, all_digits-concat str c)

value-to_string_in : (fuel n : ℕ) → n < fuel → value_from 0 (to_string_in fuel n) ≡ n
unfolding to_string_in value_from
value-to_string_in zero n h = absurd (omega arith)
value-to_string_in (suc fuel) n h = elim (Bool-cases (ltb n 10)) [
  | inl small ↦ rw small (ground arith)
  | inr large ↦ rw large (
      ground (
        arith,
        value_from-concat 0 (to_string_in fuel (n / 10)) (48 + n % 10),
        value-to_string_in fuel (n / 10),
      ))
]

all_digits-to_string_in : (fuel n : ℕ) → all_digits (to_string_in fuel n) ≡ true
unfolding to_string_in
all_digits-to_string_in zero n = refl
all_digits-to_string_in (suc fuel) n = elim (Bool-cases (ltb n 10)) [
  | inl small ↦ rw small (ground arith)
  | inr large ↦ rw large (
      all_digits-concat (to_string_in fuel (n / 10)) (48 + n % 10)
        (all_digits-to_string_in fuel (n / 10)) (ground arith))
]

pub value-to_string : (n : ℕ) → value_from 0 (to_string n) ≡ n
unfolding to_string
value-to_string n = value-to_string_in (suc n) n (omega arith)

pub all_digits-to_string : (n : ℕ) → all_digits (to_string n) ≡ true
unfolding to_string
all_digits-to_string n = all_digits-to_string_in (suc n) n

-- Two numbers with the same decimal text are the same.
pub to_string_inj : (m n : ℕ) → to_string m ≡ to_string n → m ≡ n
to_string_inj m n h = sym (value-to_string m) ∙ (ap (value_from 0) h ∙ value-to_string n)
