-- ===== src/Prelude/Order.antt =====
-- Keys of the ordered containers: a three-way comparison that tells equal keys apart from others.
use Prim.Native.Nat.{ℕ, compare, Ordering}
use mathlib.Core.Path.{◌≡◌}
use mathlib.Core.Logic.{◌↔◌}
use mathlib.Core.Bool.{Bool, true, false}
use mathlib.Core.List.{List, [], ◌∷◌}
use native.Mathlib.Omega.{arith}

-- `operator<` of a key type, both ways round at once.
pub record Ord {ℓ} (A : Type ℓ) : Type ℓ where
  pub cmp : A → A → Ordering
  pub cmp_iff : (a b : A) → (cmp a b ≡ Ordering.eq) ↔ (a ≡ b)

abbrev pub is_eq : Ordering → Bool
is_eq Ordering.eq = true
is_eq _ = false

module _ {ℓ} {A : Type ℓ} ⦃o : Ord A⦄ where
  abbrev pub same : A → A → Bool
  same a b = is_eq (o.cmp a b)

  pub same_iff : (a b : A) → (same a b ≡ true) ↔ (a ≡ b)
  same_iff a b = ground (arith, o.cmp_iff a b)

pub nat_cmp_iff : (a b : ℕ) → (compare a b ≡ Ordering.eq) ↔ (a ≡ b)
nat_cmp_iff a b = ground arith

instance abbrev pub nat_ord : Ord ℕ
nat_ord = record { cmp = compare; cmp_iff = nat_cmp_iff }

-- First by the one, then by the other, as for `std::pair`.
abbrev pub then_by : Ordering → Ordering → Ordering
then_by Ordering.eq y = y
then_by x y = x

module _ {ℓ κ} {A : Type ℓ} {B : Type κ} ⦃o : Ord A⦄ ⦃q : Ord B⦄ where
  abbrev pub pair_cmp : A × B → A × B → Ordering
  pair_cmp (a, b) (c, d) = then_by (o.cmp a c) (q.cmp b d)

  pub pair_cmp_iff : (x y : A × B) → (pair_cmp x y ≡ Ordering.eq) ↔ (x ≡ y)
  pair_cmp_iff (a, b) (c, d) = ground (arith, o.cmp_iff a c, q.cmp_iff b d)

  instance abbrev pub pair_ord : Ord (A × B)
  pair_ord = record { cmp = pair_cmp; cmp_iff = pair_cmp_iff }

module _ {ℓ} {A : Type ℓ} ⦃o : Ord A⦄ where
  -- Lexicographic, as for `std::string` and for the elements of a path.
  abbrev pub list_cmp : List A → List A → Ordering
  list_cmp [] [] = Ordering.eq
  list_cmp [] (y ∷ ys) = Ordering.lt
  list_cmp (x ∷ xs) [] = Ordering.gt
  list_cmp (x ∷ xs) (y ∷ ys) = then_by (o.cmp x y) (list_cmp xs ys)

  pub list_cmp_iff : (xs ys : List A) → (list_cmp xs ys ≡ Ordering.eq) ↔ (xs ≡ ys)
  list_cmp_iff [] [] = ground arith
  list_cmp_iff [] (y ∷ ys) = ground arith
  list_cmp_iff (x ∷ xs) [] = ground arith
  list_cmp_iff (x ∷ xs) (y ∷ ys) = ground (arith, o.cmp_iff x y, list_cmp_iff xs ys)

  instance abbrev pub list_ord : Ord (List A)
  list_ord = record { cmp = list_cmp; cmp_iff = list_cmp_iff }
