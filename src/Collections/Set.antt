-- ===== src/Collections/Set.antt =====
-- `std::set`: a list in the order of the keys.
use fsracer.Prelude.{
  ◌≡◌, refl, Bool, true, false, ◌||◌, ◌&&◌, not, List, [], ◌∷◌, Ordering, arith, Ord, same, In, ◌↔◌,
  if◌then◌else◌,
}

abbrev pub Set {ℓ} : Type ℓ → Type ℓ
Set A = List A

module _ {ℓ} {A : Type ℓ} ⦃o : Ord A⦄ where
  -- `find(a) != end()`
  unfoldable pub member : A → Set A → Bool
  member a [] = false
  member a (x ∷ s) = same a x || member a s

  unfoldable pub insert : A → Set A → Set A
  insert a [] = a ∷ []
  insert a (x ∷ s) =
      let rest = insert a s in
      elim (o.cmp a x) [ Ordering.lt ↦ a ∷ x ∷ s | Ordering.eq ↦ x ∷ s | Ordering.gt ↦ x ∷ rest ]

  unfoldable pub erase : A → Set A → Set A
  erase a [] = []
  erase a (x ∷ s) = let rest = erase a s in if same a x then rest else x ∷ rest

  pub member-insert : (b a : A) (s : Set A) → member b (insert a s) ≡ (same b a || member b s)
  unfolding member insert
  member-insert b a [] = refl
  member-insert b a (x ∷ s) =
      ground (arith, o.cmp_iff a x, o.cmp_iff b x, o.cmp_iff b a, member-insert b a s)

  pub member-erase : (b a : A) (s : Set A) → member b (erase a s) ≡ (not (same b a) && member b s)
  unfolding member erase
  member-erase b a [] = ground arith
  member-erase b a (x ∷ s) =
      ground (arith, o.cmp_iff a x, o.cmp_iff b x, o.cmp_iff b a, member-erase b a s)

-- The find of a set and the walk over it agree.
pub member_iff : {A : Type 0} ⦃o : Ord A⦄ (a : A) (s : Set A) → (member a s ≡ true) ↔ In a s
unfolding member
member_iff a [] = ground arith
member_iff ⦃o⦄ a (x ∷ s) = ground (arith, o.cmp_iff a x, member_iff a s)
