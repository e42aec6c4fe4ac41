-- ===== src/Utils/Pairs.antt =====
-- `Get2Combinations`: each element, with itself and with every one behind it.
use fsracer.Prelude.{◌≡◌, refl, ◌⊎◌, inl, inr, ◌↔◌, List, [], ◌∷◌, ◌++◌, In, arith, map, ap}
use fsracer.Utils.{get_2_combinations}

module _ {A : Type 0} where
  -- `b` is `a` itself or stands behind it, at some place of the list.
  abbrev pub StandsBehind : A → A → List A → Type 0
  StandsBehind a b [] = ⊥
  StandsBehind a b (x ∷ xs) = ((a ≡ x) × In b (x ∷ xs)) ⊎ StandsBehind a b xs

  In-append : (a : A) (xs ys : List A) → In a (xs ++ ys) ↔ (In a xs ⊎ In a ys)
  In-append a [] ys = ground arith
  In-append a (x ∷ xs) ys = ground (arith, In-append a xs ys)

module _ {A : Type 0} (a b : A) where
  In-map-pair :
      (x : A) (ys : List A) → In {A = A × A} (a, b) (map (λ y. (x, y)) ys) ↔ ((a ≡ x) × In b ys)
  In-map-pair x [] = (λ h. absurd h, λ (_, h). absurd h)
  In-map-pair x (y ∷ ys) =
      let rest = In-map-pair x ys in (λ h. to h (rest.0), λ (e, h). back e h (λ e h. rest.1 (e, h)))
    where
      to :
          (Path (A × A) (a, b) (x, y)) ⊎ In {A = A × A} (a, b) (map (λ y. (x, y)) ys)
          → (In {A = A × A} (a, b) (map (λ y. (x, y)) ys) → (a ≡ x) × In b ys)
          → (a ≡ x) × ((b ≡ y) ⊎ In b ys)
      to (inl e) rest = (ap (λ p. p.0) e, inl (ap (λ p. p.1) e))
      to (inr h) rest = let (e, i) = rest h in (e, inr i)

      back :
          a ≡ x
          → (b ≡ y) ⊎ In b ys
          → (a ≡ x → In b ys → In {A = A × A} (a, b) (map (λ y. (x, y)) ys))
          → (Path (A × A) (a, b) (x, y)) ⊎ In {A = A × A} (a, b) (map (λ y. (x, y)) ys)
      back e (inl f) rest = inl (rw (e, f) refl)
      back e (inr i) rest = inr (rest e i)

  -- `Get2Combinations` returns the pairs of an element and one that is itself or stands behind it in the
  -- list, and no other pair.
  get_2_combinations-StandsBehind :
      (xs : List A) → In {A = A × A} (a, b) (get_2_combinations xs) ↔ StandsBehind a b xs
  unfolding get_2_combinations
  get_2_combinations-StandsBehind [] = (λ h. h, λ h. h)
  get_2_combinations-StandsBehind (x ∷ xs) =
      let rest = get_2_combinations-StandsBehind xs in
      let front = In-map-pair x (x ∷ xs) in
      let both =
        In-append {A = A × A} (a, b) (map (λ y. (x, y)) (x ∷ xs)) (get_2_combinations xs) in
      (λ h. either (both.0 h) (front.0) (rest.0), λ h. both.1 (either h (front.1) (rest.1)))
    where
      either : {P Q R S : Type 0} → P ⊎ Q → (P → R) → (Q → S) → R ⊎ S
      either (inl p) f g = inl (f p)
      either (inr q) f g = inr (g q)
