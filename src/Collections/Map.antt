-- ===== src/Collections/Map.antt =====
-- `std::map` and `std::unordered_map`: a list of entries in the order of the keys.
use fsracer.Prelude.{
  ◌≡◌, refl, List, [], ◌∷◌, Ordering, arith, Ord, same, Option, none, some, if◌then◌else◌,
}

abbrev pub Map {ℓ κ} : Type ℓ → Type κ → Type (ℓ ⊔ κ)
Map K V = List (K × V)

module _ {ℓ κ} {K : Type ℓ} {V : Type κ} ⦃o : Ord K⦄ where
  unfoldable pub find : K → Map K V → Option V
  find k [] = none
  find k ((j, v) ∷ m) = if same k j then some v else find k m

  -- `m[k] = v`
  unfoldable pub assign : K → V → Map K V → Map K V
  assign k v [] = (k, v) ∷ []
  assign k v ((j, w) ∷ m) =
      let rest = assign k v m in
      elim (o.cmp k j) [
        | Ordering.lt ↦ (k, v) ∷ (j, w) ∷ m
        | Ordering.eq ↦ (k, v) ∷ m
        | Ordering.gt ↦ (j, w) ∷ rest
      ]

  unfoldable pub erase : K → Map K V → Map K V
  erase k [] = []
  erase k ((j, v) ∷ m) = let rest = erase k m in if same k j then rest else (j, v) ∷ rest

  -- `m.emplace(k, v)` keeps an entry that is there.
  unfoldable pub emplace : K → V → Map K V → Map K V
  emplace k v m = elim (find k m) [ none ↦ assign k v m | some _ ↦ m ]

  pub find-assign :
      (j k : K) (v : V) (m : Map K V)
      → find j (assign k v m) ≡ (if same j k then some v else find j m)
  unfolding find assign
  find-assign j k v [] = refl
  find-assign j k v ((i, w) ∷ m) =
      ground (arith, o.cmp_iff j i, o.cmp_iff k i, o.cmp_iff j k, find-assign j k v m)

  pub find-erase :
      (j k : K) (m : Map K V) → find j (erase k m) ≡ (if same j k then none else find j m)
  unfolding find erase
  find-erase j k [] = ground arith
  find-erase j k ((i, w) ∷ m) =
      ground (arith, o.cmp_iff j i, o.cmp_iff k i, o.cmp_iff j k, find-erase j k m)

  pub erase-assign : (k : K) (v : V) (m : Map K V) → erase k (assign k v m) ≡ erase k m
  unfolding erase assign
  erase-assign k v [] = ground (arith, o.cmp_iff k k)
  erase-assign k v ((i, u) ∷ m) = ground (arith, o.cmp_iff k k, o.cmp_iff k i, erase-assign k v m)
