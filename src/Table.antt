-- ===== src/Table.antt =====
-- lib/Table.h.
use fsracer.Prelude.{Option, none, some, Ord, Result, ok, fail, missing_return, ◌>>=◌}
use fsracer.Collections.Map
use fsracer.Collections.Map.{Map, find, assign}

abbrev pub Table {ℓ κ} : Type ℓ → Type κ → Type (ℓ ⊔ κ)
Table K V = Map K V

module _ {ℓ κ} {K : Type ℓ} {V : Type κ} ⦃o : Ord K⦄ where
  abbrev pub add_entry : K → V → Table K V → Table K V
  add_entry key value t = assign key value t

  -- Without the key the function ends with no `return`.
  unfoldable pub pop_entry : K → Table K V → Result (V × Table K V)
  pop_entry key t = elim (find key t) [
    | none ↦ fail missing_return
    | some v ↦ ok (v, Map.erase key t)
  ]

  unfoldable pub remove_entry : K → Table K V → Result (Table K V)
  unfolding pop_entry
  remove_entry key t = pop_entry key t >>= λ r. ok (r.1)

  abbrev pub get_value : K → Table K V → Option V
  get_value key t = find key t
