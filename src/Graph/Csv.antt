-- ===== src/Graph/Csv.antt =====
-- `PrintCSV`: the set of edges that it prints.
use fsracer.Prelude.{
  ◌≡◌, ◌⊎◌, Bool, true, false, Option, none, some, [], ◌∷◌, Text, Ord, text_ord, pair_ord,
}
use fsracer.Collections.Set.{Set}
use fsracer.Collections.Map.{Map, find}
use fsracer.Graph.{Node, Graph}
use fsracer.Graph.Print.{EdgeSet}

abbrev pub Key : Type 0 → Type 0
Key L = (Text × Text) × L

abbrev pub is_some : {A : Type 0} → Option A → Bool
is_some none = false
is_some (some _) = true

module _ {T L : Type 0} (g : Graph T L) where
  -- The edge leads from the source, by one of the dependents, to a node.
  abbrev pub Leaves : Node T L → Key L → Set (Text × L) → Type 0
  Leaves source key [] = ⊥
  Leaves source key ((target, label) ∷ dependents) =
      ((node : Node T L) × (find target g ≡ some node)
        × (key ≡ ((source.node_id, node.node_id), label)))
      ⊎ Leaves source key dependents

  abbrev pub IsEdgeOf : Key L → Graph T L → Type 0
  IsEdgeOf key [] = ⊥
  IsEdgeOf key ((_, source) ∷ rest) = Leaves source key source.dependents ⊎ IsEdgeOf key rest

module _ {T L : Type 0} ⦃q : Ord L⦄ (g : Graph T L) (key : Key L) where
  abbrev pub has_key : EdgeSet T L → Bool
  has_key edges = is_some (find key edges)
