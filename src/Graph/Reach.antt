-- ===== src/Graph/Reach.antt =====
-- What an edge and a walk of a graph are, independently of the search.
use fsracer.Prelude.{◌≡◌, ◌⊎◌, some, [], ◌∷◌, Text, text_ord}
use fsracer.Collections.Set.{Set}
use fsracer.Collections.Map.{find}
use fsracer.Graph.{Node, Graph}

-- `v` is the name of a dependent, under some label.
abbrev pub HasTarget : {L : Type 0} → Text → Set (Text × L) → Type 0
HasTarget v [] = ⊥
HasTarget v ((w, _) ∷ ds) = (v ≡ w) ⊎ HasTarget v ds

module _ {T L : Type 0} where
  abbrev pub IsNode : Graph T L → Text → Type 0
  IsNode g u = (n : Node T L) × (find u g ≡ some n)

  abbrev pub Edge : Graph T L → Text → Text → Type 0
  Edge g u v = (n : Node T L) × (find u g ≡ some n) × HasTarget v n.dependents

  -- Every dependent is a node.
  abbrev pub IsClosed : Graph T L → Type 0
  IsClosed g = (u v : Text) → Edge g u v → IsNode g v

-- The walks from `source`.
pub data Reach {T L : Type 0} (g : Graph T L) (source : Text) : Text → Type 0 where
  here : Reach g source source
  step : {u v : Text} → Reach g source u → Edge g u v → Reach g source v

module _ {T L : Type 0} {g : Graph T L} where
  pub Reach-trans : {u v w : Text} → Reach g u v → Reach g v w → Reach g u w
  Reach-trans p here = p
  Reach-trans p (step q e) = step (Reach-trans p q) e

  pub Reach-IsNode : IsClosed g → {u v : Text} → IsNode g u → Reach g u v → IsNode g v
  Reach-IsNode closed n here = n
  Reach-IsNode closed n (step {u} {v} p e) = closed u v e
