-- ===== src/Graph/Sinks.antt =====
-- `GetSinks`: the nodes that no edge leaves.
use fsracer.Prelude.{◌≡◌, ◌⊎◌, inl, inr, ◌↔◌, true, [], ◌∷◌, Text, text_ord, arith, List-cases}
use fsracer.Collections.Set.{member, member-insert}
use fsracer.Graph.{Node, Graph, get_sinks}

-- The entry of a node without dependents, under the name.
abbrev IsSink : {T L : Type 0} → Text → Text × Node T L → Type 0
IsSink u (id, n) = (u ≡ id) × (n.dependents ≡ [])

abbrev HasSink : {T L : Type 0} → Text → Graph T L → Type 0
HasSink u [] = ⊥
HasSink u (entry ∷ g) = IsSink u entry ⊎ HasSink u g

-- `GetSinks` returns the names of the nodes that have no dependent, and no other name.
get_sinks-HasSink :
    {T L : Type 0} (g : Graph T L) (u : Text) → (member u (get_sinks g) ≡ true) ↔ HasSink u g
unfolding get_sinks member
get_sinks-HasSink [] u = ground arith
get_sinks-HasSink ((id, n) ∷ g) u =
    let rest = get_sinks-HasSink g u in
    elim (List-cases n.dependents) [
      | inl e ↦
          rw (get_sinks, e)
            (ground (arith, rest, member-insert u id (get_sinks g), text_ord.cmp_iff u id))
      | inr (d, ds, e) ↦ rw (get_sinks, e) (ground (arith, rest))
    ]
