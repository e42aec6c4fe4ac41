-- ===== src/Dependency/Prune.antt =====
-- `PruneEdges` removes no more than the walks can do without.
use fsracer.Prelude.{
  ◌∙◌, ℕ, ◌≡◌, ◌≢◌, refl, inl, inr, ◌↔◌, Bool, true, false, Option, none, some, [], ◌∷◌, Text,
  text_ord, pair_ord, arith, In, if◌then◌else◌, subst, sym,
}
use fsracer.Collections.Set.{Set, member, member_iff}
use fsracer.Collections.Map.{find}
use fsracer.Graph.{remove_edge, get_node_info}
use fsracer.Graph.Reach.{Edge, Reach, here, step, Reach-trans}
use fsracer.Graph.Edges.{before_of, after_of}
use fsracer.Graph.Mirror.{
  IsMirrored, Apart, Reach-edges, after_of-remove_edge, before_of-remove_edge,
}
use fsracer.Dependency.{
  DepGraph, DepState, EventInfo, happens_before, label_ord, prune_next, prune_with, prune_loop,
  prune_edges,
}
use fsracer.Dependency.Detour.{IsRanked, remove_edge-Edge, remove_edge-kept, up_to, from, Reach-lt}

-- `h` has edges of `g` alone, and the walks of `g`.
record Prunes (g h : DepGraph) : Type 0 where
  edges : (u v : Text) → Edge h u v → Edge g u v
  walks : (u v : Text) → Reach g u v → Reach h u v
  after : (u : Text) → after_of h u ≡ after_of g u
  before : (u : Text) → before_of h u ≡ before_of g u

Prunes-refl : (g : DepGraph) → Prunes g g
Prunes-refl g = record {
  edges = λ u v e. e;
  walks = λ u v r. r;
  after = λ u. refl;
  before = λ u. refl;
}

module _ (rank : Text → ℕ) (g : DepGraph) (ranked : IsRanked rank g) (m : Text) where
  Prunes-remove_edge :
      (s t : Text) (h : DepGraph)
      → s ≢ m
      → m ≢ t
      → Reach g s m
      → Reach g m t
      → Prunes g h
      → Prunes g (remove_edge s t happens_before h)
  Prunes-remove_edge s t h ne ne' to_m of_m p = record {
    edges = λ u v e. p.edges u v (remove_edge-Edge h s t u v e);
    walks = λ u v r. detour u v (p.walks u v r);
    after = λ u. after_of-remove_edge h s t u happens_before ∙ p.after u;
    before = λ u. before_of-remove_edge h s t u happens_before ∙ p.before u;
  }
    where
      still : IsRanked rank h
      still u v e = ranked u v (p.edges u v e)

      around : Reach (remove_edge s t happens_before h) s t
      around =
          Reach-trans
            (up_to rank h still s m t (Reach-lt rank g ranked m t ne' of_m) s m (p.walks s m to_m)
              (omega arith))
            (from rank h still s m t (Reach-lt rank g ranked s m ne to_m) m t (p.walks m t of_m)
              (omega arith))

      detour : (u v : Text) → Reach h u v → Reach (remove_edge s t happens_before h) u v
      detour u v here = here
      detour u v (step {u = w} r e) = elim (remove_edge-kept h s t w v e) [
        | inl (at_s, at_t) ↦
            let rest : Reach (remove_edge s t happens_before h) u s =
              subst (λ x. Reach (remove_edge s t happens_before h) u x) at_s (detour u w r) in
            subst (λ x. Reach (remove_edge s t happens_before h) u x) (sym at_t)
              (Reach-trans rest around)
        | inr kept ↦ step (detour u w r) kept
      ]

  prune_next-Prunes :
      (t : Text) (next_after after : Set Text) (h : DepGraph)
      → m ≢ t
      → Reach g m t
      → ((s : Text) → In s after → (s ≢ m) × Reach g s m)
      → Prunes g h
      → Prunes g (prune_next t next_after after h)
  unfolding prune_next
  prune_next-Prunes t next_after [] h ne of_m to_m p = p
  prune_next-Prunes t next_after (s ∷ after) h ne of_m to_m p =
      prune_next-Prunes t next_after after _ ne of_m (λ x i. to_m x (inr i))
        (one (member s next_after))
    where
      one : (b : Bool) → Prunes g (if b then remove_edge s t happens_before h else h)
      one true = Prunes-remove_edge s t h (to_m s (inl refl)).0 ne (to_m s (inl refl)).1 of_m p
      one false = p

  prune_loop-Prunes :
      (after before : Set Text) (h : DepGraph)
      → ((s : Text) → In s after → (s ≢ m) × Reach g s m)
      → ((t : Text) → In t before → (m ≢ t) × Reach g m t)
      → Prunes g h
      → Prunes g (prune_loop after before h)
  unfolding prune_loop
  prune_loop-Prunes after [] h to_m of_m p = p
  prune_loop-Prunes after (t ∷ before) h to_m of_m p =
      prune_loop-Prunes after before _ to_m (λ x i. of_m x (inr i)) (one (get_node_info t h))
    where
      one : (o : Option EventInfo) → Prunes g (prune_with t after o h)
      one none = p
      one (some info) =
          prune_next-Prunes t info.after after h (of_m t (inl refl)).0 (of_m t (inl refl)).1 to_m p

-- Where each edge leads up in some rank and the graph is mirrored (what the sets `after` and `before` of
-- a node name leads to it, or is led to), `PruneEdges` of any event keeps the order: a walk leads from
-- one event to another afterwards exactly where one did before. Each edge still leads up, and the graph
-- is still mirrored.
pub prune_edges-Reach :
    (rank : Text → ℕ) (event_id : Text) (st : DepState)
    → IsRanked rank st.dep_graph
    → IsMirrored st.dep_graph
    → ((u v : Text) → Reach (prune_edges event_id st).dep_graph u v ↔ Reach st.dep_graph u v)
      × IsRanked rank (prune_edges event_id st).dep_graph
      × IsMirrored (prune_edges event_id st).dep_graph
unfolding prune_edges get_node_info
prune_edges-Reach rank event_id st ranked m = (
  λ u v. (Reach-edges pruned.edges, pruned.walks u v),
  λ u v e. ranked u v (pruned.edges u v e),
  record {
    after =
        λ s t h. let (ne, r) = m.after s t (rw (pruned.after t) at h) in (ne, pruned.walks s t r);
    before =
        λ s t h. let (ne, r) = m.before s t (rw (pruned.before s) at h) in (ne, pruned.walks s t r);
  },
)
  where
    g : DepGraph
    g = st.dep_graph

    to_event :
        (info : EventInfo)
        → find event_id g ≡ some info
        → (s : Text) → In s info.after
        → Apart g s event_id
    to_event info e s i = m.after s event_id (rw e ((member_iff s info.after).1 i))

    of_event :
        (info : EventInfo)
        → find event_id g ≡ some info
        → (t : Text) → In t info.before
        → Apart g event_id t
    of_event info e t i = m.before event_id t (rw e ((member_iff t info.before).1 i))

    go : (o : Option EventInfo) → find event_id g ≡ o → Prunes g (prune_edges event_id st).dep_graph
    go none e = rw (prune_edges, get_node_info, e) (Prunes-refl g)
    go (some info) e =
        rw (prune_edges, get_node_info, e)
          (prune_loop-Prunes rank g ranked event_id info.after info.before g (to_event info e)
            (of_event info e) (Prunes-refl g))

    pruned : Prunes g (prune_edges event_id st).dep_graph
    pruned = go (find event_id g) refl
