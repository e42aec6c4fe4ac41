-- ===== src/Dependency/Links.antt =====
-- What the expressions of a block keep, if each link leads to a name that is known.
use fsracer.Prelude.{
  ◌≡◌, inl, inr, Bool, true, ◌||◌, List, [], ◌∷◌, Text, text_ord, same, arith, Bool-cases, ℕ,
}
use fsracer.Utils.{to_string}
use fsracer.Trace.{Event, Expr, Construct, submit_op, new_event, link, trigger, Block}
use fsracer.Graph.{add_node, add_node_attr, make_node}
use fsracer.Graph.Edges.{has_node, has_node-add_node, has_node-add_node_attr}
use fsracer.Graph.Closed.{add_node-IsClosed, add_node_attr-IsClosed}
use fsracer.Graph.Names.{add_node-IsNamed, add_node_attr-IsNamed}
use fsracer.Dependency.{
  DepGraph, DepState, creates, happens_before, label_ord, add_alive_event, add_dependencies,
  current_block_id,
}
use fsracer.Dependency.Blocks.{
  connect_pending, analyze_new_event, analyze_link, analyze_trigger, analyze_construct,
  analyze_exprs, analyze_block,
}
use fsracer.Dependency.Edges.{IsGood, Extends, Extends-add_edge, Extends-add_dependencies_loop}

-- The names that are known after a construct.
abbrev pub learn : Construct → (Text → Bool) → Text → Bool
learn (new_event id _) known u = same u (to_string id) || known u
learn _ known u = known u

abbrev pub IsLinked : (Text → Bool) → Construct → Type 0
IsLinked known (link _ target) = known (to_string target) ≡ true
IsLinked known _ = Unit

-- Each link of a block leads to a name that is known, or to an event created before it.
abbrev pub LinksKnown : (Text → Bool) → List Expr → Type 0
LinksKnown known [] = Unit
LinksKnown known (e ∷ es) = IsLinked known e.construct × LinksKnown (learn e.construct known) es

-- Whether each link leads to a node of the graph at that time.
abbrev pub BlocksLinked : List Block → DepState → Type 0
BlocksLinked [] st = Unit
BlocksLinked (b ∷ bs) st =
    LinksKnown (has_node st.dep_graph) b.exprs × BlocksLinked bs (analyze_block b st)

-- A good graph that has all the names that are known.
pub record Holds (known : Text → Bool) (g : DepGraph) : Type 0 where
  pub good : IsGood g
  pub has : (u : Text) → known u ≡ true → has_node g u ≡ true

pub all_nodes : (g : DepGraph) → IsGood g → Holds (has_node g) g
all_nodes g good = record { good = good; has = λ u p. p }

pub Holds-Extends :
    {known : Text → Bool} {g h : DepGraph} → Holds known g → Extends g h → Holds known h
Holds-Extends k e = record { good = e.good; has = λ u p. ground (arith, e.nodes u, k.has u p) }

pub Holds-add_node :
    {known : Text → Bool} (g : DepGraph) (id : Text) (event : Event)
    → Holds known g
    → Holds (λ u. same u id || known u) (add_node id event g)
Holds-add_node g id event k = record {
  good = record {
    closed = add_node-IsClosed g id event k.good.closed;
    named = add_node-IsNamed g id k.good.named event;
  };
  has = λ u p. elim (Bool-cases (same u id)) [
    | inl e ↦ ground (arith, has_node-add_node g id u event)
    | inr e ↦ ground (arith, has_node-add_node g id u event, k.has u (ground arith))
  ];
}

pub Holds-add_node_attr :
    {known : Text → Bool} (g : DepGraph) (id attr : Text)
    → Holds known g
    → Holds known (add_node_attr id attr g)
Holds-add_node_attr g id attr k = record {
  good = record {
    closed = add_node_attr-IsClosed g id attr k.good.closed;
    named = add_node_attr-IsNamed g id k.good.named attr;
  };
  has = λ u p. ground (arith, has_node-add_node_attr g id u attr, k.has u p);
}

pub Holds-connect_pending :
    {known : Text → Bool} (id : Text) (st : DepState)
    → known id ≡ true
    → Holds known st.dep_graph
    → Holds known (connect_pending id st).dep_graph
Holds-connect_pending id st p k = elim (Bool-cases (same st.pending_ev [])) [
  | inl idle ↦ rw (idle, connect_pending) k
  | inr pending ↦
      rw (pending, connect_pending)
        (Holds-Extends k
          (Extends-add_edge st.dep_graph st.pending_ev id happens_before k.good (k.has id p)))
]

Holds-analyze_new_event :
    {known : Text → Bool} (id : ℕ) (event : Event) (st : DepState)
    → Holds known st.dep_graph
    → Holds (λ u. same u (to_string id) || known u) (analyze_new_event id event st).dep_graph
unfolding analyze_new_event add_dependencies add_alive_event
Holds-analyze_new_event {known} id event st k =
    let name = to_string id in
    let self : (same name name || known name) ≡ true = ground (arith, text_ord.cmp_iff name name) in
    let st1 = record st { dep_graph = add_node name event st.dep_graph } in
    let k2 = Holds-connect_pending name st1 self (Holds-add_node st.dep_graph name event k) in
    let g2 = (connect_pending name st1).dep_graph in
    let k3 =
      Holds-Extends k2
        (Extends-add_edge g2 (current_block_id st) name creates k2.good (k2.has name self)) in
    Holds-Extends k3
      (Extends-add_dependencies_loop _ (make_node name event) _ _ k3.good (k3.has name self))

Holds-analyze_link :
    {known : Text → Bool} (source target : ℕ) (st : DepState)
    → known (to_string target) ≡ true
    → Holds known st.dep_graph
    → Holds known (analyze_link source target st).dep_graph
unfolding analyze_link
Holds-analyze_link source target st p k =
    elim (Bool-cases (
      same (to_string source) (current_block_id st)
      || same (to_string source) st.current_context)) [
        | inl skipped ↦ rw skipped k
        | inr other ↦ rw other (
            Holds-Extends k (
              Extends-add_edge st.dep_graph (to_string source) (to_string target) happens_before
                k.good (k.has (to_string target) p)))
      ]

Holds-analyze_construct :
    {known : Text → Bool} (c : Construct) (st : DepState)
    → IsLinked known c
    → Holds known st.dep_graph
    → Holds (learn c known) (analyze_construct c st).dep_graph
unfolding analyze_construct analyze_trigger
Holds-analyze_construct (submit_op _ _ _) st l k = k
Holds-analyze_construct (new_event id event) st l k = Holds-analyze_new_event id event st k
Holds-analyze_construct (link source target) st l k = Holds-analyze_link source target st l k
Holds-analyze_construct (trigger id) st l k = k

pub analyze_exprs-IsGood :
    {known : Text → Bool} (es : List Expr) (st : DepState)
    → LinksKnown known es
    → Holds known st.dep_graph
    → IsGood (analyze_exprs es st).dep_graph
unfolding analyze_exprs
analyze_exprs-IsGood [] st l k = k.good
analyze_exprs-IsGood {known} (e ∷ es) st l k =
    analyze_exprs-IsGood {known = learn e.construct known} es (analyze_construct e.construct st) l.1
      (Holds-analyze_construct e.construct st l.0 k)
