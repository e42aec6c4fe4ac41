-- ===== src/Graph.antt =====
-- lib/Graph.h: the generic graph over node names. `GraphPrinter` is the interface `Printer`.
pub mod Reach
pub mod Work
pub mod Search
pub mod Edges
pub mod Closed
pub mod Names
pub mod Sinks
pub mod Mirror
pub mod Print
pub mod Csv
use fsracer.Prelude.{
  ℕ, zero, suc, ◌+◌, Bool, true, false, Option, none, some, List, [], ◌∷◌, Text, Ord, text_ord,
  pair_ord, same, Result, ok, fail, assertion, out_of_fuel, ◌>>=◌, if◌then◌else◌, length,
}
use fsracer.Collections.Set
use fsracer.Collections.Set.{Set, member}
use fsracer.Collections.Map.{Map, find, assign, emplace}

pub record Node (T L : Type 0) : Type 0 where
  pub node_id : Text
  pub node_obj : T
  pub dependents : Set (Text × L)
  pub before : Set Text
  pub after : Set Text
  pub attributes : Set Text

pub data GraphFormat : Type 0 where
  dot csv : GraphFormat

abbrev pub Graph : Type 0 → Type 0 → Type 0
Graph T L = Map Text (Node T L)

module _ {T L : Type 0} where
  -- The constructor of `Node` with a name and an object.
  abbrev pub make_node : Text → T → Node T L
  make_node id obj = record {
    node_id = id;
    node_obj = obj;
    dependents = [];
    before = [];
    after = [];
    attributes = [];
  }

  unfoldable pub has_attribute : Text → Node T L → Bool
  has_attribute attr n = member attr n.attributes

  abbrev pub add_attribute : Text → Node T L → Node T L
  add_attribute attr n = record n { attributes = Set.insert attr n.attributes }

  abbrev pub remove_attribute : Text → Node T L → Node T L
  remove_attribute attr n = record n { attributes = Set.erase attr n.attributes }

  unfoldable pub add_node : Text → T → Graph T L → Graph T L
  add_node id obj g = emplace id (make_node id obj) g

  -- What an iterator that `find` returned does to its node.
  abbrev pub put_back : Text → (Node T L → Node T L) → Graph T L → Option (Node T L) → Graph T L
  put_back id f g none = g
  put_back id f g (some n) = assign id (f n) g

  unfoldable pub update_node : Text → (Node T L → Node T L) → Graph T L → Graph T L
  update_node id f g = put_back id f g (find id g)

  unfoldable pub add_node_attr : Text → Text → Graph T L → Graph T L
  add_node_attr id attr g = update_node id (add_attribute attr) g

  unfoldable pub remove_node_attr : Text → Text → Graph T L → Graph T L
  remove_node_attr id attr g = update_node id (remove_attribute attr) g

  unfoldable pub has_node_attr : Text → Text → Graph T L → Bool
  unfolding has_attribute
  has_node_attr id attr g = elim (find id g) [ none ↦ false | some n ↦ has_attribute attr n ]

  unfoldable pub get_node_info : Text → Graph T L → Option (Node T L)
  get_node_info id g = find id g

  unfoldable pub is_empty : Graph T L → Bool
  is_empty [] = true
  is_empty (_ ∷ _) = false

  unfoldable pub get_sinks : Graph T L → Set Text
  get_sinks [] = []
  get_sinks ((id, n) ∷ g) =
      let sinks = get_sinks g in elim n.dependents [ [] ↦ Set.insert id sinks | _ ∷ _ ↦ sinks ]

module _ {T L : Type 0} ⦃q : Ord L⦄ where
  -- The rest of `AddEdge` by what `find` returns for the source and for the target. The target may
  -- be no node: its name is a dependent all the same.
  abbrev pub connect :
      Text → Text → L → Graph T L → Option (Node T L) → Option (Node T L) → Graph T L
  connect source target label g none _ = g
  connect source target label g (some n) none =
      assign source (record n { dependents = Set.insert (target, label) n.dependents }) g
  connect source target label g (some n) (some m) =
      assign target (record m { after = Set.insert source m.after })
        (assign source
          (record n {
            dependents = Set.insert (target, label) n.dependents;
            before = Set.insert target n.before;
          })
          g)

  unfoldable pub add_edge : Text → Text → L → Graph T L → Graph T L
  add_edge source target label g =
      if same source target
      then g
      else connect source target label g (find source g) (find target g)

  abbrev pub remove_dependent : Text × L → Node T L → Node T L
  remove_dependent d n = record n { dependents = Set.erase d n.dependents }

  unfoldable pub remove_edge : Text → Text → L → Graph T L → Graph T L
  remove_edge source target label g = update_node source (remove_dependent (target, label)) g

-- The `for` loop of `DFS`: the names not visited go on the stack.
unfoldable pub push_dependents : {L : Type 0} → Set Text → Set (Text × L) → List Text → List Text
push_dependents visited [] pool = pool
push_dependents visited ((n, _) ∷ rest) pool =
    push_dependents visited rest (if member n visited then pool else n ∷ pool)

module _ {T L : Type 0} where
  -- The `while` loop of `DFS`. The top of the stack is the head of `pool`.
  unfoldable pub dfs_loop : Graph T L → ℕ → Set Text → List Text → Result (Set Text)
  dfs_loop g fuel visited [] = ok visited
  dfs_loop g zero visited (node ∷ pool) = fail out_of_fuel
  dfs_loop g (suc fuel) visited (node ∷ pool) = elim (member node visited) [
    | true ↦ dfs_loop g fuel visited pool
    | false ↦ elim (find node g) [
      | none ↦ fail assertion
      | some n ↦
          let seen = Set.insert node visited in
          dfs_loop g fuel seen (push_dependents seen n.dependents pool)
    ]
  ]

  -- A name goes on the stack at most once for each edge.
  unfoldable pub edge_count : Graph T L → ℕ
  edge_count [] = 0
  edge_count ((_, n) ∷ g) = length n.dependents + edge_count g

  unfoldable pub dfs : Graph T L → Text → Result (Set Text)
  dfs g source = dfs_loop g (suc (edge_count g)) [] (source ∷ [])

  unfoldable pub has_path : Graph T L → Text → Text → Result Bool
  has_path g source target = dfs g source >>= λ visited. ok (member target visited)
