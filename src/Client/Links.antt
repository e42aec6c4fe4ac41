-- ===== src/Client/Links.antt =====
-- The links of a trace that is collected lead to events that it has created.
use fsracer.Prelude.{
  ℕ, ◌≡◌, sym, ap, Bool, true, Option, none, some, List, [], ◌∷◌, Text, text_ord, same_iff, arith,
}
use fsracer.Utils.{to_string}
use fsracer.Trace.{Expr, Construct, submit_op, new_event, link, trigger, Block}
use fsracer.Graph.Edges.{has_node}
use fsracer.Dependency.{DepState}
use fsracer.Dependency.Blocks.{analyze_block}
use fsracer.Dependency.Links.{LinksKnown, IsLinked, learn, BlocksLinked}
use fsracer.Node.Sound.{IsChained, AllChained, Follows, created}

-- The event that was created right before is known.
abbrev Knows : Option ℕ → (Text → Bool) → Type 0
Knows before known = (id : ℕ) → before ≡ some id → known (to_string id) ≡ true

Knows-learn : (c : Construct) (known : Text → Bool) → Knows (created c) (learn c known)
Knows-learn (submit_op _ _ _) known id e = absurd (cc e)
Knows-learn (new_event id' event) known id e =
    let one : id' ≡ id = cc in
    ground (arith, (same_iff (to_string id) (to_string id')).1 (ap to_string (sym one)))
Knows-learn (link _ _) known id e = absurd (cc e)
Knows-learn (trigger _) known id e = absurd (cc e)

Follows-IsLinked :
    (before : Option ℕ) (c : Construct) (known : Text → Bool)
    → Knows before known
    → Follows before c
    → IsLinked known c
Follows-IsLinked before (submit_op _ _ _) known k f = tt
Follows-IsLinked before (new_event _ _) known k f = tt
Follows-IsLinked before (link source target) known k f = k target f
Follows-IsLinked before (trigger _) known k f = tt

IsChained-LinksKnown :
    (before : Option ℕ) (es : List Expr) (known : Text → Bool)
    → Knows before known
    → IsChained before es
    → LinksKnown known es
IsChained-LinksKnown before [] known k h = tt
IsChained-LinksKnown before (e ∷ es) known k (one, all) = (
  Follows-IsLinked before e.construct known k one,
  IsChained-LinksKnown (created e.construct) es (learn e.construct known)
      (Knows-learn e.construct known) all,
)

pub AllChained-BlocksLinked : (bs : List Block) (st : DepState) → AllChained bs → BlocksLinked bs st
AllChained-BlocksLinked [] st all = tt
AllChained-BlocksLinked (b ∷ bs) st (one, all) = (
  IsChained-LinksKnown none b.exprs (has_node st.dep_graph) (λ id e. absurd (cc e)) one,
  AllChained-BlocksLinked bs (analyze_block b st) all,
)
