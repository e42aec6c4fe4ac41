-- ===== src/Node/Sound/Expressions.antt =====
-- Expressions at the end of the current block, and the sets of the store.
use fsracer.Prelude.{
  ℕ, ◌≡◌, refl, sym, subst, Option, none, some, List, [], ◌∷◌, ◌++◌, Text, text_ord, nat_ord,
  length, ok, Option-cases, inl, inr,
}
use fsracer.Collections.Map.{find}
use fsracer.Collections.Set.{insert, member}
use fsracer.Trace.{
  Expr, Construct, DebugInfo, new_event, link, Event, Block, add_expr, pop_expr, drop_last,
}
use fsracer.Generator.{
  GenState, Value, set_ptr, Reply, done, ◌>>>◌, add_to_store, get_store_value, as_set,
}
use fsracer.Node.{check_block, add_to_set, has_event_id}
use fsracer.Node.Hooks.{make_expr, add_to_block, pop_from_block}
use fsracer.Node.Sound.{
  Kind, kind_at, IsSound, Fits, Follows, IsChained, created, Ends, Ends-bind, Current, Ends-map,
}
use fsracer.Node.Sound.Stores.{add_to_store-IsSound, as_set-Ends}
use fsracer.Node.Sound.Blocks.{check_block-Ends, on_current_block-Ends, Changes}
use fsracer.Node.Sound.Submit.{IsChained-add}

-- The last expression of the block creates the event.
abbrev pub EndsWith : ℕ → Block → Type 0
EndsWith id b =
    (es : List Expr) × (e : Expr) × (b.exprs ≡ es ++ e ∷ []) × (created e.construct ≡ some id)

abbrev pub Some : Block → Type 0
Some _ = Unit

IsChained-link :
    (e l : Expr) (source target : ℕ) (before : Option ℕ) (es : List Expr)
    → created e.construct ≡ some target
    → l.construct ≡ link source target
    → IsChained before (es ++ e ∷ [])
    → IsChained before ((es ++ e ∷ []) ++ l ∷ [])
IsChained-link e l source target before [] c k (one, _) =
    (one, (subst (Follows (created e.construct)) (sym k) c, tt))
IsChained-link e l source target before (x ∷ es) c k (one, all) =
    (one, IsChained-link e l source target (created x.construct) es c k all)

IsChained-drop_last :
    (before : Option ℕ) (es : List Expr) → IsChained before es → IsChained before (drop_last es)
IsChained-drop_last before [] h = tt
IsChained-drop_last before (e ∷ []) h = tt
IsChained-drop_last before (e ∷ e' ∷ es) (one, all) =
    (one, IsChained-drop_last (created e.construct) (e' ∷ es) all)

add-Changes :
    (construct : Construct) (debug : DebugInfo)
    → ((o : Option ℕ) → Follows o construct)
    → Changes Some Some (λ b. ok (add_expr (make_expr construct debug) b))
unfolding add_expr
add-Changes construct debug free b chained _ =
    let e : Expr = make_expr construct debug in
    (
      record b { exprs = b.exprs ++ e ∷ [] },
      refl,
      IsChained-add e none b.exprs free chained,
      refl,
      refl,
      tt,
    )

pub add_event-Changes :
    (id : ℕ) (event : Event) (debug : DebugInfo)
    → Changes Some (EndsWith id) (λ b. ok (add_expr (make_expr (new_event id event) debug) b))
unfolding add_expr
add_event-Changes id event debug b chained _ =
    let e : Expr = make_expr (new_event id event) debug in
    (
      record b { exprs = b.exprs ++ e ∷ [] },
      refl,
      IsChained-add e none b.exprs (λ o. tt) chained,
      refl,
      refl,
      (b.exprs, e, refl, refl),
    )

pub link-Changes :
    (source target : ℕ)
    → Changes (EndsWith target) Some (λ b. ok (add_expr (make_expr (link source target) []) b))
unfolding add_expr
link-Changes source target b chained (es, e, ends, c) =
    let l : Expr = make_expr (link source target) [] in
    let longer : IsChained none ((es ++ e ∷ []) ++ l ∷ []) =
      IsChained-link e l source target none es c refl (subst (IsChained none) ends chained) in
    (
      record b { exprs = b.exprs ++ l ∷ [] },
      refl,
      subst (λ xs. IsChained none (xs ++ l ∷ [])) (sym ends) longer,
      refl,
      refl,
      tt,
    )

pop-Changes : Changes Some Some (λ b. ok (pop_expr b))
unfolding pop_expr
pop-Changes b chained _ = (
  record b { exprs = drop_last b.exprs },
  refl,
  IsChained-drop_last none b.exprs chained,
  refl,
  refl,
  tt,
)

-- What a step leaves: a sound state with such a current block.
abbrev pub Leaves : (Block → Type 0) → GenState → Type 0
Leaves P st = IsSound st × Current P st

pub add_to_block-Ends :
    (construct : Construct) (debug : DebugInfo) (st : GenState)
    → ((o : Option ℕ) → Follows o construct)
    → Leaves Some st
    → Ends (Leaves Some) (add_to_block construct debug st)
add_to_block-Ends construct debug st free (s, here) =
    on_current_block-Ends Some Some (λ b. ok (add_expr (make_expr construct debug) b)) st s here
      (add-Changes construct debug free)

pub pop_from_block-Ends : (st : GenState) → Leaves Some st → Ends (Leaves Some) (pop_from_block st)
pop_from_block-Ends st (s, here) =
    on_current_block-Ends Some Some (λ b. ok (pop_expr b)) st s here pop-Changes

pub Leaves-IsSound : (P : Block → Type 0) (r : Reply GenState) → Ends (Leaves P) r → Ends IsSound r
Leaves-IsSound P r = Ends-map (Leaves P) IsSound r (λ st kept. kept.0)

-- A step on the current block behind the check that there is one.
pub checked-Ends :
    (msg : Text) (st : GenState) (next : Reply GenState)
    → IsSound st
    → (Current Some st → Ends IsSound next)
    → Ends IsSound (check_block msg st >>> λ _. next)
checked-Ends msg st next s k =
    Ends-bind (λ _. Current Some st) IsSound (check_block msg st) (λ _. next)
      (check_block-Ends msg st s) (λ _ here. k here)

module _ (key : Text) (event_id : ℕ) where
  pub add_to_set-Ends :
      (st : GenState)
      → kind_at key ≡ Kind.numbers
      → IsSound st
      → Ends IsSound (add_to_set event_id key st)
  unfolding add_to_set get_store_value
  add_to_set-Ends st k s = elim (Option-cases (find key st.store)) [
    | inl absent ↦ rw (add_to_set, absent) s
    | inr (v, found) ↦
        rw (add_to_set, found)
          (Ends-bind (λ _. Unit {0}) IsSound (as_set v)
            (λ numbers. done (add_to_store key (set_ptr (insert event_id numbers)) st))
            (as_set-Ends (length st.trace.exec_ops) key v k (s.fits key v found))
            (λ numbers _. add_to_store-IsSound key (set_ptr (insert event_id numbers)) st s k))
  ]

  pub has_event_id-Ends :
      (st : GenState)
      → kind_at key ≡ Kind.numbers
      → ((v : Value) → find key st.store ≡ some v → Fits (length st.trace.exec_ops) key v)
      → Ends (λ _. Unit {0}) (has_event_id event_id key st)
  unfolding has_event_id get_store_value
  has_event_id-Ends st k fits = elim (Option-cases (find key st.store)) [
    | inl absent ↦ rw (has_event_id, absent) tt
    | inr (v, found) ↦
        rw (has_event_id, found)
          (Ends-bind (λ _. Unit {0}) (λ _. Unit {0}) (as_set v)
            (λ numbers. done (member event_id numbers))
            (as_set-Ends (length st.trace.exec_ops) key v k (fits v found)) (λ numbers _. tt))
  ]
