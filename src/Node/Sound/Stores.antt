-- ===== src/Node/Sound/Stores.antt =====
-- Calls on the store, on the executions that it points to, and on the counters.
use fsracer.Prelude.{
  ℕ, zero, suc, ◌≤◌, ◌<◌, ◌≡◌, refl, sym, ◌∙◌, ap, subst, Option, none, some, List, [], ◌∷◌, Text,
  text_ord, same, same_iff, length, arith, ok, Option-cases, Bool-cases, inl, inr,
}
use fsracer.Collections.Map
use fsracer.Collections.Map.{Map, find, assign, find-assign, find-erase}
use fsracer.Trace.{ExecOp}
use fsracer.Generator.{
  GenState, Value, int_ptr, bool_ptr, chars, string_ptr, set_ptr, exec_op_ptr, update_at,
  on_exec_op, put_exec_ops, add_to_store, pop_from_store, as_int, as_bool, as_string, as_set,
  as_chars,
}
use fsracer.Node.Sound.{Kind, kind_at, IsSound, Fits, Ends}

-- With the same blocks, current block, number of main blocks and error, what fits is all that counts.
pub keep_blocks :
    (st st' : GenState)
    → IsSound st
    → st'.trace.blocks ≡ st.trace.blocks
    → st'.current_block ≡ st.current_block
    → st'.main_block_count ≡ st.main_block_count
    → st'.error ≡ st.error
    → ((key : Text) (v : Value)
        → find key st'.store ≡ some v
        → Fits (length st'.trace.exec_ops) key v)
    → IsSound st'
keep_blocks st st' s blocks current count error fits = record {
  fits = fits;
  last = rw (blocks, current) s.last;
  chained = rw blocks s.chained;
  rising = rw (blocks, count) s.rising;
  unfailed = error ∙ s.unfailed;
}

pub Fits-le : (m n : ℕ) (key : Text) (v : Value) → m ≤ n → Fits m key v → Fits n key v
Fits-le m n key (int_ptr _) le f = f
Fits-le m n key (bool_ptr _) le f = f
Fits-le m n key (chars _) le f = f
Fits-le m n key (string_ptr _) le f = f
Fits-le m n key (set_ptr _) le f = f
Fits-le m n key (exec_op_ptr i) le (k, below) = (k, omega arith)

pub Fits-assign :
    (n : ℕ) (key : Text) (v : Value) (store : Map Text Value)
    → ((k : Text) (w : Value) → find k store ≡ some w → Fits n k w)
    → Fits n key v
    → (k : Text) (w : Value) → find k (assign key v store) ≡ some w
    → Fits n k w
Fits-assign n key v store all one k w found = elim (Bool-cases (same k key)) [
  | inl t ↦
      let stored : some v ≡ some w = rw (find-assign k key v store, t) at found in
      let value : v ≡ w = cc in
      subst (λ u. Fits n k u) value (subst (λ j. Fits n j v) (sym ((same_iff k key).0 t)) one)
  | inr f ↦ all k w (rw (find-assign k key v store, f) at found)
]

pub add_to_store-IsSound :
    (key : Text) (v : Value) (st : GenState)
    → IsSound st
    → Fits (length st.trace.exec_ops) key v
    → IsSound (add_to_store key v st)
unfolding add_to_store
add_to_store-IsSound key v st s one =
    keep_blocks st (add_to_store key v st) s refl refl refl refl
      (Fits-assign (length st.trace.exec_ops) key v st.store s.fits one)

-- The value that leaves the store, and the state behind it.
pub record Popped (key : Text) (st : GenState) (r : Option Value × GenState) : Type 0 where
  pub sound : IsSound r.1
  pub value : (v : Value) → r.0 ≡ some v → Fits (length st.trace.exec_ops) key v
  pub trace : r.1.trace ≡ st.trace
  pub current : r.1.current_block ≡ st.current_block

pub pop_from_store-Popped :
    (key : Text) (st : GenState) → IsSound st → Popped key st (pop_from_store key st)
unfolding pop_from_store
pop_from_store-Popped key st s = elim (Option-cases (find key st.store)) [
  | inl absent ↦
      let same_state : pop_from_store key st ≡ (none, st) = rw (pop_from_store, absent) refl in
      subst (Popped key st) (sym same_state)
        (record { sound = s; value = λ v e. absurd (cc e); trace = refl; current = refl })
  | inr (w, found) ↦
      let popped : pop_from_store key st ≡ (some w, record st { store = Map.erase key st.store }) =
        rw (pop_from_store, found) refl in
      subst (Popped key st) (sym popped) (record {
        sound =
            keep_blocks st (record st { store = Map.erase key st.store }) s refl refl refl refl
              (λ k v e. elim (Bool-cases (same k key)) [
                | inl t ↦
                    let gone : none ≡ some v = rw (find-erase k key st.store, t) at e in
                    absurd (cc gone)
                | inr f ↦ s.fits k v (rw (find-erase k key st.store, f) at e)
              ]);
        value = λ v e. let one : w ≡ v = cc in s.fits key v (found ∙ e);
        trace = refl;
        current = refl;
      })
]

update_at-length :
    {A : Type 0} (f : A → A) (i : ℕ) (xs : List A)
    → i < length xs
    → (ys : List A) × (update_at i (λ x. ok (f x)) xs ≡ ok ys) × (length ys ≡ length xs)
unfolding update_at
update_at-length f i [] h = absurd (omega arith)
update_at-length f zero (x ∷ xs) h = (f x ∷ xs, refl, refl)
update_at-length f (suc i) (x ∷ xs) h =
    let (ys, e, l) = update_at-length f i xs (omega arith) in (x ∷ ys, rw e refl, ap suc l)

-- What a call on an execution leaves alone.
abbrev pub SameBlocks : GenState → GenState → Type 0
SameBlocks st st' =
    (st'.current_block ≡ st.current_block)
    × (st'.trace.blocks ≡ st.trace.blocks)
    × (st'.store ≡ st.store)

pub on_exec_op-Ends :
    (f : ExecOp → ExecOp) (key : Text) (v : Value) (st : GenState)
    → kind_at key ≡ Kind.execution
    → IsSound st
    → Fits (length st.trace.exec_ops) key v
    → Ends (λ st'. IsSound st') (on_exec_op f v st)
unfolding on_exec_op
on_exec_op-Ends f key (exec_op_ptr i) st k s (_, below) =
    let (ys, e, l) = update_at-length f i st.trace.exec_ops below in
    rw e (
      keep_blocks st (put_exec_ops st ys) s refl refl refl refl
        (λ key' v' found. rw l (s.fits key' v' found)))
on_exec_op-Ends f key (int_ptr _) st k s fit = cc
on_exec_op-Ends f key (bool_ptr _) st k s fit = cc
on_exec_op-Ends f key (chars _) st k s fit = cc
on_exec_op-Ends f key (string_ptr _) st k s fit = cc
on_exec_op-Ends f key (set_ptr _) st k s fit = cc

-- No value of the store is read at another type than its own.
module _ (n : ℕ) (key : Text) where
  pub as_int-Ends :
      (v : Value) → kind_at key ≡ Kind.number → Fits n key v → Ends (λ _. Unit {0}) (as_int v)
  as_int-Ends (int_ptr _) k fit = tt
  as_int-Ends (bool_ptr _) k fit = absurd (cc (k, fit))
  as_int-Ends (chars _) k fit = absurd (cc (k, fit))
  as_int-Ends (string_ptr _) k fit = absurd (cc (k, fit))
  as_int-Ends (set_ptr _) k fit = absurd (cc (k, fit))
  as_int-Ends (exec_op_ptr _) k fit = absurd (cc (k, fit.0))

  pub as_bool-Ends :
      (v : Value) → kind_at key ≡ Kind.flag → Fits n key v → Ends (λ _. Unit {0}) (as_bool v)
  as_bool-Ends (int_ptr _) k fit = absurd (cc (k, fit))
  as_bool-Ends (bool_ptr _) k fit = tt
  as_bool-Ends (chars _) k fit = absurd (cc (k, fit))
  as_bool-Ends (string_ptr _) k fit = absurd (cc (k, fit))
  as_bool-Ends (set_ptr _) k fit = absurd (cc (k, fit))
  as_bool-Ends (exec_op_ptr _) k fit = absurd (cc (k, fit.0))

  pub as_string-Ends :
      (v : Value) → kind_at key ≡ Kind.text → Fits n key v → Ends (λ _. Unit {0}) (as_string v)
  as_string-Ends (int_ptr _) k fit = absurd (cc (k, fit))
  as_string-Ends (bool_ptr _) k fit = absurd (cc (k, fit))
  as_string-Ends (chars _) k fit = absurd (cc (k, fit))
  as_string-Ends (string_ptr _) k fit = tt
  as_string-Ends (set_ptr _) k fit = absurd (cc (k, fit))
  as_string-Ends (exec_op_ptr _) k fit = absurd (cc (k, fit.0))

  pub as_set-Ends :
      (v : Value) → kind_at key ≡ Kind.numbers → Fits n key v → Ends (λ _. Unit {0}) (as_set v)
  as_set-Ends (int_ptr _) k fit = absurd (cc (k, fit))
  as_set-Ends (bool_ptr _) k fit = absurd (cc (k, fit))
  as_set-Ends (chars _) k fit = absurd (cc (k, fit))
  as_set-Ends (string_ptr _) k fit = absurd (cc (k, fit))
  as_set-Ends (set_ptr _) k fit = tt
  as_set-Ends (exec_op_ptr _) k fit = absurd (cc (k, fit.0))

  pub as_chars-Ends :
      (o : Option Value)
      → kind_at key ≡ Kind.path
      → ((v : Value) → o ≡ some v → Fits n key v)
      → Ends (λ _. Unit {0}) (as_chars o)
  as_chars-Ends none k fit = tt
  as_chars-Ends (some (chars _)) k fit = tt
  as_chars-Ends (some (int_ptr x)) k fit = absurd (cc (k, fit (int_ptr x) refl))
  as_chars-Ends (some (bool_ptr x)) k fit = absurd (cc (k, fit (bool_ptr x) refl))
  as_chars-Ends (some (string_ptr x)) k fit = absurd (cc (k, fit (string_ptr x) refl))
  as_chars-Ends (some (set_ptr x)) k fit = absurd (cc (k, fit (set_ptr x) refl))
  as_chars-Ends (some (exec_op_ptr x)) k fit = absurd (cc (k, (fit (exec_op_ptr x) refl).0))
