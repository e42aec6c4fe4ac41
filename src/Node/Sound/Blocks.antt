-- ===== src/Node/Sound/Blocks.antt =====
-- Calls on the current block.
use fsracer.Prelude.{
  ℕ, zero, suc, ◌<◌, ◌≡◌, refl, sym, ◌∙◌, ap, subst, none, some, List, [], ◌∷◌, Text, text_ord,
  length, arith, Result, ok, Option-cases, inl, inr,
}
use fsracer.Trace.{Block}
use fsracer.Generator.{
  GenState, has_failed, abort_with_err, done, at_position, update_at, on_current_block,
}
use fsracer.Node.{check_block}
use fsracer.Node.Sound.{IsSound, IsChained, AllChained, Rising, Ends, Current}

abbrev replace {ℓ} : {A : Type ℓ} → ℕ → A → List A → List A
replace i y [] = []
replace zero y (x ∷ xs) = y ∷ xs
replace (suc i) y (x ∷ xs) = x ∷ replace i y xs

update_at-replace :
    {A : Type 0} (f : A → Result A) (i : ℕ) (xs : List A) {x y : A}
    → at_position i xs ≡ ok x
    → f x ≡ ok y
    → update_at i f xs ≡ ok (replace i y xs)
unfolding update_at at_position
update_at-replace f i [] at e = cc
update_at-replace f zero (x ∷ xs) at e = ground arith
update_at-replace f (suc i) (x ∷ xs) at e = ground (arith, update_at-replace f i xs at e)

length-replace : {A : Type 0} (i : ℕ) (y : A) (xs : List A) → length (replace i y xs) ≡ length xs
length-replace i y [] = refl
length-replace zero y (x ∷ xs) = refl
length-replace (suc i) y (x ∷ xs) = ap suc (length-replace i y xs)

at_position-replace :
    {A : Type 0} (i : ℕ) (xs : List A) {x y : A}
    → at_position i xs ≡ ok x
    → at_position i (replace i y xs) ≡ ok y
unfolding at_position
at_position-replace i [] at = cc
at_position-replace zero (x ∷ xs) at = refl
at_position-replace (suc i) (x ∷ xs) at = at_position-replace i xs at

AllChained-replace :
    (i : ℕ) (y : Block) (xs : List Block)
    → AllChained xs
    → IsChained none y.exprs
    → AllChained (replace i y xs)
AllChained-replace i y [] all one = tt
AllChained-replace zero y (x ∷ xs) all one = (one, all.1)
AllChained-replace (suc i) y (x ∷ xs) all one = (all.0, AllChained-replace i y xs (all.1) one)

Rising-replace :
    (i : ℕ) (y : Block) (xs : List Block) {x : Block} (high low : ℕ)
    → at_position i xs ≡ ok x
    → y.block_id ≡ x.block_id
    → y.block_type ≡ x.block_type
    → Rising high low xs
    → Rising high low (replace i y xs)
unfolding at_position
Rising-replace i y [] high low at id type r = r
Rising-replace zero y (z ∷ xs) {x} high low at id type (next, step, r) =
    let one : z ≡ x = cc in (next, rw (id, type, sym one) step, r)
Rising-replace (suc i) y (z ∷ xs) high low at id type (next, step, r) =
    (next, step, Rising-replace i y xs high next at id type r)

pub at_position-below :
    {A : Type 0} (i : ℕ) (xs : List A) → i < length xs → (x : A) × (at_position i xs ≡ ok x)
unfolding at_position
at_position-below i [] h = absurd (omega arith)
at_position-below zero (x ∷ xs) h = (x, refl)
at_position-below (suc i) (x ∷ xs) h = at_position-below i xs (omega arith)

AllChained-at :
    (i : ℕ) (xs : List Block) {x : Block}
    → at_position i xs ≡ ok x
    → AllChained xs
    → IsChained none x.exprs
unfolding at_position
AllChained-at i [] at all = cc
AllChained-at zero (z ∷ xs) {x} at all =
    let one : z ≡ x = cc in subst (λ b. IsChained none b.exprs) one (all.0)
AllChained-at (suc i) (z ∷ xs) at all = AllChained-at i xs at (all.1)

-- Where there is a current block, it is a block of the trace.
pub IsSound-Current :
    (st : GenState) (i : ℕ) → IsSound st → st.current_block ≡ some i → Current (λ _. Unit {0}) st
IsSound-Current st i s e =
    let (b, at) = at_position-below i st.trace.blocks (omega (arith, s.last i e)) in
    (i, b, e, at, tt)

pub check_block-Ends :
    (msg : Text) (st : GenState)
    → IsSound st
    → Ends (λ _. Current (λ _. Unit {0}) st) (check_block msg st)
unfolding check_block abort_with_err has_failed
check_block-Ends msg st s = elim (Option-cases st.current_block) [
  | inl none_yet ↦ rw (none_yet) refl
  | inr (i, e) ↦
      let passed : check_block msg st ≡ done tt = rw (e, check_block) refl in
      subst (Ends (λ _. Current (λ _. Unit {0}) st)) (sym passed) (IsSound-Current st i s e)
]

-- What a call may do to the current block: it returns a chained block that keeps its number.
abbrev pub Changes : (Block → Type 0) → (Block → Type 0) → (Block → Result Block) → Type 0
Changes P Q f =
    (b : Block)
    → IsChained none b.exprs
    → P b
    → (b' : Block) × (f b ≡ ok b')
      × IsChained none b'.exprs
      × (b'.block_id ≡ b.block_id)
      × (b'.block_type ≡ b.block_type)
      × Q b'

pub on_current_block-Ends :
    (P Q : Block → Type 0) (f : Block → Result Block) (st : GenState)
    → IsSound st
    → Current P st
    → Changes P Q f
    → Ends (λ st'. IsSound st' × Current Q st') (on_current_block f st)
unfolding on_current_block
on_current_block-Ends P Q f st s (i, b, e, at, p) change =
    let (b', eq, chained, id, type, q) =
      change b (AllChained-at i st.trace.blocks at s.chained) p in
    rw (e, update_at-replace f i st.trace.blocks at eq)
      (
        record {
          fits = s.fits;
          last = λ j here. s.last j (e ∙ here) ∙ sym (length-replace i b' st.trace.blocks);
          chained = AllChained-replace i b' st.trace.blocks s.chained chained;
          rising = Rising-replace i b' st.trace.blocks st.main_block_count 0 at id type s.rising;
          unfailed = s.unfailed;
        },
        (i, b', refl, at_position-replace i st.trace.blocks at, q),
      )
