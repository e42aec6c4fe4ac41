-- ===== src/Node/Sound/NewBlocks.antt =====
-- Blocks that are added to the trace and taken from it.
use fsracer.Prelude.{
  ℕ, suc, ◌+◌, ◌≤◌, ◌≡◌, refl, none, some, List, [], ◌∷◌, ◌++◌, Text, text_ord, length,
  length-append, arith,
}
use fsracer.Collections.Map.{find}
use fsracer.Trace.{Block, BlockType, drop_last, add_block, pop_block}
use fsracer.Generator.{GenState, Value}
use fsracer.Node.Hooks.{start_block, drop_block, add_main_block}
use fsracer.Node.Sound.{IsSound, Fits, AllChained, Rising, RisesTo}

AllChained-concat :
    (bs : List Block) (b : Block) → AllChained bs → b.exprs ≡ [] → AllChained (bs ++ b ∷ [])
AllChained-concat [] b all e = (rw e tt, tt)
AllChained-concat (x ∷ bs) b (one, all) e = (one, AllChained-concat bs b all e)

AllChained-drop_last : (bs : List Block) → AllChained bs → AllChained (drop_last bs)
AllChained-drop_last [] all = tt
AllChained-drop_last (b ∷ []) all = tt
AllChained-drop_last (b ∷ b' ∷ bs) (one, all) = (one, AllChained-drop_last (b' ∷ bs) all)

Rising-le : (high low : ℕ) (bs : List Block) → Rising high low bs → low ≤ high
Rising-le high low [] r = r
Rising-le high low (b ∷ bs) (next, step, r) = by_type b.block_type step (Rising-le high next bs r)
  where
    by_type : (type : BlockType) → RisesTo b.block_id type low next → next ≤ high → low ≤ high
    by_type BlockType.main (below, e) le = omega arith
    by_type BlockType.reg e le = omega arith

Rising-drop_last :
    (high low : ℕ) (bs : List Block) → Rising high low bs → Rising high low (drop_last bs)
Rising-drop_last high low [] r = r
Rising-drop_last high low (b ∷ []) r = Rising-le high low (b ∷ []) r
Rising-drop_last high low (b ∷ b' ∷ bs) (next, step, r) =
    (next, step, Rising-drop_last high next (b' ∷ bs) r)

Rising-concat :
    (high high' low : ℕ) (bs : List Block) (b : Block)
    → Rising high low bs
    → ((l : ℕ) → l ≤ high → Rising high' l (b ∷ []))
    → Rising high' low (bs ++ b ∷ [])
Rising-concat high high' low [] b r one = one low r
Rising-concat high high' low (x ∷ bs) b (next, step, r) one =
    (next, step, Rising-concat high high' next bs b r one)

-- What a new block asks of the state: all that is sound but the current block.
pub record IsReady (st : GenState) : Type 0 where
  pub fits :
      (key : Text) (v : Value) → find key st.store ≡ some v → Fits (length st.trace.exec_ops) key v
  pub chained : AllChained st.trace.blocks
  pub rising : Rising st.main_block_count 0 st.trace.blocks
  pub unfailed : st.error ≡ none

pub IsSound-IsReady : (st : GenState) → IsSound st → IsReady st
IsSound-IsReady st s = record {
  fits = s.fits;
  chained = s.chained;
  rising = s.rising;
  unfailed = s.unfailed;
}

pub drop_block-IsReady : (st : GenState) → IsSound st → IsReady (drop_block st)
unfolding pop_block
drop_block-IsReady st s = record {
  fits = s.fits;
  chained = AllChained-drop_last st.trace.blocks s.chained;
  rising = Rising-drop_last st.main_block_count 0 st.trace.blocks s.rising;
  unfailed = s.unfailed;
}

last_is :
    (bs : List Block) (b : Block) (i : ℕ)
    → some (length bs) ≡ some i
    → suc i ≡ length (bs ++ b ∷ [])
last_is bs b i e = let one : length bs ≡ i = cc in omega (arith, length-append bs (b ∷ []), one)

pub start_block-IsSound :
    (id : ℕ) (st : GenState) → IsReady st → IsSound (start_block id BlockType.reg st)
unfolding start_block add_block
start_block-IsSound id st s =
    let b : Block = record { block_id = id; block_type = BlockType.reg; exprs = [] } in
    record {
      fits = s.fits;
      last = λ i e. last_is st.trace.blocks b i e;
      chained = AllChained-concat st.trace.blocks b s.chained refl;
      rising =
          Rising-concat st.main_block_count st.main_block_count 0 st.trace.blocks b s.rising
            (λ l le. (l, refl, le));
      unfailed = s.unfailed;
    }

pub add_main_block-IsSound : (st : GenState) → IsReady st → IsSound (add_main_block st)
unfolding add_main_block start_block add_block
add_main_block-IsSound st s =
    let n : ℕ = st.main_block_count in
    let b : Block = record { block_id = n + 1; block_type = BlockType.main; exprs = [] } in
    record {
      fits = s.fits;
      last = λ i e. last_is st.trace.blocks b i e;
      chained = AllChained-concat st.trace.blocks b s.chained refl;
      rising =
          Rising-concat n (n + 1) 0 st.trace.blocks b s.rising
            (λ l le. (n + 1, (omega arith, refl), omega arith));
      unfailed = s.unfailed;
    }
