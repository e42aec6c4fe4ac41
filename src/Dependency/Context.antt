-- ===== src/Dependency/Context.antt =====
-- The context of a block, and the links that are skipped because of it.
use fsracer.Prelude.{ℕ, ◌%◌, ◌≡◌, ◌≢◌, true, [], ◌∷◌, text_ord, arith}
use fsracer.Utils.{to_string, all_digits}
use fsracer.Utils.Decimal.{value-to_string, all_digits-to_string, value_from}
use fsracer.Dependency.{DepState, current_block_id, happens}
use fsracer.Dependency.Blocks.{analyze_link, analyze_trigger}

-- A decimal text is never the single byte of its number.
to_string-ne-byte : (n : ℕ) → to_string n ≢ n % 256 ∷ []
unfolding value_from
to_string-ne-byte n h =
    let v : value_from 0 (n % 256 ∷ []) ≡ n = rw h at (value-to_string n) in
    let d : all_digits (n % 256 ∷ []) ≡ true = rw h at (all_digits-to_string n) in ground arith

-- After `trigger e` a link from `e`, which is not the event of the current block, is not skipped, though `e` is
-- the context: its edge is added.
pub analyze_link-analyze_trigger :
    (e target : ℕ) (st : DepState)
    → to_string e ≢ current_block_id st
    → (analyze_link e target (analyze_trigger e st)).dep_graph
      ≡ happens (to_string e) (to_string target) st.dep_graph
unfolding analyze_link analyze_trigger
analyze_link-analyze_trigger e target st ne = ground (
  arith,
  text_ord.cmp_iff (to_string e) (current_block_id st),
  text_ord.cmp_iff (to_string e) (e % 256 ∷ []),
  to_string-ne-byte e,
)
