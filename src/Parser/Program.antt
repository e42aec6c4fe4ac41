-- ===== src/Parser/Program.antt =====
-- tools/fsracer/TraceParser.y: expressions, blocks, operations and the whole trace.
use fsracer.Prelude.{
  ℕ, zero, suc, Option, none, some, List, [], ◌∷◌, Text, text_ord, length, Result, ok, fail,
  syntax_error, out_of_fuel, ◌>>=◌,
}
use fsracer.Trace.{
  Event, EventType, Expr, Construct, submit_async, submit_sync, new_event, link, trigger, DebugInfo,
  ExecOp, Block, BlockType, Trace,
}
use fsracer.Parser.{
  op_word, do_word, done_word, begin_word, main_word, end_word, new_event_word, link_word,
  trigger_word, submit_op_word, sync_word, async_word, s_word, m_word, w_word, external_word, Token,
  colon, exclamation, pid, cwd, keyword, number, op_id, identifier,
}
use fsracer.Parser.Lexer.{idle, lex}
use fsracer.Parser.Grammar.{
  Parsed, stoi, parse_number, parse_op_id, parse_meta_vars, parse_optional_meta_vars, parse_oper,
}

abbrev pub typed : EventType → List Token → Parsed Event
typed type ts = do
  (str, ts1) ← parse_number ts
  n ← stoi str
  ok (record { event_type = type; event_value = n }, ts1)

unfoldable pub parse_event_type : List Token → Parsed Event
unfolding parse_number stoi
parse_event_type (keyword s_word ∷ ts) = typed EventType.s ts
parse_event_type (keyword m_word ∷ ts) = typed EventType.m ts
parse_event_type (keyword w_word ∷ ts) = typed EventType.w ts
parse_event_type (keyword external_word ∷ ts) =
    ok (record { event_type = EventType.ext; event_value = 0 }, ts)
parse_event_type _ = fail syntax_error

abbrev pub expr_of : Construct → DebugInfo → Expr
expr_of construct debug_info = record { construct = construct; debug_info = debug_info }

-- An asynchronous `submitOp` behind its event.
unfoldable pub expect_async : Text → Text → List Token → Parsed Expr
unfolding parse_meta_vars stoi
expect_async id str (keyword async_word ∷ ts) = do
  (meta, ts1) ← parse_meta_vars ts
  event_id ← stoi str
  ok (expr_of (submit_async id event_id) meta, ts1)
expect_async id str _ = fail syntax_error

-- A `submitOp` behind its identifier.
unfoldable pub finish_submit_op : Text → List Token → Parsed Expr
unfolding parse_number parse_meta_vars expect_async
finish_submit_op id (keyword sync_word ∷ ts) = do
  (meta, ts1) ← parse_meta_vars ts
  ok (expr_of (submit_sync id) meta, ts1)
finish_submit_op id ts = do (str, ts1) ← parse_number ts; expect_async id str ts1

unfoldable pub parse_expr : List Token → Parsed Expr
unfolding parse_number stoi parse_event_type parse_optional_meta_vars parse_op_id finish_submit_op
parse_expr (keyword new_event_word ∷ ts) = do
  (str, ts1) ← parse_number ts
  (event, ts2) ← parse_event_type ts1
  (meta, ts3) ← parse_optional_meta_vars ts2
  id ← stoi str
  ok (expr_of (new_event id event) meta, ts3)
parse_expr (keyword link_word ∷ ts) = do
  (source_str, ts1) ← parse_number ts
  (target_str, ts2) ← parse_number ts1
  source ← stoi source_str
  target ← stoi target_str
  ok (expr_of (link source target) [], ts2)
parse_expr (keyword trigger_word ∷ ts) = do
  (str, ts1) ← parse_number ts
  id ← stoi str
  ok (expr_of (trigger id) [], ts1)
parse_expr (keyword submit_op_word ∷ ts) = do (id, ts1) ← parse_op_id ts; finish_submit_op id ts1
parse_expr _ = fail syntax_error

-- Items, up to tokens that end the list: `stops` gives what is left behind the end.
unfoldable pub parse_until :
    {A : Type 0}
    → (List Token → Parsed A)
    → (List Token → Option (List Token))
    → ℕ
    → List Token
    → Parsed (List A)
parse_until item stops zero ts = fail out_of_fuel
parse_until item stops (suc fuel) ts = elim (stops ts) [
  | some ts' ↦ ok ([], ts')
  | none ↦ item ts >>= λ (x, ts1). parse_until item stops fuel ts1 >>= λ (xs, ts2). ok (x ∷ xs, ts2)
]

-- At least one item. Each takes a token at least.
abbrev pub parse_all :
    {A : Type 0}
    → (List Token → Parsed A)
    → (List Token → Option (List Token))
    → List Token
    → Parsed (List A)
parse_all item stops ts = parse_until item stops (suc (length ts)) ts

abbrev pub parse_some :
    {A : Type 0}
    → (List Token → Parsed A)
    → (List Token → Option (List Token))
    → List Token
    → Parsed (List A)
parse_some item stops ts =
    item ts >>= λ (x, ts1). parse_all item stops ts1 >>= λ (xs, ts2). ok (x ∷ xs, ts2)

abbrev pub at_done : List Token → Option (List Token)
at_done (keyword done_word ∷ ts) = some ts
at_done _ = none

abbrev pub at_end : List Token → Option (List Token)
at_end (keyword end_word ∷ ts) = some ts
at_end _ = none

-- Another `op_def` begins with its keyword, another entry of `stats` with its mark, and blocks go on to the
-- end of the file.
abbrev pub behind_ops : List Token → Option (List Token)
behind_ops (keyword op_word ∷ _) = none
behind_ops ts = some ts

abbrev pub behind_stats : List Token → Option (List Token)
behind_stats (exclamation ∷ _) = none
behind_stats ts = some ts

abbrev pub at_eof : List Token → Option (List Token)
at_eof [] = some []
at_eof _ = none

unfoldable pub parse_op_def : List Token → Parsed ExecOp
unfolding parse_until parse_oper
parse_op_def (keyword op_word ∷ op_id id ∷ keyword do_word ∷ ts) =
    parse_all parse_oper at_done ts >>= λ (ops, ts1). ok (record { id = id; operations = ops }, ts1)
parse_op_def _ = fail syntax_error

abbrev pub make_block : ℕ → BlockType → List Expr → Block
make_block id type exprs = record { block_id = id; block_type = type; exprs = exprs }

unfoldable pub parse_block_def : List Token → Parsed Block
unfolding parse_until parse_expr parse_number stoi
parse_block_def (keyword begin_word ∷ keyword main_word ∷ ts) = do
  (str, ts1) ← parse_number ts
  (exprs, ts2) ← parse_some parse_expr at_end ts1
  id ← stoi str
  ok (make_block id BlockType.main exprs, ts2)
parse_block_def (keyword begin_word ∷ ts) = do
  (str, ts1) ← parse_number ts
  (exprs, ts2) ← parse_all parse_expr at_end ts1
  id ← stoi str
  ok (make_block id BlockType.reg exprs, ts2)
parse_block_def _ = fail syntax_error

-- No action takes the numbers of `stats`.
unfoldable pub parse_stat : List Token → Parsed (Text × Text)
parse_stat (exclamation ∷ identifier name ∷ colon ∷ number str ∷ ts) = ok ((name, str), ts)
parse_stat _ = fail syntax_error

unfoldable pub parse_pid : List Token → Parsed Text
unfolding parse_number
parse_pid (pid ∷ colon ∷ ts) = parse_number ts
parse_pid _ = fail syntax_error

unfoldable pub parse_cwd : List Token → Parsed Text
parse_cwd (cwd ∷ colon ∷ identifier str ∷ ts) = ok (str, ts)
parse_cwd _ = fail syntax_error

-- The operations and the blocks are both there, or neither.
unfoldable pub parse_body : List Token → Result (List ExecOp × List Block)
unfolding parse_until parse_op_def parse_block_def
parse_body [] = ok ([], [])
parse_body (t ∷ ts) = do
  (ops, ts1) ← parse_some parse_op_def behind_ops (t ∷ ts)
  (blocks, _) ← parse_some parse_block_def at_eof ts1
  ok (ops, blocks)

unfoldable pub parse_program : List Token → Result Trace
unfolding parse_until parse_stat parse_pid parse_cwd parse_body stoi
parse_program ts = do
  (_, ts1) ← parse_some parse_stat behind_stats ts
  (str, ts2) ← parse_pid ts1
  (dir, ts3) ← parse_cwd ts2
  (ops, blocks) ← parse_body ts3
  thread_id ← stoi str
  ok (record { blocks = blocks; exec_ops = ops; thread_id = thread_id; cwd = dir })

-- The trace that the tool gets from the text of a file.
unfoldable pub parse : Text → Result Trace
unfolding lex parse_program
parse str = parse_program (lex idle str)
