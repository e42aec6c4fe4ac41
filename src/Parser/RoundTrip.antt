-- ===== src/Parser/RoundTrip.antt =====
-- What the tool reads from the dump of a trace.
use fsracer.Prelude.{
  ℕ, ◌+◌, ◌≡◌, refl, sym, ap, subst, ◌∙◌, Bool, some, List, [], ◌∷◌, ◌++◌, length, if◌then◌else◌,
  append_assoc, Bool-cases, inl, inr, Result, ok, fail, syntax_error, out_of_range, ◌>>=◌,
}
use fsracer.Utils.{to_string}
use fsracer.Trace.{ExecOp, exec_op_to_string, Block, Trace, lines}
use fsracer.DumpAnalyzer.{DumpState, new_dump, is_skipped, dump_trace, dump_output}
use fsracer.DumpAnalyzer.Counts.{
  preamble, blocks_text, entries_of_ops, entries_of_blocks, dump_trace-text,
}
use fsracer.Parser.{Token}
use fsracer.Parser.Lexer.{idle, lex}
use fsracer.Parser.Lines.{IsIdentifier}
use fsracer.Parser.Marks.{IsInt, NotMark, stoi-to_string, stoi-too_large}
use fsracer.Parser.Items.{tokens_of, Each, parse_some-tokens}
use fsracer.Parser.Executions.{
  IsPrintableExec, exec_tokens, lex-lines, lex-exec_op_to_string, parse_op_def-exec_tokens,
  exec_takes,
}
use fsracer.Parser.Blocks.{
  IsPrintableBlock, block_tokens, lex-block_text, parse_block_def-block_tokens, block_takes,
}
use fsracer.Parser.Heads.{stats_tokens, lex-stats, preamble_tokens, lex-preamble}
use fsracer.Parser.Grammar.{stoi, parse_number}
use fsracer.Parser.Program.{
  parse_until, parse_some, parse_stat, parse_op_def, parse_block_def, behind_ops, at_eof, parse_pid,
  parse_cwd, parse_body, parse_program, parse,
}

-- The blocks that a dump has: no main block without expressions.
abbrev pub kept : List Block → List Block
kept [] = []
kept (b ∷ bs) = if is_skipped b then kept bs else b ∷ kept bs

-- A dump has operations and blocks, or neither.
abbrev pub BothOrNeither : List ExecOp → List Block → Type 0
BothOrNeither [] [] = Unit
BothOrNeither (_ ∷ _) (_ ∷ _) = Unit
BothOrNeither _ _ = ⊥

-- The parts of a trace that a file can hold, its process apart.
pub record IsPrintableTrace (t : Trace) : Type 0 where
  pub directory : IsIdentifier t.cwd
  pub exec_ops : Each IsPrintableExec t.exec_ops
  pub blocks : Each IsPrintableBlock (kept t.blocks)

lex-blocks_text :
    (bs : List Block)
    → Each IsPrintableBlock (kept bs)
    → lex idle (blocks_text bs) ≡ tokens_of block_tokens (kept bs) []
unfolding lex
lex-blocks_text [] h = refl
lex-blocks_text (b ∷ bs) h = elim (Bool-cases (is_skipped b)) [
  | inl skipped ↦
      let others =
        subst (λ (x : Bool). Each IsPrintableBlock (if x then kept bs else b ∷ kept bs)) skipped
          h in
      rw skipped (lex-blocks_text bs others)
  | inr stays ↦
      let (one, others) =
        subst (λ (x : Bool). Each IsPrintableBlock (if x then kept bs else b ∷ kept bs)) stays h in
      lex-block_text b (blocks_text bs) one
      ∙ ap (block_tokens b) (lex-blocks_text bs others)
      ∙ ap (λ (x : Bool). tokens_of block_tokens (if x then kept bs else b ∷ kept bs) [])
          (sym stays)
]

-- The tokens of the operations and the blocks.
abbrev body_tokens : Trace → List Token
body_tokens t = tokens_of exec_tokens t.exec_ops (tokens_of block_tokens (kept t.blocks) [])

abbrev trace_tokens : Trace → List Token
trace_tokens t =
    stats_tokens (length t.blocks) (length t.exec_ops)
      (entries_of_ops t.exec_ops + entries_of_blocks t.blocks) (preamble_tokens t (body_tokens t))

-- The lexer reads the dump of a trace.
lex-dump_output :
    (t : Trace)
    → IsPrintableTrace t
    → lex idle (dump_output (dump_trace t new_dump)) ≡ trace_tokens t
unfolding dump_output
lex-dump_output t h =
    let ops = lines exec_op_to_string t.exec_ops in
    let buf = (preamble t ++ ops) ++ blocks_text t.blocks in
    let entries = entries_of_ops t.exec_ops + entries_of_blocks t.blocks in
    let body : lex idle buf ≡ preamble_tokens t (body_tokens t) =
      ap (lex idle) (append_assoc (preamble t) ops (blocks_text t.blocks))
      ∙ lex-preamble t (ops ++ blocks_text t.blocks) h.directory
      ∙ ap (preamble_tokens t) (
          lex-lines exec_op_to_string exec_tokens IsPrintableExec lex-exec_op_to_string t.exec_ops
            (blocks_text t.blocks) h.exec_ops
          ∙ ap (tokens_of exec_tokens t.exec_ops) (lex-blocks_text t.blocks h.blocks)) in
    ap (λ (st : DumpState). lex idle (dump_output st)) (dump_trace-text t)
    ∙ lex-stats (length t.blocks) (length t.exec_ops) entries buf
    ∙ ap (stats_tokens (length t.blocks) (length t.exec_ops) entries) body

parse_blocks-tokens :
    (b : Block) (bs : List Block)
    → Each IsPrintableBlock (b ∷ bs)
    → parse_some parse_block_def at_eof (tokens_of block_tokens (b ∷ bs) []) ≡ ok (b ∷ bs, [])
parse_blocks-tokens b bs h =
    parse_some-tokens parse_block_def at_eof block_tokens IsPrintableBlock
      (λ x ts good _. parse_block_def-block_tokens x ts good) (λ _ _. refl) (λ _ _. tt) block_takes
      b bs [] [] h tt refl

parse_execs-tokens :
    (e : ExecOp) (es : List ExecOp) (ts : List Token)
    → Each IsPrintableExec (e ∷ es)
    → NotMark ts
    → behind_ops ts ≡ some ts
    → parse_some parse_op_def behind_ops (tokens_of exec_tokens (e ∷ es) ts) ≡ ok (e ∷ es, ts)
parse_execs-tokens e es ts h =
    parse_some-tokens parse_op_def behind_ops exec_tokens IsPrintableExec
      (λ x us good _. parse_op_def-exec_tokens x us good) (λ _ _. refl) (λ _ _. tt) exec_takes e es
      ts ts h

parse_body-tokens :
    (es : List ExecOp) (bs : List Block)
    → Each IsPrintableExec es
    → Each IsPrintableBlock bs
    → BothOrNeither es bs
    → parse_body (tokens_of exec_tokens es (tokens_of block_tokens bs [])) ≡ ok (es, bs)
unfolding parse_body
parse_body-tokens [] [] h k both = refl
parse_body-tokens [] (_ ∷ _) h k both = absurd both
parse_body-tokens (_ ∷ _) [] h k both = absurd both
parse_body-tokens (e ∷ es) (b ∷ bs) h k both =
    rw
      (
        parse_execs-tokens e es (tokens_of block_tokens (b ∷ bs) []) h tt refl,
        parse_blocks-tokens b bs k,
      )
      refl

-- Operations alone, or blocks alone, are a syntax error.
parse_body-one_sided :
    (es : List ExecOp) (bs : List Block)
    → Each IsPrintableExec es
    → ¬ BothOrNeither es bs
    → parse_body (tokens_of exec_tokens es (tokens_of block_tokens bs [])) ≡ fail syntax_error
unfolding parse_body parse_op_def parse_block_def
parse_body-one_sided [] [] h one = absurd (one tt)
parse_body-one_sided [] (b ∷ bs) h one = refl
parse_body-one_sided (e ∷ es) (b ∷ bs) h one = absurd (one tt)
parse_body-one_sided (e ∷ es) [] h one = rw (parse_execs-tokens e es [] h tt refl) refl

-- The trace of the operations, the blocks and the process.
abbrev with_body : Trace → Result ℕ → Result (List ExecOp × List Block) → Result Trace
with_body t process body = body >>= λ (ops, blocks).
    process >>= λ id. ok (record { blocks = blocks; exec_ops = ops; thread_id = id; cwd = t.cwd })

-- The dump of a trace is parsed up to its process, its operations and its blocks.
parse-with_body :
    (t : Trace)
    → IsPrintableTrace t
    → parse (dump_output (dump_trace t new_dump))
      ≡ with_body t (stoi (to_string t.thread_id)) (parse_body (body_tokens t))
unfolding parse parse_program parse_pid parse_cwd parse_number parse_until parse_stat
parse-with_body t h = ap parse_program (lex-dump_output t h)

-- The body of a dump that has both operations and blocks or neither.
parse-process :
    (t : Trace)
    → IsPrintableTrace t
    → BothOrNeither t.exec_ops (kept t.blocks)
    → parse (dump_output (dump_trace t new_dump))
      ≡ with_body t (stoi (to_string t.thread_id)) (ok (t.exec_ops, kept t.blocks))
parse-process t h both =
    parse-with_body t h
    ∙ ap (with_body t (stoi (to_string t.thread_id)))
        (parse_body-tokens t.exec_ops (kept t.blocks) h.exec_ops h.blocks both)

-- The tool reads, from the dump of a trace that has both operations and blocks or neither, this trace without the
-- main blocks that have no expressions. The names, paths and numbers of the trace are those that a file can hold.
pub parse-dump_output :
    (t : Trace)
    → IsPrintableTrace t
    → BothOrNeither t.exec_ops (kept t.blocks)
    → IsInt t.thread_id
    → parse (dump_output (dump_trace t new_dump)) ≡ ok (record t { blocks = kept t.blocks })
parse-dump_output t h both fits =
    parse-process t h both
    ∙ ap (λ process. with_body t process (ok (t.exec_ops, kept t.blocks)))
        (stoi-to_string t.thread_id fits)

-- A process whose number has more than 31 bits.
pub parse-too_large :
    (t : Trace)
    → IsPrintableTrace t
    → BothOrNeither t.exec_ops (kept t.blocks)
    → ¬ IsInt t.thread_id
    → parse (dump_output (dump_trace t new_dump)) ≡ fail out_of_range
parse-too_large t h both large =
    parse-process t h both
    ∙ ap (λ process. with_body t process (ok (t.exec_ops, kept t.blocks)))
        (stoi-too_large t.thread_id large)

-- Operations alone, or blocks alone.
pub parse-one_sided :
    (t : Trace)
    → IsPrintableTrace t
    → ¬ BothOrNeither t.exec_ops (kept t.blocks)
    → parse (dump_output (dump_trace t new_dump)) ≡ fail syntax_error
parse-one_sided t h one =
    parse-with_body t h
    ∙ ap (with_body t (stoi (to_string t.thread_id)))
        (parse_body-one_sided t.exec_ops (kept t.blocks) h.exec_ops one)
