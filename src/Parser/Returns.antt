-- ===== src/Parser/Returns.antt =====
-- The grammar on any tokens: its lists, and the whole trace.
use fsracer.Prelude.{
  ℕ, zero, suc, ◌≤◌, ◌<◌, ◌≡◌, Option, some, List, [], ◌∷◌, Text, text_ord, arith, length,
  Option-cases, inl, inr, Result, ok, fail, ◌>>=◌,
}
use fsracer.Trace.{EventType, Expr, submit_async, new_event, link, trigger, BlockType, Trace}
use fsracer.Parser.{
  Token, keyword, number, op_id, exclamation, s_word, m_word, w_word, new_event_word, link_word,
  trigger_word, submit_op_word, sync_word, async_word, op_word, do_word, begin_word, main_word,
}
use fsracer.Parser.Lexer.{idle, lex}
use fsracer.Parser.Grammar.{
  Parsed, stoi, parse_number, parse_op_id, parse_meta_vars, parse_optional_meta_vars, parse_oper,
}
use fsracer.Parser.Program.{
  typed, parse_event_type, expr_of, expect_async, finish_submit_op, parse_expr, parse_until,
  parse_all, parse_some, at_done, at_end, behind_ops, behind_stats, at_eof, parse_op_def,
  make_block, parse_block_def, parse_stat, parse_pid, parse_cwd, parse_body, parse_program, parse,
}
use fsracer.Parser.Total.{
  Below, Made, Below-bind, Made-bind, stoi-Made, parse_number-Below, parse_op_id-Below,
  parse_meta_vars-Below, parse_oper-Below, loosen, chain, proceed,
}

typed-Below : (type : EventType) (ts : List Token) → Below (suc (length ts)) (typed type ts)
typed-Below type ts = proceed _ (parse_number ts) _ (parse_number-Below ts) (λ str ts1.
    Made-bind (suc (length ts1)) (stoi str)
      (λ n. ok (record { event_type = type; event_value = n }, ts1)) (stoi-Made str)
      (λ n. omega arith))

parse_event_type-Below : (ts : List Token) → Below (length ts) (parse_event_type ts)
unfolding parse_event_type
parse_event_type-Below (keyword s_word ∷ ts) = typed-Below EventType.s ts
parse_event_type-Below (keyword m_word ∷ ts) = typed-Below EventType.m ts
parse_event_type-Below (keyword w_word ∷ ts) = typed-Below EventType.w ts
parse_event_type-Below ts = ground arith

parse_optional-Below : (ts : List Token) → Below (suc (length ts)) (parse_optional_meta_vars ts)
unfolding parse_optional_meta_vars
parse_optional-Below (exclamation ∷ ts) =
    loosen _ (parse_meta_vars (exclamation ∷ ts)) (parse_meta_vars-Below (exclamation ∷ ts))
parse_optional-Below ts = ground arith

-- An expression whose number is made last.
made_expr-Below :
    (str : Text) (make : ℕ → Expr) (ts : List Token)
    → Below (suc (length ts)) (stoi str >>= λ n. ok (make n, ts))
made_expr-Below str make ts =
    Made-bind (suc (length ts)) (stoi str) (λ n. ok (make n, ts)) (stoi-Made str) (λ n. omega arith)

expect_async-Below : (id str : Text) (ts : List Token) → Below (length ts) (expect_async id str ts)
unfolding expect_async
expect_async-Below id str (keyword async_word ∷ ts) =
    proceed _ (parse_meta_vars ts) _ (parse_meta_vars-Below ts)
      (λ meta ts1. made_expr-Below str (λ n. expr_of (submit_async id n) meta) ts1)
expect_async-Below id str ts = ground arith

finish_submit_op-Below : (id : Text) (ts : List Token) → Below (length ts) (finish_submit_op id ts)
unfolding finish_submit_op
finish_submit_op-Below id (keyword sync_word ∷ ts) =
    proceed _ (parse_meta_vars ts) _ (parse_meta_vars-Below ts) (λ meta ts1. omega arith)
finish_submit_op-Below id (number str ∷ ts) =
    loosen _ (expect_async id str ts) (expect_async-Below id str ts)
finish_submit_op-Below id ts = ground arith

parse_expr-Below : (ts : List Token) → Below (length ts) (parse_expr ts)
unfolding parse_expr
parse_expr-Below (keyword new_event_word ∷ ts) =
    proceed _ (parse_number ts) _ (parse_number-Below ts) (λ str ts1.
      proceed _ (parse_event_type ts1) _ (parse_event_type-Below ts1) (λ event ts2.
        chain _ (parse_optional_meta_vars ts2) _ (parse_optional-Below ts2)
          (λ meta ts3. made_expr-Below str (λ n. expr_of (new_event n event) meta) ts3)))
parse_expr-Below (keyword link_word ∷ ts) =
    proceed _ (parse_number ts) _ (parse_number-Below ts) (λ str ts1.
      proceed _ (parse_number ts1) _ (parse_number-Below ts1) (λ str' ts2.
        Made-bind (suc (length ts2)) (stoi str)
          (λ source. stoi str' >>= λ target. ok (expr_of (link source target) [], ts2))
          (stoi-Made str)
          (λ source. made_expr-Below str' (λ target. expr_of (link source target) []) ts2)))
parse_expr-Below (keyword trigger_word ∷ ts) =
    proceed _ (parse_number ts) _ (parse_number-Below ts)
      (λ str ts1. made_expr-Below str (λ n. expr_of (trigger n) []) ts1)
parse_expr-Below (keyword submit_op_word ∷ ts) =
    proceed _ (parse_op_id ts) _ (parse_op_id-Below ts)
      (λ id ts1. loosen _ (finish_submit_op id ts1) (finish_submit_op-Below id ts1))
parse_expr-Below ts = ground arith

parse_until-Below :
    {A : Type 0} (item : List Token → Parsed A) (stops : List Token → Option (List Token))
    → ((ts : List Token) → Below (length ts) (item ts))
    → ((ts ts' : List Token) → stops ts ≡ some ts' → length ts' ≤ length ts)
    → (fuel : ℕ) (ts : List Token) → length ts < fuel
    → Below (suc (length ts)) (parse_until item stops fuel ts)
unfolding parse_until
parse_until-Below item stops shrinks ends zero ts h = absurd (omega arith)
parse_until-Below item stops shrinks ends (suc fuel) ts h = elim (Option-cases (stops ts)) [
  | inl on ↦
      rw (parse_until, on)
        (Below-bind (length ts) (suc (length ts)) (item ts)
          (λ (x, ts1). parse_until item stops fuel ts1 >>= λ (xs, ts2). ok (x ∷ xs, ts2))
          (shrinks ts)
          (λ x ts1 less.
            Below-bind (suc (length ts1)) (suc (length ts)) (parse_until item stops fuel ts1)
              (λ (xs, ts2). ok (x ∷ xs, ts2))
              (parse_until-Below item stops shrinks ends fuel ts1 (omega arith))
              (λ xs ts2 less'. omega arith)))
  | inr (ts', end) ↦ let less = ends ts ts' end in rw (parse_until, end) (omega arith)
]

-- The list of a rule: the ends of it, and its items.
module _ {A : Type 0} (item : List Token → Parsed A) (stops : List Token → Option (List Token))
    (shrinks : (ts : List Token) → Below (length ts) (item ts))
    (ends : (ts ts' : List Token) → stops ts ≡ some ts' → length ts' ≤ length ts) where
  parse_all-Below : (ts : List Token) → Below (suc (length ts)) (parse_all item stops ts)
  parse_all-Below ts = parse_until-Below item stops shrinks ends (suc (length ts)) ts (omega arith)

  parse_some-Below : (ts : List Token) → Below (suc (length ts)) (parse_some item stops ts)
  parse_some-Below ts =
      proceed _ (item ts) _ (shrinks ts) (λ x ts1.
        chain _ (parse_all item stops ts1) _ (parse_all-Below ts1) (λ xs ts2. omega arith))

at_done-ends : (ts ts' : List Token) → at_done ts ≡ some ts' → length ts' ≤ length ts
at_done-ends ts ts' e = ground arith

at_end-ends : (ts ts' : List Token) → at_end ts ≡ some ts' → length ts' ≤ length ts
at_end-ends ts ts' e = ground arith

behind_ops-ends : (ts ts' : List Token) → behind_ops ts ≡ some ts' → length ts' ≤ length ts
behind_ops-ends ts ts' e = ground arith

behind_stats-ends : (ts ts' : List Token) → behind_stats ts ≡ some ts' → length ts' ≤ length ts
behind_stats-ends ts ts' e = ground arith

at_eof-ends : (ts ts' : List Token) → at_eof ts ≡ some ts' → length ts' ≤ length ts
at_eof-ends ts ts' e = ground arith

parse_op_def-Below : (ts : List Token) → Below (length ts) (parse_op_def ts)
unfolding parse_op_def
parse_op_def-Below (keyword op_word ∷ op_id id ∷ keyword do_word ∷ ts) =
    loosen _ (parse_op_def (keyword op_word ∷ op_id id ∷ keyword do_word ∷ ts)) (
      loosen _ (parse_op_def (keyword op_word ∷ op_id id ∷ keyword do_word ∷ ts)) (
        chain _ (parse_all parse_oper at_done ts) _
          (parse_all-Below parse_oper at_done parse_oper-Below at_done-ends ts)
          (λ ops ts1. omega arith)))
parse_op_def-Below ts = ground arith

made_block-Below :
    (str : Text) (type : BlockType) (exprs : List Expr) (ts : List Token)
    → Below (suc (length ts)) (stoi str >>= λ id. ok (make_block id type exprs, ts))
made_block-Below str type exprs ts =
    Made-bind (suc (length ts)) (stoi str) (λ id. ok (make_block id type exprs, ts)) (stoi-Made str)
      (λ id. omega arith)

parse_block_def-Below : (ts : List Token) → Below (length ts) (parse_block_def ts)
unfolding parse_block_def
parse_block_def-Below (keyword begin_word ∷ keyword main_word ∷ ts) =
    loosen _ (parse_block_def (keyword begin_word ∷ keyword main_word ∷ ts)) (
      proceed _ (parse_number ts) _ (parse_number-Below ts) (λ str ts1.
        chain _ (parse_some parse_expr at_end ts1) _
          (parse_some-Below parse_expr at_end parse_expr-Below at_end-ends ts1)
          (λ exprs ts2. made_block-Below str BlockType.main exprs ts2)))
parse_block_def-Below (keyword begin_word ∷ number str ∷ ts) =
    loosen _ (parse_block_def (keyword begin_word ∷ number str ∷ ts)) (
      chain _ (parse_all parse_expr at_end ts) _
        (parse_all-Below parse_expr at_end parse_expr-Below at_end-ends ts)
        (λ exprs ts2. made_block-Below str BlockType.reg exprs ts2))
parse_block_def-Below ts = ground arith

parse_stat-Below : (ts : List Token) → Below (length ts) (parse_stat ts)
unfolding parse_stat
parse_stat-Below ts = ground arith

parse_pid-Below : (ts : List Token) → Below (length ts) (parse_pid ts)
unfolding parse_pid parse_number
parse_pid-Below ts = ground arith

parse_cwd-Below : (ts : List Token) → Below (length ts) (parse_cwd ts)
unfolding parse_cwd
parse_cwd-Below ts = ground arith

-- A rule that is the last.
Made-last :
    {A B : Type 0} (n : ℕ) (r : Parsed A) (k : A × List Token → Result B)
    → Below n r
    → ((x : A) (ts : List Token) → Made (k (x, ts)))
    → Made (r >>= k)
Made-last n (ok (x, ts)) k h rest = rest x ts
Made-last n (fail fault) k h rest = h

parse_body-Made : (ts : List Token) → Made (parse_body ts)
unfolding parse_body
parse_body-Made [] = tt
parse_body-Made (t ∷ ts) =
    Made-last _ (parse_some parse_op_def behind_ops (t ∷ ts)) _
      (parse_some-Below parse_op_def behind_ops parse_op_def-Below behind_ops-ends (t ∷ ts))
      (λ ops ts1.
        Made-last _ (parse_some parse_block_def at_eof ts1) _
          (parse_some-Below parse_block_def at_eof parse_block_def-Below at_eof-ends ts1)
          (λ blocks ts2. tt))

with_process-Made :
    {A : Type 0} (body : Result A) (str : Text) (make : A → ℕ → Trace)
    → Made body
    → Made (body >>= λ x. stoi str >>= λ id. ok (make x id))
with_process-Made (fail fault) str make h = h
with_process-Made (ok x) str make h = with_id (stoi str) (stoi-Made str)
  where
    with_id : (r : Result ℕ) → Made r → Made (r >>= λ id. ok (make x id))
    with_id (ok id) h = tt
    with_id (fail fault) h = h

-- On any text the parser ends: with a trace, with an error, or with the exception of a number that has more than 31
-- bits.
pub parse-Made : (str : Text) → Made (parse str)
unfolding parse parse_program
parse-Made str =
    Made-last _ (parse_some parse_stat behind_stats (lex idle str)) _
      (parse_some-Below parse_stat behind_stats parse_stat-Below behind_stats-ends (lex idle str))
      (λ stats ts1. Made-last _ (parse_pid ts1) _ (parse_pid-Below ts1) (λ id ts2.
        Made-last _ (parse_cwd ts2) _ (parse_cwd-Below ts2) (λ dir ts3.
          with_process-Made (parse_body ts3) id
            (λ (ops, blocks) n. record {
              blocks = blocks;
              exec_ops = ops;
              thread_id = n;
              cwd = dir;
            })
            (parse_body-Made ts3))))
