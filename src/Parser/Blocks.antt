-- ===== src/Parser/Blocks.antt =====
-- The blocks of a dump: the lexer and the grammar on their lines.
use fsracer.Prelude.{
  ℕ, suc, ◌<◌, ◌≡◌, refl, ap, ◌∙◌, false, none, List, [], ◌∷◌, ◌++◌, Text, codes, text_ord, arith,
  length, ok,
}
use fsracer.Utils.{to_string}
use fsracer.Trace.{
  Expr, Construct, submit_op, new_event, trigger, expr_to_string, Block, BlockType, lines,
}
use fsracer.DumpAnalyzer.{begin_line, is_skipped}
use fsracer.DumpAnalyzer.Counts.{block_text}
use fsracer.Parser.Constructs.{parse_expr-expr_tokens}
use fsracer.Parser.{Token, keyword, number, begin_word, main_word, end_word}
use fsracer.Parser.Lexer.{idle, lex, classify}
use fsracer.Parser.Words.{number_piece, number_piece-IsRead}
use fsracer.Parser.Lines.{all_tokens, lex-line, key_piece, key_piece-IsRead}
use fsracer.Parser.Marks.{IsInt, NotMark, marks_of, stoi-to_string}
use fsracer.Parser.Expressions.{
  IsPrintableExpr, expr_tokens, expr_key, expr_pieces, lex-expr_to_string,
}
use fsracer.Parser.Items.{tokens_of, Each, length-tokens_of, parse_all-tokens, parse_some-tokens}
use fsracer.Parser.Program.{parse_all, parse_some, parse_expr, make_block, at_end, parse_block_def}
use fsracer.Parser.Executions.{lex-lines, append4, shorter}

expr_begins :
    (c : Construct) (ts : List Token)
    → (at_end ((expr_key c).tokens ++ ts) ≡ none)
      × (NotMark ((expr_key c).tokens ++ ts)
          × (length ((expr_key c).tokens ++ ts) ≡ suc (length ts)))
expr_begins (submit_op _ _ _) ts = (refl, (tt, refl))
expr_begins (new_event _ _) ts = (refl, (tt, refl))
expr_begins (Construct.link _ _) ts = (refl, (tt, refl))
expr_begins (trigger _) ts = (refl, (tt, refl))

expr_takes : (e : Expr) (ts : List Token) → length ts < length (expr_tokens e ts)
expr_takes e ts =
    let marks = marks_of e.debug_info in
    let one =
      (expr_begins e.construct (all_tokens (expr_pieces e.construct) ++ (marks ++ ts))).1.1 in
    let less = shorter marks ts in
    let less' = shorter (all_tokens (expr_pieces e.construct)) (marks ++ ts) in omega arith

-- The first line of a block, behind its first word.
abbrev begin_tokens : BlockType → List Token
begin_tokens BlockType.main = keyword main_word ∷ []
begin_tokens BlockType.reg = []

abbrev pub block_tokens : Block → List Token → List Token
block_tokens b ts =
    keyword begin_word
    ∷ (begin_tokens b.block_type
        ++ number (to_string b.block_id) ∷ tokens_of expr_tokens b.exprs (keyword end_word ∷ ts))

-- A block that a trace file can hold. A main block without expressions is none.
pub record IsPrintableBlock (b : Block) : Type 0 where
  pub id : IsInt b.block_id
  pub is_kept : is_skipped b ≡ false
  pub exprs : Each IsPrintableExpr b.exprs

lex-exprs :
    (exprs : List Expr) (rest : Text)
    → Each IsPrintableExpr exprs
    → lex idle (lines expr_to_string exprs ++ (codes "End\n" ++ rest))
      ≡ tokens_of expr_tokens exprs (keyword end_word ∷ lex idle rest)
unfolding classify
lex-exprs exprs rest h =
    lex-lines expr_to_string expr_tokens IsPrintableExpr lex-expr_to_string exprs
      (codes "End\n" ++ rest) h
    ∙ ap (tokens_of expr_tokens exprs) (
        lex-line (key_piece (codes "End") end_word) [] rest
          (key_piece-IsRead (codes "End") end_word refl refl) tt)

lex-block :
    (type : BlockType) (id : ℕ) (exprs : List Expr) (rest : Text)
    → Each IsPrintableExpr exprs
    → lex idle (
        (begin_line (make_block id type exprs) ++ lines expr_to_string exprs ++ codes "End\n")
        ++ rest)
      ≡ block_tokens (make_block id type exprs) (lex idle rest)
unfolding begin_line classify
lex-block BlockType.main id exprs rest h =
    let body = lines expr_to_string exprs in
    ap (λ (x : Text). lex idle (codes "Begin MAIN " ++ x))
      (append4 (to_string id) (codes "\n") body (codes "End\n") rest)
    ∙ lex-line (key_piece (codes "Begin") begin_word)
        (key_piece (codes "MAIN") main_word ∷ number_piece id ∷ [])
        (body ++ (codes "End\n" ++ rest)) (key_piece-IsRead (codes "Begin") begin_word refl refl)
        (key_piece-IsRead (codes "MAIN") main_word refl refl, (number_piece-IsRead id, tt))
    ∙ ap (λ (x : List Token). keyword begin_word ∷ keyword main_word ∷ number (to_string id) ∷ x)
        (lex-exprs exprs rest h)
lex-block BlockType.reg id exprs rest h =
    let body = lines expr_to_string exprs in
    ap (λ (x : Text). lex idle (codes "Begin " ++ x))
      (append4 (to_string id) (codes "\n") body (codes "End\n") rest)
    ∙ lex-line (key_piece (codes "Begin") begin_word) (number_piece id ∷ [])
        (body ++ (codes "End\n" ++ rest)) (key_piece-IsRead (codes "Begin") begin_word refl refl)
        (number_piece-IsRead id, tt)
    ∙ ap (λ (x : List Token). keyword begin_word ∷ number (to_string id) ∷ x)
        (lex-exprs exprs rest h)

expr_goes_on : (e : Expr) (ts : List Token) → at_end (expr_tokens e ts) ≡ none
expr_goes_on e ts =
    (expr_begins e.construct
      (all_tokens (expr_pieces e.construct) ++ (marks_of e.debug_info ++ ts))).0

expr_no_mark : (e : Expr) (ts : List Token) → NotMark (expr_tokens e ts)
expr_no_mark e ts =
    (expr_begins e.construct
      (all_tokens (expr_pieces e.construct) ++ (marks_of e.debug_info ++ ts))).1.0

pub block_takes : (b : Block) (ts : List Token) → length ts < length (block_tokens b ts)
block_takes b ts =
    let others =
      number (to_string b.block_id) ∷ tokens_of expr_tokens b.exprs (keyword end_word ∷ ts) in
    let less =
      length-tokens_of parse_expr at_end expr_tokens IsPrintableExpr parse_expr-expr_tokens
        expr_goes_on expr_no_mark expr_takes b.exprs (keyword end_word ∷ ts) in
    let less' = shorter (begin_tokens b.block_type) others in omega arith

parse_exprs-tokens :
    (exprs : List Expr) (ts : List Token)
    → Each IsPrintableExpr exprs
    → parse_all parse_expr at_end (tokens_of expr_tokens exprs (keyword end_word ∷ ts))
      ≡ ok (exprs, ts)
parse_exprs-tokens exprs ts h =
    parse_all-tokens parse_expr at_end expr_tokens IsPrintableExpr parse_expr-expr_tokens
      expr_goes_on expr_no_mark expr_takes exprs (keyword end_word ∷ ts) ts h tt refl

parse_some_exprs-tokens :
    (e : Expr) (es : List Expr) (ts : List Token)
    → Each IsPrintableExpr (e ∷ es)
    → parse_some parse_expr at_end (tokens_of expr_tokens (e ∷ es) (keyword end_word ∷ ts))
      ≡ ok (e ∷ es, ts)
parse_some_exprs-tokens e es ts h =
    parse_some-tokens parse_expr at_end expr_tokens IsPrintableExpr parse_expr-expr_tokens
      expr_goes_on expr_no_mark expr_takes e es (keyword end_word ∷ ts) ts h tt refl

-- The lexer reads a block.
pub lex-block_text :
    (b : Block) (rest : Text)
    → IsPrintableBlock b
    → lex idle (block_text b ++ rest) ≡ block_tokens b (lex idle rest)
lex-block_text b rest h = rw h.is_kept (lex-block b.block_type b.block_id b.exprs rest h.exprs)

parse_block_def-of :
    (type : BlockType) (id : ℕ) (exprs : List Expr) (ts : List Token)
    → IsInt id
    → is_skipped (make_block id type exprs) ≡ false
    → Each IsPrintableExpr exprs
    → parse_block_def (block_tokens (make_block id type exprs) ts)
      ≡ ok (make_block id type exprs, ts)
unfolding parse_block_def
parse_block_def-of BlockType.main id [] ts n kept h = absurd (cc kept)
parse_block_def-of BlockType.main id (e ∷ es) ts n kept h =
    rw (stoi-to_string id n, parse_some_exprs-tokens e es ts h) refl
parse_block_def-of BlockType.reg id exprs ts n kept h =
    rw (stoi-to_string id n, parse_exprs-tokens exprs ts h) refl

-- The parser reads a block from its tokens.
pub parse_block_def-block_tokens :
    (b : Block) (ts : List Token)
    → IsPrintableBlock b
    → parse_block_def (block_tokens b ts) ≡ ok (b, ts)
parse_block_def-block_tokens b ts h =
    parse_block_def-of b.block_type b.block_id b.exprs ts h.id h.is_kept h.exprs
