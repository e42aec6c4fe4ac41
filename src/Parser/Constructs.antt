-- ===== src/Parser/Constructs.antt =====
-- The grammar on the tokens of an expression.
use fsracer.Prelude.{ℕ, ◌≡◌, refl, sym, ap, none, some, List, [], ◌∷◌, ◌++◌, text_ord, ok}
use fsracer.Trace.{
  EventType, Expr, Construct, submit_op, async, sync, new_event, link, trigger, DebugInfo,
}
use fsracer.Parser.{Token}
use fsracer.Parser.Lines.{all_tokens}
use fsracer.Parser.Marks.{
  IsInt, NotMark, IsDebug, marks_of, stoi-to_string, parse_meta_vars-marks,
  parse_optional_meta_vars-marks,
}
use fsracer.Parser.Program.{parse_expr, expr_of, expect_async, finish_submit_op, parse_event_type}
use fsracer.Parser.Grammar.{parse_op_id}
use fsracer.Parser.Expressions.{
  IsPrintableEvent, IsPrintableConstruct, IsPrintableExpr, expr_tokens, event_pieces, event_of,
}

parse_event_type-tokens :
    (type : EventType) (value : ℕ) (ts : List Token)
    → IsPrintableEvent (event_of type value)
    → parse_event_type (all_tokens (event_pieces (event_of type value)) ++ ts)
      ≡ ok (event_of type value, ts)
unfolding parse_event_type
parse_event_type-tokens EventType.s v ts h = rw (stoi-to_string v h) refl
parse_event_type-tokens EventType.m v ts h = rw (stoi-to_string v h) refl
parse_event_type-tokens EventType.w v ts h = rw (stoi-to_string v h) refl
parse_event_type-tokens EventType.ext v ts h = ap (λ x. ok (event_of EventType.ext x, ts)) (sym h)
parse_event_type-tokens EventType.main v ts h = absurd h

new_event-tokens :
    (id : ℕ) (type : EventType) (value : ℕ) (ds : DebugInfo) (ts : List Token)
    → IsInt id
    → IsPrintableEvent (event_of type value)
    → IsDebug ds
    → NotMark ts
    → parse_expr (expr_tokens (expr_of (new_event id (event_of type value)) ds) ts)
      ≡ ok (expr_of (new_event id (event_of type value)) ds, ts)
unfolding parse_expr
new_event-tokens id type v ds ts n h all k =
    rw
      (
        stoi-to_string id n,
        parse_event_type-tokens type v (marks_of ds ++ ts) h,
        parse_optional_meta_vars-marks ds ts all k,
      )
      refl

parse_expr-of :
    (c : Construct) (ds : DebugInfo) (ts : List Token)
    → IsPrintableConstruct c ds
    → IsDebug ds
    → NotMark ts
    → parse_expr (expr_tokens (expr_of c ds) ts) ≡ ok (expr_of c ds, ts)
unfolding parse_expr parse_op_id finish_submit_op expect_async
parse_expr-of (submit_op id (some event_id) async) [] ts h all k = absurd h
parse_expr-of (submit_op id (some event_id) async) (d ∷ ds) ts (h, n) (_, all) k =
    rw (stoi-to_string event_id n, parse_meta_vars-marks d ds ts all k) refl
parse_expr-of (submit_op id (some event_id) sync) ds ts h all k = absurd h
parse_expr-of (submit_op id none async) ds ts h all k = absurd h
parse_expr-of (submit_op id none sync) [] ts h all k = absurd h
parse_expr-of (submit_op id none sync) (d ∷ ds) ts h (_, all) k =
    rw (parse_meta_vars-marks d ds ts all k) refl
parse_expr-of (new_event id e) ds ts (n, h) all k =
    new_event-tokens id e.event_type e.event_value ds ts n h all k
parse_expr-of (link source target) [] ts (n, m) all k =
    rw (stoi-to_string source n, stoi-to_string target m) refl
parse_expr-of (link source target) (_ ∷ _) ts h all k = absurd h
parse_expr-of (trigger id) [] ts n all k = rw (stoi-to_string id n) refl
parse_expr-of (trigger id) (_ ∷ _) ts h all k = absurd h

-- The parser reads an expression from its tokens.
pub parse_expr-expr_tokens :
    (e : Expr) (ts : List Token)
    → IsPrintableExpr e
    → NotMark ts
    → parse_expr (expr_tokens e ts) ≡ ok (e, ts)
parse_expr-expr_tokens e ts h k = parse_expr-of e.construct e.debug_info ts h.construct h.debug k
