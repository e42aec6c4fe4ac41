-- ===== src/Parser/Expressions.antt =====
-- The lines of a dump that print expressions: their tokens, and the grammar on these.
use fsracer.Prelude.{
  ℕ, ◌≡◌, refl, sym, ap, ◌∙◌, true, none, some, List, [], ◌∷◌, ◌++◌, map, Text, codes, text_ord,
  append_assoc,
}
use fsracer.Utils.{to_string}
use fsracer.Operation.{◌⊹◌}
use fsracer.Trace.{
  Event, EventType, event_to_string, Expr, Construct, submit_op, SubmitType, async, sync, new_event,
  link, trigger, DebugInfo, debug_info_to_string, expr_to_string,
}
use fsracer.Parser.{
  Token, op_id, new_event_word, link_word, trigger_word, submit_op_word, sync_word, async_word,
  s_word, m_word, w_word, external_word,
}
use fsracer.Parser.Lexer.{idle, lex, classify}
use fsracer.Parser.Words.{
  Piece, IsRead, run_piece, is_run, number_piece, number_piece-IsRead, mark_piece,
}
use fsracer.Parser.Lines.{
  after_word, all_tokens, AllRead, AllRead-append, after_word-append, lex-line, sep, words3, words4,
  all_tokens-append, debug-after_word, AllNames, AllNames-AllRead, key_piece, key_piece-IsRead,
}
use fsracer.Parser.Marks.{IsInt, IsDebug, marks_of}
use fsracer.Parser.Program.{expr_of}

-- An identifier of an execution.
pub record IsOpId (w : Text) : Type 0 where
  pub one_run : is_run w ≡ true
  pub token : classify w ≡ op_id w

abbrev pub op_id_piece : Text → Piece
op_id_piece w = record { text = w; tokens = op_id w ∷ [] }

abbrev pub IsPrintableEvent : Event → Type 0
IsPrintableEvent e = elim e.event_type [
  | EventType.s ↦ IsInt e.event_value
  | EventType.m ↦ IsInt e.event_value
  | EventType.w ↦ IsInt e.event_value
  | EventType.ext ↦ e.event_value ≡ 0
  | EventType.main ↦ ⊥
]

-- The expressions that a trace file can hold. A `submitOp` needs a mark, and a `link` or a `trigger` has none.
abbrev pub IsPrintableConstruct : Construct → DebugInfo → Type 0
IsPrintableConstruct (submit_op id (some event_id) async) (d ∷ ds) = IsOpId id × IsInt event_id
IsPrintableConstruct (submit_op id none sync) (d ∷ ds) = IsOpId id
IsPrintableConstruct (submit_op _ _ _) _ = ⊥
IsPrintableConstruct (new_event id e) _ = IsInt id × IsPrintableEvent e
IsPrintableConstruct (link source target) [] = IsInt source × IsInt target
IsPrintableConstruct (link _ _) (_ ∷ _) = ⊥
IsPrintableConstruct (trigger id) [] = IsInt id
IsPrintableConstruct (trigger _) (_ ∷ _) = ⊥

abbrev pub event_pieces : Event → List Piece
event_pieces e = elim e.event_type [
  | EventType.s ↦ key_piece (codes "S") s_word ∷ number_piece e.event_value ∷ []
  | EventType.m ↦ key_piece (codes "M") m_word ∷ number_piece e.event_value ∷ []
  | EventType.w ↦ key_piece (codes "W") w_word ∷ number_piece e.event_value ∷ []
  | EventType.ext ↦ key_piece (codes "EXTERNAL") external_word ∷ []
  | EventType.main ↦ []
]

abbrev pub expr_key : Construct → Piece
expr_key (submit_op _ _ _) = key_piece (codes "submitOp") submit_op_word
expr_key (new_event _ _) = key_piece (codes "newEvent") new_event_word
expr_key (link _ _) = key_piece (codes "link") link_word
expr_key (trigger _) = key_piece (codes "trigger") trigger_word

abbrev type_pieces : SubmitType → List Piece
type_pieces async = key_piece (codes "ASYNC") async_word ∷ []
type_pieces sync = key_piece (codes "SYNC") sync_word ∷ []

abbrev pub expr_pieces : Construct → List Piece
expr_pieces (submit_op id (some event_id) type) =
    op_id_piece id ∷ number_piece event_id ∷ type_pieces type
expr_pieces (submit_op id none type) = op_id_piece id ∷ type_pieces type
expr_pieces (new_event id e) = number_piece id ∷ event_pieces e
expr_pieces (link source target) = number_piece source ∷ number_piece target ∷ []
expr_pieces (trigger id) = number_piece id ∷ []

expr_key-IsRead : (c : Construct) → IsRead (expr_key c)
unfolding classify
expr_key-IsRead (submit_op _ _ _) = key_piece-IsRead (codes "submitOp") submit_op_word refl refl
expr_key-IsRead (new_event _ _) = key_piece-IsRead (codes "newEvent") new_event_word refl refl
expr_key-IsRead (link _ _) = key_piece-IsRead (codes "link") link_word refl refl
expr_key-IsRead (trigger _) = key_piece-IsRead (codes "trigger") trigger_word refl refl

event_pieces-AllRead :
    (type : EventType) (value : ℕ)
    → AllRead (event_pieces (record { event_type = type; event_value = value }))
unfolding classify
event_pieces-AllRead EventType.s v =
    (key_piece-IsRead (codes "S") s_word refl refl, (number_piece-IsRead v, tt))
event_pieces-AllRead EventType.m v =
    (key_piece-IsRead (codes "M") m_word refl refl, (number_piece-IsRead v, tt))
event_pieces-AllRead EventType.w v =
    (key_piece-IsRead (codes "W") w_word refl refl, (number_piece-IsRead v, tt))
event_pieces-AllRead EventType.ext v =
    (key_piece-IsRead (codes "EXTERNAL") external_word refl refl, tt)
event_pieces-AllRead EventType.main v = tt

type_pieces-AllRead : (type : SubmitType) → AllRead (type_pieces type)
unfolding classify
type_pieces-AllRead async = (key_piece-IsRead (codes "ASYNC") async_word refl refl, tt)
type_pieces-AllRead sync = (key_piece-IsRead (codes "SYNC") sync_word refl refl, tt)

pub op_id_piece-IsRead : (w : Text) → IsOpId w → IsRead (op_id_piece w)
op_id_piece-IsRead w h = run_piece w (op_id w) h.one_run h.token

behind :
    (x : Text) (ds : DebugInfo) (end : Text)
    → (x ++ debug_info_to_string ds) ++ end ≡ x ++ after_word (map mark_piece ds) end
behind x ds end =
    append_assoc x (debug_info_to_string ds) end
    ∙ ap (λ (y : Text). x ++ y) (debug-after_word ds end)

abbrev pub event_of : EventType → ℕ → Event
event_of type value = record { event_type = type; event_value = value }

event_line :
    (id : ℕ) (type : EventType) (value : ℕ) (end : Text)
    → IsPrintableEvent (event_of type value)
    → (codes "newEvent" ⊹ to_string id ⊹ event_to_string (event_of type value)) ++ end
      ≡ codes "newEvent" ++ after_word (number_piece id ∷ event_pieces (event_of type value)) end
unfolding event_to_string
event_line id EventType.s v end h =
    words4 (codes "newEvent") (to_string id) (codes "S") (to_string v) end
event_line id EventType.m v end h =
    words4 (codes "newEvent") (to_string id) (codes "M") (to_string v) end
event_line id EventType.w v end h =
    words4 (codes "newEvent") (to_string id) (codes "W") (to_string v) end
event_line id EventType.ext v end h =
    words3 (codes "newEvent") (to_string id) (codes "EXTERNAL") end
event_line id EventType.main v end h = absurd h

-- Every construct is printed as its pieces, with the debug information behind them.
expr_line :
    (c : Construct) (ds : DebugInfo) (end : Text)
    → IsPrintableConstruct c ds
    → expr_to_string (expr_of c ds) ++ end
      ≡ (expr_key c).text ++ after_word (expr_pieces c) (after_word (map mark_piece ds) end)
unfolding expr_to_string
expr_line (submit_op id (some event_id) async) [] end h = absurd h
expr_line (submit_op id (some event_id) async) (d ∷ ds) end h =
    behind (codes "submitOp" ⊹ id ⊹ to_string event_id ⊹ codes "ASYNC") (d ∷ ds) end
    ∙ words4 (codes "submitOp") id (to_string event_id) (codes "ASYNC")
        (after_word (map mark_piece (d ∷ ds)) end)
expr_line (submit_op id (some event_id) sync) ds end h = absurd h
expr_line (submit_op id none async) ds end h = absurd h
expr_line (submit_op id none sync) [] end h = absurd h
expr_line (submit_op id none sync) (d ∷ ds) end h =
    behind (codes "submitOp" ⊹ id ⊹ codes "SYNC") (d ∷ ds) end
    ∙ words3 (codes "submitOp") id (codes "SYNC") (after_word (map mark_piece (d ∷ ds)) end)
expr_line (new_event id e) ds end (n, h) =
    behind (codes "newEvent" ⊹ to_string id ⊹ event_to_string e) ds end
    ∙ event_line id e.event_type e.event_value (after_word (map mark_piece ds) end) h
expr_line (link source target) [] end h =
    words3 (codes "link") (to_string source) (to_string target) end
expr_line (link source target) (_ ∷ _) end h = absurd h
expr_line (trigger id) [] end h = sep (codes "trigger") (to_string id) end
expr_line (trigger id) (_ ∷ _) end h = absurd h

expr_pieces-AllRead :
    (c : Construct) (ds : DebugInfo) → IsPrintableConstruct c ds → AllRead (expr_pieces c)
expr_pieces-AllRead (submit_op id (some event_id) async) [] h = absurd h
expr_pieces-AllRead (submit_op id (some event_id) async) (d ∷ ds) (h, n) =
    (op_id_piece-IsRead id h, (number_piece-IsRead event_id, type_pieces-AllRead async))
expr_pieces-AllRead (submit_op id (some event_id) sync) ds h = absurd h
expr_pieces-AllRead (submit_op id none async) ds h = absurd h
expr_pieces-AllRead (submit_op id none sync) [] h = absurd h
expr_pieces-AllRead (submit_op id none sync) (d ∷ ds) h =
    (op_id_piece-IsRead id h, type_pieces-AllRead sync)
expr_pieces-AllRead (new_event id e) ds h =
    (number_piece-IsRead id, event_pieces-AllRead e.event_type e.event_value)
expr_pieces-AllRead (link source target) ds h =
    (number_piece-IsRead source, (number_piece-IsRead target, tt))
expr_pieces-AllRead (trigger id) ds h = (number_piece-IsRead id, tt)

-- An expression that a trace file can hold.
pub record IsPrintableExpr (e : Expr) : Type 0 where
  pub construct : IsPrintableConstruct e.construct e.debug_info
  pub debug : IsDebug e.debug_info

-- The tokens of an expression, and what follows them.
abbrev pub expr_tokens : Expr → List Token → List Token
expr_tokens e ts =
    (expr_key e.construct).tokens
    ++ (all_tokens (expr_pieces e.construct) ++ (marks_of e.debug_info ++ ts))

IsDebug-AllNames : (ds : DebugInfo) → IsDebug ds → AllNames ds
IsDebug-AllNames [] h = tt
IsDebug-AllNames (d ∷ ds) (h, _) = h

-- The lexer reads the line of an expression.
pub lex-expr_to_string :
    (e : Expr) (rest : Text)
    → IsPrintableExpr e
    → lex idle (expr_to_string e ++ 10 ∷ rest) ≡ expr_tokens e (lex idle rest)
lex-expr_to_string e rest h =
    let c = e.construct in
    let line = expr_pieces c ++ map mark_piece e.debug_info in
    ap (lex idle) (
      expr_line c e.debug_info (10 ∷ rest) h.construct
      ∙ ap (λ (x : Text). (expr_key c).text ++ x)
          (sym (after_word-append (expr_pieces c) (map mark_piece e.debug_info) (10 ∷ rest))))
    ∙ lex-line (expr_key c) line rest (expr_key-IsRead c) (
        AllRead-append (expr_pieces c) (map mark_piece e.debug_info)
          (expr_pieces-AllRead c e.debug_info h.construct)
          (AllNames-AllRead e.debug_info (IsDebug-AllNames e.debug_info h.debug)))
    ∙ ap (λ (x : List Token). (expr_key c).tokens ++ x)
        (all_tokens-append (expr_pieces c) (map mark_piece e.debug_info) (lex idle rest))
