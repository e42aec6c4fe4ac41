-- ===== src/Parser/Lines.antt =====
-- The tokens of the lines of a dump: operations and expressions.
use fsracer.Prelude.{
  ◌≡◌, refl, sym, ap, ◌∙◌, true, false, List, [], ◌∷◌, ◌++◌, map, Text, codes, text_ord,
  append_assoc,
}
use fsracer.Operation.{EffectType, consumed, produced, expunged, eff_to_string, ◌⊹◌}
use fsracer.Trace.{DebugInfo, debug_info_to_string}
use fsracer.Parser.{
  Keyword, produced_word, consumed_word, expunged_word, Token, keyword, identifier,
}
use fsracer.Parser.Lexer.{idle, lex, classify}
use fsracer.Parser.Words.{Piece, IsRead, run_piece, is_run, mark_piece, mark_piece-IsRead, IsName}

-- The pieces behind the first, each with a space before it.
abbrev pub after_word : List Piece → Text → Text
after_word [] end = end
after_word (p ∷ ps) end = 32 ∷ (p.text ++ after_word ps end)

abbrev pub all_tokens : List Piece → List Token
all_tokens [] = []
all_tokens (p ∷ ps) = p.tokens ++ all_tokens ps

abbrev pub AllRead : List Piece → Type 0
AllRead [] = Unit
AllRead (p ∷ ps) = IsRead p × AllRead ps

pub lex-line :
    (p : Piece) (ps : List Piece) (rest : Text)
    → IsRead p
    → AllRead ps
    → lex idle (p.text ++ after_word ps (10 ∷ rest)) ≡ p.tokens ++ (all_tokens ps ++ lex idle rest)
lex-line p [] rest one all = one false rest
lex-line p (q ∷ qs) rest one (next, all) =
    one true (q.text ++ after_word qs (10 ∷ rest))
    ∙ ap (λ (ts : List Token). p.tokens ++ ts)
        (lex-line q qs rest next all ∙ sym (append_assoc q.tokens (all_tokens qs) (lex idle rest)))

pub after_word-append :
    (ps qs : List Piece) (end : Text)
    → after_word (ps ++ qs) end ≡ after_word ps (after_word qs end)
after_word-append [] qs end = refl
after_word-append (p ∷ ps) qs end =
    ap (λ (x : Text). 32 ∷ (p.text ++ x)) (after_word-append ps qs end)

pub AllRead-append : (ps qs : List Piece) → AllRead ps → AllRead qs → AllRead (ps ++ qs)
AllRead-append [] qs h k = k
AllRead-append (p ∷ ps) qs (one, h) k = (one, AllRead-append ps qs h k)

-- The debug information of an expression.
pub debug-after_word :
    (ds : DebugInfo) (end : Text)
    → debug_info_to_string ds ++ end ≡ after_word (map mark_piece ds) end
unfolding debug_info_to_string
debug-after_word [] end = refl
debug-after_word (d ∷ ds) end =
    ap (λ (x : Text). 32 ∷ 33 ∷ x)
      (append_assoc d (debug_info_to_string ds) end
        ∙ ap (λ (x : Text). d ++ x) (debug-after_word ds end))

abbrev pub AllNames : DebugInfo → Type 0
AllNames [] = Unit
AllNames (d ∷ ds) = IsName d × AllNames ds

pub AllNames-AllRead : (ds : DebugInfo) → AllNames ds → AllRead (map mark_piece ds)
AllNames-AllRead [] all = tt
AllNames-AllRead (d ∷ ds) (one, all) = (mark_piece-IsRead d one, AllNames-AllRead ds all)

-- Two words, and what follows the second.
pub sep : (a b end : Text) → (a ⊹ b) ++ end ≡ a ++ 32 ∷ (b ++ end)
sep a b end = append_assoc (a ++ codes " ") b end ∙ append_assoc a (codes " ") (b ++ end)

pub words3 : (a b c end : Text) → (a ⊹ b ⊹ c) ++ end ≡ a ++ 32 ∷ (b ++ 32 ∷ (c ++ end))
words3 a b c end = sep a (b ⊹ c) end ∙ ap (λ (x : Text). a ++ 32 ∷ x) (sep b c end)

pub words4 :
    (a b c d end : Text) → (a ⊹ b ⊹ c ⊹ d) ++ end ≡ a ++ 32 ∷ (b ++ 32 ∷ (c ++ 32 ∷ (d ++ end)))
words4 a b c d end = sep a (b ⊹ c ⊹ d) end ∙ ap (λ (x : Text). a ++ 32 ∷ x) (words3 b c d end)

pub words5 :
    (a b c d e end : Text)
    → (a ⊹ b ⊹ c ⊹ d ⊹ e) ++ end ≡ a ++ 32 ∷ (b ++ 32 ∷ (c ++ 32 ∷ (d ++ 32 ∷ (e ++ end))))
words5 a b c d e end =
    sep a (b ⊹ c ⊹ d ⊹ e) end ∙ ap (λ (x : Text). a ++ 32 ∷ x) (words4 b c d e end)

-- The tokens of more pieces.
pub all_tokens-append :
    (ps qs : List Piece) (ts : List Token)
    → all_tokens (ps ++ qs) ++ ts ≡ all_tokens ps ++ (all_tokens qs ++ ts)
all_tokens-append [] qs ts = refl
all_tokens-append (p ∷ ps) qs ts =
    append_assoc p.tokens (all_tokens (ps ++ qs)) ts
    ∙ ap (λ (x : List Token). p.tokens ++ x) (all_tokens-append ps qs ts)
    ∙ sym (append_assoc p.tokens (all_tokens ps) (all_tokens qs ++ ts))

-- A path that the lexer takes for an identifier.
pub record IsIdentifier (w : Text) : Type 0 where
  pub one_run : is_run w ≡ true
  pub token : classify w ≡ identifier w

abbrev pub identifier_piece : Text → Piece
identifier_piece w = record { text = w; tokens = identifier w ∷ [] }

pub identifier_piece-IsRead : (w : Text) → IsIdentifier w → IsRead (identifier_piece w)
identifier_piece-IsRead w h = run_piece w (identifier w) h.one_run h.token

abbrev pub effect_word : EffectType → Keyword
effect_word consumed = consumed_word
effect_word produced = produced_word
effect_word expunged = expunged_word

abbrev pub effect_piece : EffectType → Piece
effect_piece e = record { text = eff_to_string e; tokens = keyword (effect_word e) ∷ [] }

pub effect_piece-IsRead : (e : EffectType) → IsRead (effect_piece e)
unfolding eff_to_string classify
effect_piece-IsRead consumed = run_piece (codes "consumed") (keyword consumed_word) refl refl
effect_piece-IsRead produced = run_piece (codes "produced") (keyword produced_word) refl refl
effect_piece-IsRead expunged = run_piece (codes "expunged") (keyword expunged_word) refl refl

abbrev pub key_piece : Text → Keyword → Piece
key_piece w k = record { text = w; tokens = keyword k ∷ [] }

pub key_piece-IsRead :
    (w : Text) (k : Keyword) → is_run w ≡ true → classify w ≡ keyword k → IsRead (key_piece w k)
key_piece-IsRead w k h e = run_piece w (keyword k) h e
