-- ===== src/Parser/Words.antt =====
-- The tokens of a word that is followed by a space or by the end of the line.
use fsracer.Prelude.{
  ℕ, ◌≡◌, ◌≢◌, refl, sym, ap, subst, ◌∙◌, Bool, true, false, not, ◌&&◌, List, [], ◌∷◌, ◌++◌, Text,
  codes, text_ord, leb, ◌==◌, same, if◌then◌else◌, arith, append-nil, append_assoc, Bool-cases, inl,
  inr,
}
use fsracer.Utils.{to_string, to_string_in, starts_with, is_digit, all_digits}
use fsracer.Utils.Decimal.{value_from, value-to_string, all_digits-to_string}
use fsracer.Operation.{dirfd_to_string}
use fsracer.Parser.{rename_word, atfdcwd_word, Token, exclamation, keyword, number, identifier}
use fsracer.Parser.Lexer.{idle, digits, run, lex, advance, start, classify, is_head, is_stop}

-- What ends a word: a space, or a new line.
abbrev end_char : Bool → ℕ
end_char true = 32
end_char false = 10

abbrev no_stops : Text → Bool
no_stops [] = true
no_stops (c ∷ w) = not (is_stop c) && no_stops w

-- The first character begins an identifier, and no character ends it.
abbrev pub is_run : Text → Bool
is_run [] = false
is_run (c ∷ w) = is_head c && (not (is_stop c) && no_stops w)

-- A piece of a line, with its tokens.
pub record Piece : Type 0 where
  pub text : Text
  pub tokens : List Token

-- The lexer reads the tokens where the piece is followed by a space or by the end of the line.
abbrev pub IsRead : Piece → Type 0
IsRead p =
    (space : Bool) (rest : Text)
    → lex idle (p.text ++ end_char space ∷ rest) ≡ p.tokens ++ lex idle rest

lex-run :
    (w v : Text) (space : Bool) (rest : Text)
    → no_stops w ≡ true
    → lex (run v) (w ++ end_char space ∷ rest) ≡ classify (v ++ w) ∷ lex idle rest
unfolding lex advance start
lex-run [] v true rest h = ap (λ (x : Text). classify x ∷ lex idle rest) (sym (append-nil v))
lex-run [] v false rest h = ap (λ (x : Text). classify x ∷ lex idle rest) (sym (append-nil v))
lex-run (c ∷ w) v space rest h =
    let goes_on : is_stop c ≡ false = ground arith in
    let others : no_stops w ≡ true = ground arith in
    rw goes_on (
      lex-run w (v ++ c ∷ []) space rest others
      ∙ ap (λ (x : Text). classify x ∷ lex idle rest) (append_assoc v (c ∷ []) w))

lex-digits :
    (w v : Text) (space : Bool) (rest : Text)
    → all_digits w ≡ true
    → lex (digits v) (w ++ end_char space ∷ rest) ≡ number (v ++ w) ∷ lex idle rest
unfolding lex advance start
lex-digits [] v true rest h = ap (λ (x : Text). number x ∷ lex idle rest) (sym (append-nil v))
lex-digits [] v false rest h = ap (λ (x : Text). number x ∷ lex idle rest) (sym (append-nil v))
lex-digits (c ∷ w) v space rest h =
    let goes_on : is_digit c ≡ true = ground arith in
    let others : all_digits w ≡ true = ground arith in
    rw goes_on (
      lex-digits w (v ++ c ∷ []) space rest others
      ∙ ap (λ (x : Text). number x ∷ lex idle rest) (append_assoc v (c ∷ []) w))

-- A run of an identifier.
pub run_piece :
    (w : Text) (t : Token)
    → is_run w ≡ true
    → classify w ≡ t
    → IsRead (record { text = w; tokens = t ∷ [] })
unfolding lex advance start
run_piece [] t h e = absurd (cc h)
run_piece (c ∷ w) t h e = λ space rest.
    let first : is_digit c ≡ false = ground arith in
    let head : is_head c ≡ true = ground arith in
    let others : no_stops w ≡ true = ground arith in
    rw (first, head)
      (lex-run w (c ∷ []) space rest others ∙ ap (λ (x : Token). x ∷ lex idle rest) e)

digits_piece :
    (w : Text) → all_digits w ≡ true → w ≢ [] → IsRead (record { text = w; tokens = number w ∷ [] })
unfolding lex advance start
digits_piece [] h ne = absurd (ne refl)
digits_piece (c ∷ w) h ne = λ space rest.
    let first : is_digit c ≡ true = ground arith in
    let others : all_digits w ≡ true = ground arith in
    rw first (lex-digits w (c ∷ []) space rest others)

to_string-ne : (n : ℕ) → to_string n ≢ []
unfolding to_string to_string_in value_from
to_string-ne n e =
    let z : 0 ≡ n = ap (value_from 0) (sym e) ∙ value-to_string n in
    absurd (cc (subst (λ k. to_string k ≡ []) (sym z) e))

abbrev pub number_piece : ℕ → Piece
number_piece n = record { text = to_string n; tokens = number (to_string n) ∷ [] }

pub number_piece-IsRead : (n : ℕ) → IsRead (number_piece n)
number_piece-IsRead n = digits_piece (to_string n) (all_digits-to_string n) (to_string-ne n)

abbrev pub dirfd_token : ℕ → Token
dirfd_token dirfd = if dirfd == 0 then keyword atfdcwd_word else number (to_string dirfd)

abbrev pub dirfd_piece : ℕ → Piece
dirfd_piece dirfd = record { text = dirfd_to_string dirfd; tokens = dirfd_token dirfd ∷ [] }

pub dirfd_piece-IsRead : (dirfd : ℕ) → IsRead (dirfd_piece dirfd)
unfolding dirfd_to_string classify
dirfd_piece-IsRead dirfd = elim (Bool-cases (dirfd == 0)) [
  | inl t ↦ rw t (run_piece (codes "AT_FDCWD") (keyword atfdcwd_word) refl refl)
  | inr f ↦ rw f (number_piece-IsRead dirfd)
]

-- The name in a mark: "rename" is a keyword.
abbrev name_token : Text → Token
name_token d = if same d (codes "rename") then keyword rename_word else identifier d

abbrev pub mark_piece : Text → Piece
mark_piece d = record { text = 33 ∷ d; tokens = exclamation ∷ name_token d ∷ [] }

abbrev is_small : ℕ → Bool
is_small c = leb 97 c && leb c 122

abbrev pub starts_small : Text → Bool
starts_small [] = false
starts_small (c ∷ _) = is_small c

-- A name that stands behind an exclamation mark: it begins with a small letter, and it is an identifier or
-- "rename".
pub record IsName (d : Text) : Type 0 where
  pub small : starts_small d ≡ true
  pub is_one : is_run d ≡ true
  pub token : classify d ≡ name_token d

lex-mark :
    (c : ℕ) (str : Text)
    → is_small c ≡ true
    → lex idle (33 ∷ c ∷ str) ≡ exclamation ∷ lex idle (c ∷ str)
unfolding lex advance start starts_with
lex-mark c str h =
    let p : (80 == c) ≡ false = ground arith in
    let w : (87 == c) ≡ false = ground arith in
    let p' : (c == 80) ≡ false = ground arith in
    let w' : (c == 87) ≡ false = ground arith in rw (p', w') refl

pub mark_piece-IsRead : (d : Text) → IsName d → IsRead (mark_piece d)
mark_piece-IsRead [] n = absurd (cc n.small)
mark_piece-IsRead (c ∷ d) n = λ space rest.
    lex-mark c (d ++ end_char space ∷ rest) n.small
    ∙ ap (λ (ts : List Token). exclamation ∷ ts)
        (run_piece (c ∷ d) (name_token (c ∷ d)) n.is_one n.token space rest)
