-- ===== src/Parser/Heads.antt =====
-- The head of a dump: its statistics, its process and its directory.
use fsracer.Prelude.{
  ℕ, ◌≡◌, refl, ap, ◌∙◌, true, false, List, [], ◌∷◌, ◌++◌, Text, codes, append_assoc,
}
use fsracer.Utils.{to_string, starts_with}
use fsracer.Trace.{Trace}
use fsracer.DumpAnalyzer.Counts.{preamble}
use fsracer.Parser.{Token, colon, exclamation, pid, cwd, number, identifier}
use fsracer.Parser.Lexer.{idle, lex, advance, start, classify}
use fsracer.Parser.Words.{Piece, IsRead, number_piece, number_piece-IsRead}
use fsracer.Parser.Lines.{lex-line, IsIdentifier, identifier_piece, identifier_piece-IsRead}

-- A line of the head: its name and what it tells.
lex-head_line :
    (name : Piece) (value : Piece) (rest : Text)
    → IsRead name
    → IsRead value
    → lex idle (name.text ++ 32 ∷ (value.text ++ 10 ∷ rest))
      ≡ name.tokens ++ (value.tokens ++ lex idle rest)
lex-head_line name value rest h k =
    lex-line name (value ∷ []) rest h (k, tt)
    ∙ ap (λ (x : List Token). name.tokens ++ x) (append_assoc value.tokens [] (lex idle rest))

abbrev stat_piece : Text → Piece
stat_piece name = record {
  text = 33 ∷ (name ++ codes ":");
  tokens = exclamation ∷ identifier name ∷ colon ∷ [];
}

abbrev pid_piece : Piece
pid_piece = record { text = codes "!PID:"; tokens = pid ∷ colon ∷ [] }

abbrev cwd_piece : Piece
cwd_piece = record { text = codes "!Working Directory:"; tokens = cwd ∷ colon ∷ [] }

blocks_piece-IsRead : IsRead (stat_piece (codes "Blocks"))
unfolding lex advance start classify starts_with
blocks_piece-IsRead true rest = refl
blocks_piece-IsRead false rest = refl

operations_piece-IsRead : IsRead (stat_piece (codes "Operations"))
unfolding lex advance start classify starts_with
operations_piece-IsRead true rest = refl
operations_piece-IsRead false rest = refl

entries_piece-IsRead : IsRead (stat_piece (codes "Entries"))
unfolding lex advance start classify starts_with
entries_piece-IsRead true rest = refl
entries_piece-IsRead false rest = refl

pid_piece-IsRead : IsRead (pid_piece)
unfolding lex advance start classify starts_with
pid_piece-IsRead true rest = refl
pid_piece-IsRead false rest = refl

cwd_piece-IsRead : IsRead (cwd_piece)
unfolding lex advance start classify starts_with
cwd_piece-IsRead true rest = refl
cwd_piece-IsRead false rest = refl

abbrev stat_tokens : Text → ℕ → List Token → List Token
stat_tokens name n ts = exclamation ∷ identifier name ∷ colon ∷ number (to_string n) ∷ ts

-- The statistics, and what follows them.
abbrev pub stats_tokens : ℕ → ℕ → ℕ → List Token → List Token
stats_tokens blocks operations entries ts =
    stat_tokens (codes "Blocks") blocks
      (stat_tokens (codes "Operations") operations (stat_tokens (codes "Entries") entries ts))

append6 :
    (a b c d e f g : Text)
    → (((((a ++ b) ++ c) ++ d) ++ e) ++ f) ++ g ≡ a ++ (b ++ (c ++ (d ++ (e ++ (f ++ g)))))
append6 a b c d e f g =
    append_assoc ((((a ++ b) ++ c) ++ d) ++ e) f g
    ∙ append_assoc (((a ++ b) ++ c) ++ d) e (f ++ g)
    ∙ append_assoc ((a ++ b) ++ c) d (e ++ (f ++ g))
    ∙ append_assoc (a ++ b) c (d ++ (e ++ (f ++ g)))
    ∙ append_assoc a b (c ++ (d ++ (e ++ (f ++ g))))

-- The lexer reads the statistics.
pub lex-stats :
    (blocks operations entries : ℕ) (rest : Text)
    → lex idle (
        codes "!Blocks: "
        ++ to_string blocks
        ++ codes "\n!Operations: "
        ++ to_string operations
        ++ codes "\n!Entries: "
        ++ to_string entries
        ++ codes "\n"
        ++ rest)
      ≡ stats_tokens blocks operations entries (lex idle rest)
lex-stats n m k rest =
    ap (λ (x : Text). lex idle (codes "!Blocks: " ++ x))
      (append6 (to_string n) (codes "\n!Operations: ") (to_string m) (codes "\n!Entries: ")
        (to_string k) (codes "\n") rest)
    ∙ lex-head_line (stat_piece (codes "Blocks")) (number_piece n)
        (codes "!Operations: "
          ++ (to_string m ++ (codes "\n!Entries: " ++ (to_string k ++ (codes "\n" ++ rest)))))
        blocks_piece-IsRead (number_piece-IsRead n)
    ∙ ap (stat_tokens (codes "Blocks") n) (
        lex-head_line (stat_piece (codes "Operations")) (number_piece m)
          (codes "!Entries: " ++ (to_string k ++ (codes "\n" ++ rest))) operations_piece-IsRead
          (number_piece-IsRead m)
        ∙ ap (stat_tokens (codes "Operations") m) (
            lex-head_line (stat_piece (codes "Entries")) (number_piece k) rest entries_piece-IsRead
              (number_piece-IsRead k)))

abbrev pub preamble_tokens : Trace → List Token → List Token
preamble_tokens t ts =
    pid ∷ colon ∷ number (to_string t.thread_id) ∷ cwd ∷ colon ∷ identifier t.cwd ∷ ts

-- The lexer reads the process and the directory.
pub lex-preamble :
    (t : Trace) (rest : Text)
    → IsIdentifier t.cwd
    → lex idle (preamble t ++ rest) ≡ preamble_tokens t (lex idle rest)
lex-preamble t rest h =
    let dir = codes "!Working Directory: " ++ t.cwd ++ codes "\n" in
    ap (λ (x : Text). lex idle (codes "!PID: " ++ x))
      (append_assoc (to_string t.thread_id ++ codes "\n") dir rest
        ∙ append_assoc (to_string t.thread_id) (codes "\n") (dir ++ rest)
        ∙ ap (λ (x : Text). to_string t.thread_id ++ (codes "\n!Working Directory: " ++ x))
            (append_assoc t.cwd (codes "\n") rest))
    ∙ lex-head_line pid_piece (number_piece t.thread_id)
        (codes "!Working Directory: " ++ (t.cwd ++ 10 ∷ rest)) pid_piece-IsRead
        (number_piece-IsRead t.thread_id)
    ∙ ap (λ (x : List Token). pid ∷ colon ∷ number (to_string t.thread_id) ∷ x)
        (lex-head_line cwd_piece (identifier_piece t.cwd) rest cwd_piece-IsRead
          (identifier_piece-IsRead t.cwd h))
