-- ===== src/Parser/Lexer.antt =====
-- tools/fsracer/TraceLexer.l: the longest match, and the first rule among those that match as much.
use fsracer.Prelude.{
  ℕ, zero, suc, Bool, ◌&&◌, ◌||◌, Option, none, some, List, [], ◌∷◌, ◌++◌, Text, codes, text_ord,
  leb, ◌==◌, same, if◌then◌else◌,
}
use fsracer.Utils.{starts_with, is_digit, is_number, drop}
use fsracer.Parser.{
  Keyword, op_word, do_word, done_word, hpath_word, hpathsym_word, new_fd_word, del_fd_word,
  rename_word, symlink_word, atfdcwd_word, begin_word, main_word, end_word, new_event_word,
  link_word, trigger_word, submit_op_word, sync_word, async_word, s_word, m_word, w_word,
  external_word, produced_word, consumed_word, expunged_word, Token, colon, exclamation, pid, cwd,
  keyword, number, op_id, identifier, error,
}

-- The rules with one text, in their order.
abbrev keywords : List (Text × Keyword)
keywords =
    (codes "Operation", op_word)
    ∷ (codes "do", do_word)
    ∷ (codes "done", done_word)
    ∷ (codes "consumed", consumed_word)
    ∷ (codes "produced", produced_word)
    ∷ (codes "expunged", expunged_word)
    ∷ (codes "hpath", hpath_word)
    ∷ (codes "hpathsym", hpathsym_word)
    ∷ (codes "newFd", new_fd_word)
    ∷ (codes "delFd", del_fd_word)
    ∷ (codes "rename", rename_word)
    ∷ (codes "symlink", symlink_word)
    ∷ (codes "AT_FDCWD", atfdcwd_word)
    ∷ (codes "Begin", begin_word)
    ∷ (codes "End", end_word)
    ∷ (codes "MAIN", main_word)
    ∷ (codes "newEvent", new_event_word)
    ∷ (codes "link", link_word)
    ∷ (codes "trigger", trigger_word)
    ∷ (codes "submitOp", submit_op_word)
    ∷ (codes "SYNC", sync_word)
    ∷ (codes "ASYNC", async_word)
    ∷ (codes "S", s_word)
    ∷ (codes "M", m_word)
    ∷ (codes "W", w_word)
    ∷ (codes "EXTERNAL", external_word)
    ∷ []

abbrev keyword_of : Text → List (Text × Keyword) → Option Keyword
keyword_of w [] = none
keyword_of w ((str, k) ∷ rest) = if same w str then some k else keyword_of w rest

-- `[a]?sync_[0-9]+`
unfoldable is_op_id : Text → Bool
unfolding starts_with is_number
is_op_id w =
    (starts_with w (codes "sync_") && is_number (drop 5 w))
    || (starts_with w (codes "async_") && is_number (drop 6 w))

-- The token of a run of characters that the rule of identifiers matches as a whole.
unfoldable pub classify : Text → Token
unfolding is_op_id
classify w = elim (keyword_of w keywords) [
  | some k ↦ keyword k
  | none ↦ if is_op_id w then op_id w else identifier w
]

abbrev is_between : ℕ → ℕ → ℕ → Bool
is_between low high c = leb low c && leb c high

-- `[a-zA-Z\/._\-]`
abbrev pub is_head : ℕ → Bool
is_head c =
    is_between 97 122 c
    || (is_between 65 90 c || ((c == 47) || ((c == 46) || ((c == 95) || (c == 45)))))

-- What ends an identifier: `[^ :\n]` leaves these out.
abbrev pub is_stop : ℕ → Bool
is_stop c = (c == 32) || ((c == 58) || (c == 10))

abbrev is_blank : ℕ → Bool
is_blank c = (c == 32) || ((c == 9) || ((c == 13) || (c == 10)))

-- The match under way: digits, a run of an identifier, or the rest of a text that is known to follow.
pub data Pending : Type 0 where
  idle : Pending
  digits run : Text → Pending
  known : ℕ → Pending

-- The first character of a match, with what follows it.
unfoldable pub start : ℕ → Text → List Token × Pending
unfolding starts_with
start c str =
    if is_digit c
    then ([], digits (c ∷ []))
    else if is_head c
    then ([], run (c ∷ []))
    else if is_blank c
    then ([], idle)
    else if c == 58
    then (colon ∷ [], idle)
    else if c == 33
    then (if starts_with str (codes "PID")
        then (pid ∷ [], known 3)
        else if starts_with str (codes "Working Directory")
        then (cwd ∷ [], known 17)
        else (exclamation ∷ [], idle))
    else (error (c ∷ []) ∷ [], idle)

abbrev pub after : Token → List Token × Pending → List Token × Pending
after t (ts, p) = (t ∷ ts, p)

unfoldable pub advance : Pending → ℕ → Text → List Token × Pending
unfolding start classify
advance idle c str = start c str
advance (digits w) c str =
    if is_digit c then ([], digits (w ++ c ∷ [])) else after (number w) (start c str)
advance (run w) c str =
    if is_stop c then after (classify w) (start c str) else ([], run (w ++ c ∷ []))
advance (known zero) c str = start c str
advance (known (suc n)) c str = ([], known n)

unfoldable pub lex : Pending → Text → List Token
unfolding advance classify
lex idle [] = []
lex (digits w) [] = number w ∷ []
lex (run w) [] = classify w ∷ []
lex (known _) [] = []
lex p (c ∷ str) = (advance p c str).0 ++ lex (advance p c str).1 str
