-- ===== src/Utils/Split.antt =====
-- `GetRightSubstr` with a separator of one byte.
use fsracer.Prelude.{
  ℕ, suc, ◌≡◌, refl, Bool, true, false, ◌&&◌, none, some, [], ◌∷◌, ◌++◌, Text, codes, arith, ◌==◌,
  if◌then◌else◌,
}
use fsracer.Utils.{find_text, drop, get_right_substr, to_string}

abbrev no_byte : ℕ → Text → Bool
no_byte sep [] = true
no_byte sep (c ∷ str) = (if c == sep then false else true) && no_byte sep str

find_text-append :
    (sep : ℕ) (left right : Text)
    → no_byte sep left ≡ true
    → (i : ℕ) × (find_text (left ++ sep ∷ right) (sep ∷ []) ≡ some i)
      × (drop (suc i) (left ++ sep ∷ right) ≡ right)
unfolding find_text
find_text-append sep [] right h = (0, ground arith, refl)
find_text-append sep (c ∷ left) right h =
    let (i, found, rest) = find_text-append sep left right (ground arith) in
    (suc i, ground arith, rest)

find_text_absent : (sep : ℕ) (str : Text) → no_byte sep str ≡ true → find_text str (sep ∷ []) ≡ none
unfolding find_text
find_text_absent sep [] h = refl
find_text_absent sep (c ∷ str) h = ground (arith, find_text_absent sep str)

-- Of a text with one separator behind a part without it, the part behind the separator is left.
get_right_substr-append :
    (sep : ℕ) (left right : Text)
    → no_byte sep left ≡ true
    → get_right_substr (left ++ sep ∷ right) (sep ∷ []) ≡ right
unfolding get_right_substr
get_right_substr-append sep left right h =
    let (i, found, rest) = find_text-append sep left right h in rw (found, get_right_substr) rest

-- A text without the separator is returned whole.
get_right_substr_absent :
    (sep : ℕ) (str : Text) → no_byte sep str ≡ true → get_right_substr str (sep ∷ []) ≡ str
unfolding get_right_substr
get_right_substr_absent sep str h = rw (find_text_absent sep str h, get_right_substr)

-- The identifier of an asynchronous operation names the event that the operation belongs to.
get_right_substr-async :
    (event : ℕ) → get_right_substr (codes "async_" ++ to_string event) (codes "_") ≡ to_string event
get_right_substr-async event = get_right_substr-append 95 (codes "async") (to_string event) refl
