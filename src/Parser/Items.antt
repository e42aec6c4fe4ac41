-- ===== src/Parser/Items.antt =====
-- The lists of the grammar: as many rounds as there are tokens are enough.
use fsracer.Prelude.{
  ℕ, zero, suc, ◌≤◌, ◌<◌, ◌≡◌, refl, Option, none, some, List, [], ◌∷◌, arith, length, ok,
}
use fsracer.Parser.{Token}
use fsracer.Parser.Grammar.{Parsed}
use fsracer.Parser.Marks.{NotMark}
use fsracer.Parser.Program.{parse_until, parse_all, parse_some}

-- The tokens of a list, and what follows them.
abbrev pub tokens_of :
    {A : Type 0} → (A → List Token → List Token) → List A → List Token → List Token
tokens_of tokens [] ts = ts
tokens_of tokens (x ∷ xs) ts = tokens x (tokens_of tokens xs ts)

abbrev pub Each : {A : Type 0} → (A → Type 0) → List A → Type 0
Each Good [] = Unit
Each Good (x ∷ xs) = Good x × Each Good xs

-- The items of a list, each with a token that begins it, which is not a mark and does not end the list.
module _ {A : Type 0} (item : List Token → Parsed A) (stops : List Token → Option (List Token))
    (tokens : A → List Token → List Token) (Good : A → Type 0)
    (reads : (x : A) (ts : List Token) → Good x → NotMark ts → item (tokens x ts) ≡ ok (x, ts))
    (goes_on : (x : A) (ts : List Token) → stops (tokens x ts) ≡ none)
    (no_mark : (x : A) (ts : List Token) → NotMark (tokens x ts))
    (takes : (x : A) (ts : List Token) → length ts < length (tokens x ts)) where
  NotMark-tokens_of :
      (xs : List A) (ts : List Token) → NotMark ts → NotMark (tokens_of tokens xs ts)
  NotMark-tokens_of [] ts h = h
  NotMark-tokens_of (x ∷ xs) ts h = no_mark x (tokens_of tokens xs ts)

  parse_until-tokens :
      (xs : List A) (ts left : List Token) (fuel : ℕ)
      → Each Good xs
      → NotMark ts
      → stops ts ≡ some left
      → length (tokens_of tokens xs ts) < fuel
      → parse_until item stops fuel (tokens_of tokens xs ts) ≡ ok (xs, left)
  unfolding parse_until
  parse_until-tokens xs ts left zero all k e h = absurd (omega arith)
  parse_until-tokens [] ts left (suc fuel) all k e h = rw (parse_until, e) refl
  parse_until-tokens (x ∷ xs) ts left (suc fuel) (one, all) k e h =
      let less = takes x (tokens_of tokens xs ts) in
      rw
        (
          parse_until,
          goes_on x (tokens_of tokens xs ts),
          reads x (tokens_of tokens xs ts) one (NotMark-tokens_of xs ts k),
          parse_until-tokens xs ts left fuel all k e (omega arith),
        )
        refl

  pub length-tokens_of :
      (xs : List A) (ts : List Token) → length ts ≤ length (tokens_of tokens xs ts)
  length-tokens_of [] ts = omega arith
  length-tokens_of (x ∷ xs) ts =
      let less = takes x (tokens_of tokens xs ts) in
      let less' = length-tokens_of xs ts in omega arith

  pub parse_all-tokens :
      (xs : List A) (ts left : List Token)
      → Each Good xs
      → NotMark ts
      → stops ts ≡ some left
      → parse_all item stops (tokens_of tokens xs ts) ≡ ok (xs, left)
  parse_all-tokens xs ts left all k e =
      parse_until-tokens xs ts left (suc (length (tokens_of tokens xs ts))) all k e (omega arith)

  pub parse_some-tokens :
      (x : A) (xs : List A) (ts left : List Token)
      → Each Good (x ∷ xs)
      → NotMark ts
      → stops ts ≡ some left
      → parse_some item stops (tokens_of tokens (x ∷ xs) ts) ≡ ok (x ∷ xs, left)
  parse_some-tokens x xs ts left (one, all) k e =
      rw
        (
          reads x (tokens_of tokens xs ts) one (NotMark-tokens_of xs ts k),
          parse_all-tokens xs ts left all k e,
        )
        refl
