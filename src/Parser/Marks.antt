-- ===== src/Parser/Marks.antt =====
-- The grammar on the tokens of a dump: numbers, descriptors and marks.
use fsracer.Prelude.{
  ℕ, ◌^◌, ◌<◌, ◌≡◌, refl, sym, ap, true, false, List, [], ◌∷◌, ◌++◌, map, Text, codes, text_ord,
  ltb, same, same_iff, ◌==◌, arith, Bool-cases, inl, inr, ok, fail, out_of_range,
}
use fsracer.Utils.{to_string}
use fsracer.Utils.Decimal.{value-to_string}
use fsracer.Trace.{DebugInfo}
use fsracer.Parser.{Token, colon, exclamation, pid, cwd, keyword, number, op_id, identifier, error}
use fsracer.Parser.Grammar.{
  stoi, parse_dirfd, more_meta_vars, parse_meta_vars, parse_optional_meta_vars,
}
use fsracer.Parser.Words.{dirfd_token, mark_piece}
use fsracer.Parser.Lines.{all_tokens, AllNames}

-- The numbers of an `int`.
abbrev pub IsInt : ℕ → Type 0
IsInt n = n < 2 ^ 31

pub stoi-to_string : (n : ℕ) → IsInt n → stoi (to_string n) ≡ ok n
unfolding stoi
stoi-to_string n h =
    let small : ltb n (2 ^ 31) ≡ true = ground arith in rw (value-to_string n, small) refl

pub stoi-too_large : (n : ℕ) → ¬ IsInt n → stoi (to_string n) ≡ fail out_of_range
unfolding stoi
stoi-too_large n h =
    let large : ltb n (2 ^ 31) ≡ false = ground arith in rw (value-to_string n, large) refl

pub parse_dirfd-token :
    (n : ℕ) (ts : List Token) → IsInt n → parse_dirfd (dirfd_token n ∷ ts) ≡ ok (n, ts)
unfolding parse_dirfd stoi
parse_dirfd-token n ts h = elim (Bool-cases (n == 0)) [
  | inl t ↦ let z : 0 ≡ n = ground arith in rw t (ap (λ k. ok (k, ts)) z)
  | inr f ↦ rw (f, stoi-to_string n h) refl
]

-- No mark comes next.
abbrev pub NotMark : List Token → Type 0
NotMark (exclamation ∷ _) = ⊥
NotMark _ = Unit

-- Names that the grammar takes behind the first.
abbrev AllPlain : DebugInfo → Type 0
AllPlain [] = Unit
AllPlain (d ∷ ds) = (same d (codes "rename") ≡ false) × AllPlain ds

more_meta_vars-stop : (ts : List Token) → NotMark ts → more_meta_vars ts ≡ ok ([], ts)
unfolding more_meta_vars
more_meta_vars-stop [] h = refl
more_meta_vars-stop (colon ∷ ts) h = refl
more_meta_vars-stop (exclamation ∷ ts) h = absurd h
more_meta_vars-stop (pid ∷ ts) h = refl
more_meta_vars-stop (cwd ∷ ts) h = refl
more_meta_vars-stop (keyword _ ∷ ts) h = refl
more_meta_vars-stop (number _ ∷ ts) h = refl
more_meta_vars-stop (op_id _ ∷ ts) h = refl
more_meta_vars-stop (identifier _ ∷ ts) h = refl
more_meta_vars-stop (error _ ∷ ts) h = refl

abbrev pub marks_of : DebugInfo → List Token
marks_of ds = all_tokens (map mark_piece ds)

more_meta_vars-marks :
    (ds : DebugInfo) (ts : List Token)
    → AllPlain ds
    → NotMark ts
    → more_meta_vars (marks_of ds ++ ts) ≡ ok (ds, ts)
unfolding more_meta_vars
more_meta_vars-marks [] ts plain h = more_meta_vars-stop ts h
more_meta_vars-marks (d ∷ ds) ts (e, plain) h = rw (e, more_meta_vars-marks ds ts plain h) refl

pub parse_meta_vars-marks :
    (d : Text) (ds : DebugInfo) (ts : List Token)
    → AllPlain ds
    → NotMark ts
    → parse_meta_vars (marks_of (d ∷ ds) ++ ts) ≡ ok (d ∷ ds, ts)
unfolding parse_meta_vars
parse_meta_vars-marks d ds ts plain h = elim (Bool-cases (same d (codes "rename"))) [
  | inl t ↦
      let is_rename : codes "rename" ≡ d = sym ((same_iff ⦃o = text_ord⦄ d (codes "rename")).0 t) in
      rw (t, more_meta_vars-marks ds ts plain h) (ap (λ x. ok (x ∷ ds, ts)) is_rename)
  | inr f ↦ rw (f, more_meta_vars-marks ds ts plain h) refl
]

optional-stop : (ts : List Token) → NotMark ts → parse_optional_meta_vars ts ≡ ok ([], ts)
unfolding parse_optional_meta_vars
optional-stop [] h = refl
optional-stop (colon ∷ ts) h = refl
optional-stop (exclamation ∷ ts) h = absurd h
optional-stop (pid ∷ ts) h = refl
optional-stop (cwd ∷ ts) h = refl
optional-stop (keyword _ ∷ ts) h = refl
optional-stop (number _ ∷ ts) h = refl
optional-stop (op_id _ ∷ ts) h = refl
optional-stop (identifier _ ∷ ts) h = refl
optional-stop (error _ ∷ ts) h = refl

-- The debug information that a trace file can hold.
abbrev pub IsDebug : DebugInfo → Type 0
IsDebug [] = Unit
IsDebug (d ∷ ds) = AllNames (d ∷ ds) × AllPlain ds

pub parse_optional_meta_vars-marks :
    (ds : DebugInfo) (ts : List Token)
    → IsDebug ds
    → NotMark ts
    → parse_optional_meta_vars (marks_of ds ++ ts) ≡ ok (ds, ts)
unfolding parse_optional_meta_vars
parse_optional_meta_vars-marks [] ts plain h = optional-stop ts h
parse_optional_meta_vars-marks (d ∷ ds) ts (_, plain) h = parse_meta_vars-marks d ds ts plain h
