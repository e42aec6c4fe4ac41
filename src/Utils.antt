-- ===== src/Utils.antt =====
-- lib/Utils.cpp and lib/Utils.h, and the decimal notation of numbers (`std::to_string`).
pub mod Decimal
pub mod Split
pub mod Pairs
use fsracer.Prelude.{
  ℕ, zero, suc, ◌+◌, ◌-◌, ◌/◌, ◌%◌, Bool, true, false, ◌&&◌, not, Option, none, some, List, [], ◌∷◌,
  ◌++◌, map, Text, codes, ltb, leb, ◌==◌, if◌then◌else◌, ℤ, pos, negsuc, same, text_ord,
}

-- `std::to_string` of an unsigned number, with a round of fuel for each digit.
unfoldable pub to_string_in : ℕ → ℕ → Text
to_string_in zero n = []
to_string_in (suc fuel) n =
    let rest = to_string_in fuel (n / 10) in
    if ltb n 10 then (48 + n) ∷ [] else rest ++ (48 + n % 10) ∷ []

unfoldable pub to_string : ℕ → Text
unfolding to_string_in
to_string n = to_string_in (suc n) n

-- `std::to_string` of an `int`.
unfoldable pub int_to_string : ℤ → Text
unfolding to_string
int_to_string (pos n) = to_string n
int_to_string (negsuc n) = codes "-" ++ to_string (suc n)

abbrev pub hex_digit : ℕ → ℕ
hex_digit d = if ltb d 10 then 48 + d else 87 + d

unfoldable pub to_hex_in : ℕ → ℕ → Text
to_hex_in zero n = []
to_hex_in (suc fuel) n =
    let rest = to_hex_in fuel (n / 16) in
    if ltb n 16 then hex_digit n ∷ [] else rest ++ hex_digit (n % 16) ∷ []

-- An address in a stream: in hexadecimal, with the prefix that libstdc++ leaves off for null.
unfoldable pub ptr_to_string : ℕ → Text
unfolding to_hex_in
ptr_to_string zero = codes "0"
ptr_to_string (suc n) = codes "0x" ++ to_hex_in (suc (suc n)) (suc n)

-- Whether the second text begins the first: where `find` returns 0.
unfoldable pub starts_with : Text → Text → Bool
starts_with str [] = true
starts_with [] (p ∷ prefix) = false
starts_with (c ∷ str) (p ∷ prefix) = (c == p) && starts_with str prefix

-- `str.find(delm)`: the first position, `none` for `npos`.
unfoldable pub find_text : Text → Text → Option ℕ
unfolding starts_with
find_text [] delm = if starts_with [] delm then some 0 else none
find_text (c ∷ str) delm =
    let rest = find_text str delm in
    if starts_with (c ∷ str) delm then some 0 else elim rest [ none ↦ none | some i ↦ some (suc i) ]

-- `str.substr(pos)` for a position in range.
abbrev pub drop : ℕ → Text → Text
drop zero str = str
drop (suc n) [] = []
drop (suc n) (_ ∷ str) = drop n str

unfoldable pub get_right_substr : Text → Text → Text
unfolding find_text
get_right_substr str delm = elim (find_text str delm) [ none ↦ str | some at ↦ drop (suc at) str ]

abbrev pub is_digit : ℕ → Bool
is_digit c = leb 48 c && leb c 57

abbrev pub all_digits : Text → Bool
all_digits [] = true
all_digits (c ∷ str) = is_digit c && all_digits str

unfoldable pub is_number : Text → Bool
is_number [] = false
is_number (c ∷ str) = all_digits (c ∷ str)

-- Each element with itself and with every one behind it.
unfoldable pub get_2_combinations {ℓ} : {A : Type ℓ} → List A → List (A × A)
get_2_combinations [] = []
get_2_combinations (x ∷ xs) = map (λ y. (x, y)) (x ∷ xs) ++ get_2_combinations xs

pub data ErrType : Type 0 where
  runtime trace_error analyzer_error : ErrType

unfoldable pub err_to_string : ErrType → Text
err_to_string ErrType.runtime = codes "Runtime Error"
err_to_string ErrType.trace_error = codes "Trace Error"
err_to_string ErrType.analyzer_error = codes "Analyzer Error"

pub record Error : Type 0 where
  pub err_type : ErrType
  pub msg : Text
  pub desc : Text
  pub location : Text

unfoldable pub error_to_string : Error → Text
unfolding err_to_string
error_to_string e =
    (if same e.desc [] then [] else e.desc ++ codes "\n")
    ++ (err_to_string e.err_type
        ++ ((if same e.msg [] then [] else codes ": " ++ e.msg)
            ++ (if same e.location []
                then []
                else codes " (location: " ++ (e.location ++ codes ")"))))
