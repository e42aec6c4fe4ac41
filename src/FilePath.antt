-- ===== src/FilePath.antt =====
-- `std::experimental::filesystem::path`, as far as the analyzers use it: the list of the elements that
-- an iteration over the path visits, the root "/" first where the path is absolute. The element that a
-- trailing slash adds, which reads ".", is the empty text here.
use fsracer.Prelude.{
  ℕ, Bool, false, List, [], ◌∷◌, ◌++◌, Text, codes, Ord, text_ord, list_ord, same, ◌==◌,
  if◌then◌else◌,
}
use fsracer.Trace.{drop_last}

abbrev pub FilePath : Type 0
FilePath = List Text

instance abbrev pub path_ord : Ord FilePath
path_ord = list_ord

abbrev pub root : FilePath
root = codes "/" ∷ []

abbrev pub is_absolute : FilePath → Bool
is_absolute [] = false
is_absolute (e ∷ _) = same e (codes "/")

-- All but the last element: the empty path for "/" and for a single name.
abbrev pub parent_path : FilePath → FilePath
parent_path p = drop_last p

-- The last element: "/" for the root.
abbrev pub filename : FilePath → Text
filename [] = []
filename (e ∷ []) = if same e [] then codes "." else e
filename (e ∷ e' ∷ p) = filename (e' ∷ p)

-- Without the element of a trailing slash.
unfoldable pub trim : FilePath → FilePath
trim [] = []
trim (e ∷ []) = if same e [] then [] else e ∷ []
trim (e ∷ e' ∷ p) = e ∷ trim (e' ∷ p)

-- `p / q` for a relative `q`.
abbrev pub join : FilePath → FilePath → FilePath
join p [] = p
join p (e ∷ q) = trim p ++ (e ∷ q)

unfoldable pub native_names : List Text → Text
native_names [] = []
native_names (n ∷ []) = n
native_names (n ∷ n' ∷ ns) = n ++ codes "/" ++ native_names (n' ∷ ns)

unfoldable pub native : FilePath → Text
unfolding native_names
native [] = []
native (e ∷ p) = if same e (codes "/") then e ++ native_names p else native_names (e ∷ p)

abbrev pub put_byte : ℕ → List Text → List Text
put_byte c [] = (c ∷ []) ∷ []
put_byte c (f ∷ fs) = (c ∷ f) ∷ fs

-- The parts of a text between its slashes.
unfoldable pub fields : Text → List Text
fields [] = [] ∷ []
fields (c ∷ str) = let rest = fields str in if c == 47 then [] ∷ rest else put_byte c rest

-- Empty parts are dropped, but for the one behind a trailing slash.
unfoldable pub names : List Text → List Text
names [] = []
names ([] ∷ []) = [] ∷ []
names ([] ∷ fs) = names fs
names (f ∷ []) = f ∷ []
names (f ∷ fs) = f ∷ names fs

unfoldable pub path_of_text : Text → FilePath
unfolding fields names
path_of_text [] = []
path_of_text (c ∷ str) =
    if c == 47
    then (if same str [] then root else codes "/" ∷ names (fields str))
    else names (fields (c ∷ str))
