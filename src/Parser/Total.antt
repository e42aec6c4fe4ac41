-- ===== src/Parser/Total.antt =====
-- The grammar on any tokens: every rule leaves fewer tokens, so that the rounds of its lists are enough.
use fsracer.Prelude.{
  pos, negsuc, codes, text_ord, ℕ, suc, ◌<◌, List, [], ◌∷◌, Text, arith, length, Result, ok, fail,
  Fault, ◌>>=◌,
}
use fsracer.Operation.{
  Operation, EffectType, make_operation, mark_failed, hpath, hpath_sym, new_fd, del_fd, link,
  rename, symlink,
}
use fsracer.Parser.{
  Token, keyword, number, op_id, identifier, error, colon, exclamation, pid, cwd, hpath_word,
  hpathsym_word, new_fd_word, del_fd_word, link_word, rename_word, symlink_word,
}
use fsracer.Parser.Grammar.{
  Parsed, stoi, parse_number, parse_identifier, parse_op_id, parse_dirfd, parse_effect_type,
  more_meta_vars, parse_meta_vars, after_meta_vars, with_meta_vars, add_operation_debug_info,
  finish_new_fd, path_effect, two_paths, parse_oper,
}

-- The faults of the grammar: an error that it adds, or the exception of a number.
abbrev pub IsParseFault : Fault → Type 0
IsParseFault Fault.syntax_error = Unit
IsParseFault Fault.out_of_range = Unit
IsParseFault _ = ⊥

-- Fewer tokens than that many are left.
abbrev pub Below : {A : Type 0} → ℕ → Parsed A → Type 0
Below n (ok (_, ts)) = length ts < n
Below n (fail fault) = IsParseFault fault

abbrev pub Made : {A : Type 0} → Result A → Type 0
Made (ok _) = Unit
Made (fail fault) = IsParseFault fault

pub Below-bind :
    {A B : Type 0} (n m : ℕ) (r : Parsed A) (k : A × List Token → Parsed B)
    → Below n r
    → ((x : A) (ts : List Token) → length ts < n → Below m (k (x, ts)))
    → Below m (r >>= k)
Below-bind n m (ok (x, ts)) k h rest = rest x ts h
Below-bind n m (fail fault) k h rest = h

pub Made-bind :
    {A B : Type 0} (m : ℕ) (r : Result A) (k : A → Parsed B)
    → Made r
    → ((x : A) → Below m (k x))
    → Below m (r >>= k)
Made-bind m (ok x) k h rest = rest x
Made-bind m (fail fault) k h rest = h

pub stoi-Made : (str : Text) → Made (stoi str)
unfolding stoi
stoi-Made str = ground arith

pub parse_number-Below : (ts : List Token) → Below (length ts) (parse_number ts)
unfolding parse_number
parse_number-Below ts = ground arith

parse_effect_type-Below : (ts : List Token) → Below (length ts) (parse_effect_type ts)
unfolding parse_effect_type
parse_effect_type-Below ts = ground arith

parse_identifier-Below : (ts : List Token) → Below (length ts) (parse_identifier ts)
unfolding parse_identifier
parse_identifier-Below ts = ground arith

pub parse_op_id-Below : (ts : List Token) → Below (length ts) (parse_op_id ts)
unfolding parse_op_id
parse_op_id-Below ts = ground arith

parse_dirfd-Below : (ts : List Token) → Below (length ts) (parse_dirfd ts)
unfolding parse_dirfd
parse_dirfd-Below (number str ∷ ts) =
    Made-bind (suc (length ts)) (stoi str) (λ n. ok (n, ts)) (stoi-Made str) (λ n. omega arith)
parse_dirfd-Below ts = ground arith

more_meta_vars-Below : (ts : List Token) → Below (suc (length ts)) (more_meta_vars ts)
unfolding more_meta_vars
more_meta_vars-Below (exclamation ∷ identifier str ∷ ts) =
    Below-bind (suc (length ts)) (suc (suc (suc (length ts)))) (more_meta_vars ts)
      (λ (strs, ts'). ok (str ∷ strs, ts')) (more_meta_vars-Below ts) (λ strs ts' h. omega arith)
more_meta_vars-Below ts = ground arith

pub parse_meta_vars-Below : (ts : List Token) → Below (length ts) (parse_meta_vars ts)
unfolding parse_meta_vars
parse_meta_vars-Below (exclamation ∷ identifier str ∷ ts) =
    Below-bind (suc (length ts)) (suc (suc (length ts))) (more_meta_vars ts)
      (λ (strs, ts'). ok (str ∷ strs, ts')) (more_meta_vars-Below ts) (λ strs ts' h. omega arith)
parse_meta_vars-Below (exclamation ∷ keyword rename_word ∷ ts) =
    Below-bind (suc (length ts)) (suc (suc (length ts))) (more_meta_vars ts)
      (λ (strs, ts'). ok (codes "rename" ∷ strs, ts')) (more_meta_vars-Below ts)
      (λ strs ts' h. omega arith)
parse_meta_vars-Below ts = ground arith

pub loosen : {A : Type 0} (n : ℕ) (r : Parsed A) → Below n r → Below (suc n) r
loosen n (ok (x, ts)) h = omega arith
loosen n (fail fault) h = h

-- A rule behind another leaves no more tokens than it gets.
pub chain :
    {A B : Type 0} (n : ℕ) (r : Parsed A) (k : A × List Token → Parsed B)
    → Below n r
    → ((x : A) (ts : List Token) → Below (suc (length ts)) (k (x, ts)))
    → Below n (r >>= k)
chain n (ok (x, ts)) k h rest = shrink (k (x, ts)) (rest x ts)
  where
    shrink : {B : Type 0} (r : Parsed B) → Below (suc (length ts)) r → Below n r
    shrink (ok (y, ts')) j = omega arith
    shrink (fail fault) j = j
chain n (fail fault) k h rest = h

-- A rule that leaves fewer tokens than it gets, and another behind it.
pub proceed :
    {A B : Type 0} (n : ℕ) (r : Parsed A) (k : A × List Token → Parsed B)
    → Below n r
    → ((x : A) (ts : List Token) → Below (suc (length ts)) (k (x, ts)))
    → Below (suc n) (r >>= k)
proceed n r k h rest = chain (suc n) r k (loosen n r h) rest

after_meta_vars-Below :
    (made : Result Operation) (ts : List Token)
    → Made made
    → Below (suc (length ts)) (after_meta_vars made ts)
after_meta_vars-Below made ts m =
    proceed _ (parse_meta_vars ts) _ (parse_meta_vars-Below ts) (λ meta ts1.
      Made-bind (suc (length ts1)) made (λ op. ok (add_operation_debug_info meta op, ts1)) m
        (λ op. omega arith))

Made-map : {A B : Type 0} (r : Result A) (f : A → B) → Made r → Made (r >>= λ x. ok (f x))
Made-map (ok x) f h = tt
Made-map (fail fault) f h = h

without_fd :
    (dirfd : ℕ) (path : Text) (ts : List Token)
    → Below
        (suc (length ts))
        (with_meta_vars (mark_failed (make_operation (new_fd dirfd path (negsuc 0)))) ts)
without_fd dirfd path ts =
    after_meta_vars-Below (ok (mark_failed (make_operation (new_fd dirfd path (negsuc 0))))) ts tt

finish_new_fd-Below :
    (dirfd : ℕ) (path : Text) (ts : List Token)
    → Below (suc (length ts)) (finish_new_fd dirfd path ts)
unfolding finish_new_fd
finish_new_fd-Below dirfd path (number str ∷ ts) =
    loosen _ (finish_new_fd dirfd path (number str ∷ ts)) (
      after_meta_vars-Below (stoi str >>= λ fd. ok (make_operation (new_fd dirfd path (pos fd)))) ts
        (Made-map (stoi str) (λ fd. make_operation (new_fd dirfd path (pos fd))) (stoi-Made str)))
finish_new_fd-Below dirfd path [] = without_fd dirfd path []
finish_new_fd-Below dirfd path (colon ∷ ts) = without_fd dirfd path (colon ∷ ts)
finish_new_fd-Below dirfd path (exclamation ∷ ts) = without_fd dirfd path (exclamation ∷ ts)
finish_new_fd-Below dirfd path (pid ∷ ts) = without_fd dirfd path (pid ∷ ts)
finish_new_fd-Below dirfd path (cwd ∷ ts) = without_fd dirfd path (cwd ∷ ts)
finish_new_fd-Below dirfd path (keyword x ∷ ts) = without_fd dirfd path (keyword x ∷ ts)
finish_new_fd-Below dirfd path (op_id x ∷ ts) = without_fd dirfd path (op_id x ∷ ts)
finish_new_fd-Below dirfd path (identifier x ∷ ts) = without_fd dirfd path (identifier x ∷ ts)
finish_new_fd-Below dirfd path (error x ∷ ts) = without_fd dirfd path (error x ∷ ts)

path_effect-Below :
    (make : ℕ → Text → EffectType → Operation) (ts : List Token)
    → Below (suc (length ts)) (path_effect make ts)
path_effect-Below make ts = proceed _ (parse_dirfd ts) _ (parse_dirfd-Below ts) (λ dirfd ts1.
    proceed _ (parse_identifier ts1) _ (parse_identifier-Below ts1) (λ path ts2.
      proceed _ (parse_effect_type ts2) _ (parse_effect_type-Below ts2)
        (λ effect ts3. after_meta_vars-Below (ok (make dirfd path effect)) ts3 tt)))

two_paths-Below :
    (make : ℕ → Text → ℕ → Text → Operation) (ts : List Token)
    → Below (suc (length ts)) (two_paths make ts)
two_paths-Below make ts = proceed _ (parse_dirfd ts) _ (parse_dirfd-Below ts) (λ dirfd ts1.
    proceed _ (parse_identifier ts1) _ (parse_identifier-Below ts1) (λ path ts2.
      proceed _ (parse_dirfd ts2) _ (parse_dirfd-Below ts2) (λ dirfd' ts3.
        proceed _ (parse_identifier ts3) _ (parse_identifier-Below ts3)
          (λ path' ts4. after_meta_vars-Below (ok (make dirfd path dirfd' path')) ts4 tt))))

pub parse_oper-Below : (ts : List Token) → Below (length ts) (parse_oper ts)
unfolding parse_oper
parse_oper-Below (keyword hpath_word ∷ ts) =
    path_effect-Below (λ d p e. make_operation (hpath d p e)) ts
parse_oper-Below (keyword hpathsym_word ∷ ts) =
    path_effect-Below (λ d p e. make_operation (hpath_sym d p e)) ts
parse_oper-Below (keyword new_fd_word ∷ ts) =
    proceed _ (parse_dirfd ts) _ (parse_dirfd-Below ts) (λ dirfd ts1.
      proceed _ (parse_identifier ts1) _ (parse_identifier-Below ts1)
        (λ path ts2. finish_new_fd-Below dirfd path ts2))
parse_oper-Below (keyword del_fd_word ∷ ts) =
    proceed _ (parse_number ts) _ (parse_number-Below ts) (λ str ts1.
      after_meta_vars-Below (stoi str >>= λ fd. ok (make_operation (del_fd fd))) ts1
        (Made-map (stoi str) (λ fd. make_operation (del_fd fd)) (stoi-Made str)))
parse_oper-Below (keyword link_word ∷ ts) =
    two_paths-Below (λ d p d' p'. make_operation (link d p d' p')) ts
parse_oper-Below (keyword rename_word ∷ ts) =
    two_paths-Below (λ d p d' p'. make_operation (rename d p d' p')) ts
parse_oper-Below (keyword symlink_word ∷ ts) =
    proceed _ (parse_dirfd ts) _ (parse_dirfd-Below ts) (λ dirfd ts1.
      proceed _ (parse_identifier ts1) _ (parse_identifier-Below ts1) (λ path ts2.
        proceed _ (parse_identifier ts2) _ (parse_identifier-Below ts2) (λ target ts3.
          after_meta_vars-Below (ok (make_operation (symlink dirfd path target))) ts3 tt)))
parse_oper-Below ts = ground arith
