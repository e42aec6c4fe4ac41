-- ===== src/Parser/Grammar.antt =====
-- tools/fsracer/TraceParser.y: the grammar with its actions, by recursive descent. Each list of the grammar goes on
-- as long as its next token allows. The fuel is one round for each token.
use fsracer.Prelude.{
  ℕ, ◌^◌, List, [], ◌∷◌, Text, codes, text_ord, ltb, same, if◌then◌else◌, pos, negsuc, Result, ok,
  fail, syntax_error, out_of_range, ◌>>=◌,
}
use fsracer.Utils.Decimal.{value_from}
use fsracer.Operation.{
  Operation, EffectType, consumed, produced, expunged, make_operation, mark_failed,
  set_actual_op_name, at_fdcwd, hpath, hpath_sym, new_fd, del_fd, link, rename, symlink,
}
use fsracer.Trace.{DebugInfo}
use fsracer.Parser.{
  hpath_word, hpathsym_word, new_fd_word, del_fd_word, rename_word, symlink_word, atfdcwd_word,
  link_word, produced_word, consumed_word, expunged_word, Token, exclamation, keyword, number,
  op_id, identifier,
}

-- What is read, and the tokens behind it.
abbrev pub Parsed : Type 0 → Type 0
Parsed A = Result (A × List Token)

-- `std::stoi` of digits: an `int` has 31 bits for them.
unfoldable pub stoi : Text → Result ℕ
unfolding value_from
stoi str = if ltb (value_from 0 str) (2 ^ 31) then ok (value_from 0 str) else fail out_of_range

unfoldable pub parse_number : List Token → Parsed Text
parse_number (number str ∷ ts) = ok (str, ts)
parse_number _ = fail syntax_error

unfoldable pub parse_identifier : List Token → Parsed Text
parse_identifier (identifier str ∷ ts) = ok (str, ts)
parse_identifier _ = fail syntax_error

unfoldable pub parse_op_id : List Token → Parsed Text
parse_op_id (op_id str ∷ ts) = ok (str, ts)
parse_op_id _ = fail syntax_error

unfoldable pub parse_dirfd : List Token → Parsed ℕ
unfolding stoi
parse_dirfd (keyword atfdcwd_word ∷ ts) = ok (at_fdcwd, ts)
parse_dirfd (number str ∷ ts) = stoi str >>= λ n. ok (n, ts)
parse_dirfd _ = fail syntax_error

unfoldable pub parse_effect_type : List Token → Parsed EffectType
parse_effect_type (keyword consumed_word ∷ ts) = ok (consumed, ts)
parse_effect_type (keyword produced_word ∷ ts) = ok (produced, ts)
parse_effect_type (keyword expunged_word ∷ ts) = ok (expunged, ts)
parse_effect_type _ = fail syntax_error

-- The rest of `meta_vars`.
unfoldable pub more_meta_vars : List Token → Parsed DebugInfo
more_meta_vars (exclamation ∷ identifier str ∷ ts) =
    let rest = more_meta_vars ts in rest >>= λ (strs, ts'). ok (str ∷ strs, ts')
more_meta_vars (exclamation ∷ _) = fail syntax_error
more_meta_vars ts = ok ([], ts)

-- The first of them may be the keyword of `rename`.
unfoldable pub parse_meta_vars : List Token → Parsed DebugInfo
unfolding more_meta_vars
parse_meta_vars (exclamation ∷ identifier str ∷ ts) =
    more_meta_vars ts >>= λ (strs, ts'). ok (str ∷ strs, ts')
parse_meta_vars (exclamation ∷ keyword rename_word ∷ ts) =
    more_meta_vars ts >>= λ (strs, ts'). ok (codes "rename" ∷ strs, ts')
parse_meta_vars _ = fail syntax_error

-- The `meta_vars` that a `newEvent` may have.
unfoldable pub parse_optional_meta_vars : List Token → Parsed DebugInfo
unfolding parse_meta_vars
parse_optional_meta_vars (exclamation ∷ ts) = parse_meta_vars (exclamation ∷ ts)
parse_optional_meta_vars ts = ok ([], ts)

-- `AddOperationDebugInfo` of tools/fsracer/TraceGeneratorDriver.cpp.
unfoldable pub add_operation_debug_info : DebugInfo → Operation → Operation
add_operation_debug_info [] op = op
add_operation_debug_info (entry ∷ entries) op =
    add_operation_debug_info entries
      (if same entry (codes "failed") then mark_failed op else set_actual_op_name entry op)

-- The rule of an operation makes it behind the last of its marks.
abbrev pub after_meta_vars : Result Operation → List Token → Parsed Operation
after_meta_vars made ts = do
  (meta, ts1) ← parse_meta_vars ts
  op ← made
  ok (add_operation_debug_info meta op, ts1)

abbrev pub with_meta_vars : Operation → List Token → Parsed Operation
with_meta_vars op ts = after_meta_vars (ok op) ts

-- The descriptor of a `newFd`, which fails without one.
unfoldable pub finish_new_fd : ℕ → Text → List Token → Parsed Operation
unfolding stoi parse_meta_vars add_operation_debug_info
finish_new_fd dirfd path (number str ∷ ts) =
    after_meta_vars (stoi str >>= λ fd. ok (make_operation (new_fd dirfd path (pos fd)))) ts
finish_new_fd dirfd path ts =
    with_meta_vars (mark_failed (make_operation (new_fd dirfd path (negsuc 0)))) ts

abbrev pub two_paths : (ℕ → Text → ℕ → Text → Operation) → List Token → Parsed Operation
two_paths make ts = do
  (old_dirfd, ts1) ← parse_dirfd ts
  (old_path, ts2) ← parse_identifier ts1
  (new_dirfd, ts3) ← parse_dirfd ts2
  (new_path, ts4) ← parse_identifier ts3
  with_meta_vars (make old_dirfd old_path new_dirfd new_path) ts4

abbrev pub path_effect : (ℕ → Text → EffectType → Operation) → List Token → Parsed Operation
path_effect make ts = do
  (dirfd, ts1) ← parse_dirfd ts
  (path, ts2) ← parse_identifier ts1
  (effect, ts3) ← parse_effect_type ts2
  with_meta_vars (make dirfd path effect) ts3

unfoldable pub parse_oper : List Token → Parsed Operation
unfolding parse_dirfd parse_identifier parse_effect_type parse_number stoi finish_new_fd
    parse_meta_vars add_operation_debug_info
parse_oper (keyword hpath_word ∷ ts) =
    path_effect (λ dirfd path effect. make_operation (hpath dirfd path effect)) ts
parse_oper (keyword hpathsym_word ∷ ts) =
    path_effect (λ dirfd path effect. make_operation (hpath_sym dirfd path effect)) ts
parse_oper (keyword new_fd_word ∷ ts) = do
  (dirfd, ts1) ← parse_dirfd ts
  (path, ts2) ← parse_identifier ts1
  finish_new_fd dirfd path ts2
parse_oper (keyword del_fd_word ∷ ts) = do
  (str, ts1) ← parse_number ts
  after_meta_vars (stoi str >>= λ fd. ok (make_operation (del_fd fd))) ts1
parse_oper (keyword link_word ∷ ts) =
    two_paths
      (λ old_dirfd old_path new_dirfd new_path.
        make_operation (link old_dirfd old_path new_dirfd new_path))
      ts
parse_oper (keyword rename_word ∷ ts) =
    two_paths
      (λ old_dirfd old_path new_dirfd new_path.
        make_operation (rename old_dirfd old_path new_dirfd new_path))
      ts
parse_oper (keyword symlink_word ∷ ts) = do
  (dirfd, ts1) ← parse_dirfd ts
  (path, ts2) ← parse_identifier ts1
  (target, ts3) ← parse_identifier ts2
  with_meta_vars (make_operation (symlink dirfd path target)) ts3
parse_oper _ = fail syntax_error
