-- ===== src/Parser/Actions.antt =====
-- The grammar on the tokens of an operation.
use fsracer.Prelude.{
  ℕ, zero, suc, ◌≡◌, refl, ◌∙◌, Bool, true, false, List, [], ◌∷◌, ◌++◌, Text, codes, text_ord, same,
  if◌then◌else◌, pos, negsuc, ok,
}
use fsracer.Operation.{
  Operation, Action, EffectType, consumed, produced, expunged, del_fd, dup_fd, hpath, hpath_sym,
  link, rename, new_fd, new_proc, set_cwd, symlink, nop, make_operation,
}
use fsracer.Trace.{DebugInfo}
use fsracer.Utils.{to_string}
use fsracer.Parser.Pieces.{IsPrintable}
use fsracer.Parser.{Token, identifier, keyword, number, consumed_word, produced_word, expunged_word}
use fsracer.Parser.Grammar.{
  parse_oper, path_effect, two_paths, parse_effect_type, parse_identifier, finish_new_fd,
  parse_number, add_operation_debug_info, with_meta_vars,
}
use fsracer.Parser.Words.{dirfd_token}
use fsracer.Parser.Lines.{effect_word}
use fsracer.Parser.Marks.{
  stoi-to_string, IsInt, NotMark, marks_of, parse_dirfd-token, parse_meta_vars-marks,
}
use fsracer.Parser.Operations.{IsPrintableOp, op_tokens}

abbrev op_of : Bool → Text → Action → Operation
op_of failed name a = record { failed = failed; actual_op_name = name; action = a }

abbrev flags : Bool → DebugInfo
flags failed = if failed then codes "failed" ∷ [] else []

-- The marks of an operation that has failed.
with_flag :
    (started : Bool) (name : Text) (a : Action) (ts : List Token)
    → same name (codes "failed") ≡ false
    → NotMark ts
    → with_meta_vars (op_of started [] a) (marks_of (name ∷ flags true) ++ ts)
      ≡ ok (op_of true name a, ts)
unfolding add_operation_debug_info
with_flag started name a ts e h =
    rw (parse_meta_vars-marks name (flags true) ts (refl, tt) h, e) refl

with_marks :
    (failed : Bool) (name : Text) (a : Action) (ts : List Token)
    → same name (codes "failed") ≡ false
    → NotMark ts
    → with_meta_vars (make_operation a) (marks_of (name ∷ flags failed) ++ ts)
      ≡ ok (op_of failed name a, ts)
unfolding add_operation_debug_info
with_marks true name a ts e h = with_flag false name a ts e h
with_marks false name a ts e h = rw (parse_meta_vars-marks name [] ts tt h, e) refl

path_effect-tokens :
    (make : ℕ → Text → EffectType → Operation) (dirfd : ℕ) (path : Text) (e : EffectType)
    (ts : List Token)
    → IsInt dirfd
    → path_effect make (dirfd_token dirfd ∷ identifier path ∷ keyword (effect_word e) ∷ ts)
      ≡ with_meta_vars (make dirfd path e) ts
unfolding parse_identifier parse_effect_type
path_effect-tokens make dirfd path consumed ts n =
    rw (parse_dirfd-token dirfd (identifier path ∷ keyword consumed_word ∷ ts) n) refl
path_effect-tokens make dirfd path produced ts n =
    rw (parse_dirfd-token dirfd (identifier path ∷ keyword produced_word ∷ ts) n) refl
path_effect-tokens make dirfd path expunged ts n =
    rw (parse_dirfd-token dirfd (identifier path ∷ keyword expunged_word ∷ ts) n) refl

two_paths-tokens :
    (make : ℕ → Text → ℕ → Text → Operation) (dirfd : ℕ) (path : Text) (dirfd' : ℕ) (path' : Text)
    (ts : List Token)
    → IsInt dirfd
    → IsInt dirfd'
    → two_paths make
        (dirfd_token dirfd ∷ identifier path ∷ dirfd_token dirfd' ∷ identifier path' ∷ ts)
      ≡ with_meta_vars (make dirfd path dirfd' path') ts
unfolding parse_identifier
two_paths-tokens make dirfd path dirfd' path' ts n m =
    rw
      (
        parse_dirfd-token dirfd (identifier path ∷ dirfd_token dirfd' ∷ identifier path' ∷ ts) n,
        parse_dirfd-token dirfd' (identifier path' ∷ ts) m,
      )
      refl

parse_oper-op_of :
    (failed : Bool) (name : Text) (a : Action) (ts : List Token)
    → IsPrintable failed a
    → same name (codes "failed") ≡ false
    → NotMark ts
    → parse_oper (op_tokens (op_of failed name a) ts) ≡ ok (op_of failed name a, ts)
unfolding parse_oper parse_identifier finish_new_fd parse_number
parse_oper-op_of failed name (hpath dirfd path effect) ts (n, h) e k =
    path_effect-tokens (λ d p x. make_operation (hpath d p x)) dirfd path effect
      (marks_of (name ∷ flags failed) ++ ts) n
    ∙ with_marks failed name (hpath dirfd path effect) ts e k
parse_oper-op_of failed name (hpath_sym dirfd path effect) ts (n, h) e k =
    path_effect-tokens (λ d p x. make_operation (hpath_sym d p x)) dirfd path effect
      (marks_of (name ∷ flags failed) ++ ts) n
    ∙ with_marks failed name (hpath_sym dirfd path effect) ts e k
parse_oper-op_of true name (new_fd dirfd path (pos _)) ts (n, (h, minus)) e k = absurd (cc minus)
parse_oper-op_of true name (new_fd dirfd path (negsuc (suc _))) ts (n, (h, minus)) e k =
    absurd (cc minus)
parse_oper-op_of true name (new_fd dirfd path (negsuc zero)) ts (n, (h, minus)) e k =
    rw (parse_dirfd-token dirfd (identifier path ∷ (marks_of (name ∷ flags true) ++ ts)) n)
      (with_flag true name (new_fd dirfd path (negsuc 0)) ts e k)
parse_oper-op_of false name (new_fd dirfd path (pos fd)) ts (n, (h, m)) e k =
    rw
      (
        parse_dirfd-token dirfd
            (identifier path ∷ number (to_string fd) ∷ (marks_of (name ∷ []) ++ ts)) n,
        stoi-to_string fd m,
      )
      (with_marks false name (new_fd dirfd path (pos fd)) ts e k)
parse_oper-op_of false name (new_fd dirfd path (negsuc _)) ts h e k = absurd h
parse_oper-op_of failed name (del_fd fd) ts n e k =
    rw (stoi-to_string fd n) (with_marks failed name (del_fd fd) ts e k)
parse_oper-op_of failed name (link dirfd path dirfd' path') ts (n, (h, (m, h'))) e k =
    two_paths-tokens (λ d p d' p'. make_operation (link d p d' p')) dirfd path dirfd' path'
      (marks_of (name ∷ flags failed) ++ ts) n m
    ∙ with_marks failed name (link dirfd path dirfd' path') ts e k
parse_oper-op_of failed name (rename dirfd path dirfd' path') ts (n, (h, (m, h'))) e k =
    two_paths-tokens (λ d p d' p'. make_operation (rename d p d' p')) dirfd path dirfd' path'
      (marks_of (name ∷ flags failed) ++ ts) n m
    ∙ with_marks failed name (rename dirfd path dirfd' path') ts e k
parse_oper-op_of failed name (symlink dirfd path target) ts (n, h) e k =
    rw
      (parse_dirfd-token dirfd
        (identifier path ∷ identifier target ∷ (marks_of (name ∷ flags failed) ++ ts)) n)
      (with_marks failed name (symlink dirfd path target) ts e k)
parse_oper-op_of failed name (dup_fd _ _) ts h e k = absurd h
parse_oper-op_of failed name (new_proc _ _) ts h e k = absurd h
parse_oper-op_of failed name (set_cwd _) ts h e k = absurd h
parse_oper-op_of failed name nop ts h e k = absurd h

-- The parser reads an operation from its tokens.
pub parse_oper-op_tokens :
    (op : Operation) (ts : List Token)
    → IsPrintableOp op
    → NotMark ts
    → parse_oper (op_tokens op ts) ≡ ok (op, ts)
parse_oper-op_tokens op ts h k =
    parse_oper-op_of op.failed op.actual_op_name op.action ts h.action h.is_no_flag k
