-- ===== src/Operation.antt =====
-- lib/Operation.h and lib/Operation.cpp: the file system operations of a trace. The subclasses of
-- `Operation` are the constructors of `Action`.
use fsracer.Prelude.{
  ℕ, Bool, true, false, [], ◌++◌, Text, codes, ◌==◌, if◌then◌else◌, ℤ, same, text_ord,
}
use fsracer.Utils.{to_string, int_to_string}

pub data EffectType : Type 0 where
  produced consumed expunged : EffectType

pub data CloneMode : Type 0 where
  share_fs share_fd share_both share_none : CloneMode

pub data Action : Type 0 where
  del_fd : ℕ → Action
  dup_fd : ℕ → ℕ → Action
  hpath hpath_sym : ℕ → Text → EffectType → Action
  link rename : ℕ → Text → ℕ → Text → Action
  new_fd : ℕ → Text → ℤ → Action
  new_proc : CloneMode → ℕ → Action
  set_cwd : Text → Action
  symlink : ℕ → Text → Text → Action
  nop : Action

pub record Operation : Type 0 where
  pub failed : Bool
  pub actual_op_name : Text
  pub action : Action

-- The constructors of the subclasses. A `DupFd` and a `NewProc` get their second number later.
abbrev pub make_operation : Action → Operation
make_operation a = record { failed = false; actual_op_name = []; action = a }

abbrev pub mark_failed : Operation → Operation
mark_failed op = record op { failed = true }

abbrev pub set_actual_op_name : Text → Operation → Operation
set_actual_op_name name op = record op { actual_op_name = name }

unfoldable pub set_new_fd : ℕ → Operation → Operation
set_new_fd fd op = record op { action = with_new_fd op.action }
  where
    with_new_fd : Action → Action
    with_new_fd (dup_fd old _) = dup_fd old fd
    with_new_fd a = a

abbrev pub at_fdcwd : ℕ
at_fdcwd = 0

unfoldable pub dirfd_to_string : ℕ → Text
dirfd_to_string dirfd = if dirfd == at_fdcwd then codes "AT_FDCWD" else to_string dirfd

unfoldable pub eff_to_string : EffectType → Text
eff_to_string consumed = codes "consumed"
eff_to_string produced = codes "produced"
eff_to_string expunged = codes "expunged"

unfoldable pub consumes : EffectType → Bool
consumes consumed = true
consumes _ = false

unfoldable pub get_op_name : Action → Text
get_op_name (del_fd _) = codes "delFd"
get_op_name (dup_fd _ _) = codes "dupFd"
get_op_name (hpath _ _ _) = codes "hpath"
get_op_name (hpath_sym _ _ _) = codes "hpathsym"
get_op_name (link _ _ _ _) = codes "link"
get_op_name (rename _ _ _ _) = codes "rename"
get_op_name (new_fd _ _ _) = codes "newFd"
get_op_name (new_proc _ _) = codes "newProc"
get_op_name (set_cwd _) = codes "setCwd"
get_op_name (symlink _ _ _) = codes "symlink"
get_op_name nop = codes "nop"

infixr 64 ◌⊹◌
-- `a + " " + b`.
abbrev pub ◌⊹◌ : Text → Text → Text
a ⊹ b = a ++ codes " " ++ b

unfoldable pub clone_mode_to_string : CloneMode → ℕ → Text
clone_mode_to_string share_fd pid = codes "FD" ⊹ to_string pid
clone_mode_to_string share_fs pid = codes "FS" ⊹ to_string pid
clone_mode_to_string share_both pid = codes "FS|FD" ⊹ to_string pid
clone_mode_to_string share_none pid = to_string pid

-- The words between the name of the construct and its marks.
unfoldable pub arguments : Bool → Action → Text
unfolding dirfd_to_string eff_to_string clone_mode_to_string
arguments failed (del_fd fd) = to_string fd
arguments failed (dup_fd old new) = to_string old ⊹ to_string new
arguments failed (hpath dirfd path eff) = dirfd_to_string dirfd ⊹ path ⊹ eff_to_string eff
arguments failed (hpath_sym dirfd path eff) = dirfd_to_string dirfd ⊹ path ⊹ eff_to_string eff
arguments failed (link old_dirfd old_path new_dirfd new_path) =
    dirfd_to_string old_dirfd ⊹ old_path ⊹ dirfd_to_string new_dirfd ⊹ new_path
arguments failed (rename old_dirfd old_path new_dirfd new_path) =
    dirfd_to_string old_dirfd ⊹ old_path ⊹ dirfd_to_string new_dirfd ⊹ new_path
arguments failed (new_fd dirfd path fd) =
    if failed then dirfd_to_string dirfd ⊹ path else dirfd_to_string dirfd ⊹ path ⊹ int_to_string fd
arguments failed (new_proc mode pid) = clone_mode_to_string mode pid
arguments failed (set_cwd cwd) = cwd
arguments failed (symlink dirfd path target) = dirfd_to_string dirfd ⊹ path ⊹ target
arguments failed nop = []

-- The macros `ACTUAL_NAME` and `FAILED`.
abbrev pub marks : Operation → Text
marks op =
    (if same op.actual_op_name [] then [] else codes " !" ++ op.actual_op_name)
    ++ (if op.failed then codes " !failed" else [])

-- A `Nop` prints its name alone.
unfoldable pub operation_to_string : Operation → Text
unfolding get_op_name arguments
operation_to_string op = print op.action
  where
    print : Action → Text
    print nop = get_op_name nop
    print a = (get_op_name a ⊹ arguments op.failed a) ++ marks op
