-- ===== src/Prelude/Outcome.antt =====
-- The ways in which a call of the program ends without a value.

-- `assertion`: a failed `assert`. `bad_optional_access`: `value()` of an empty `optional`.
-- `missing_return`: the end of a function that returns a value, which has no defined behaviour.
-- `out_of_range`: an index past the end of a vector. `null_pointer`: a member call on a null pointer, or
-- on an object of another class. `wrong_cast`: a `void *` that is read at another type than that of its
-- object. `dangling`: a pointer to a block or an execution that the trace no longer has. `null_string`: a
-- string of a null `char *`. `empty_stack`: the top of an empty stack. `syntax_error`: a token that the
-- grammar of traces does not allow. `out_of_fuel`: the call has not ended yet.
pub data Fault : Type 0 where
  assertion bad_optional_access missing_return out_of_range null_pointer out_of_fuel : Fault
  wrong_cast dangling null_string empty_stack syntax_error : Fault

-- What a call ends in.
pub data Result {ℓ} (A : Type ℓ) : Type ℓ where
  fail : Fault → Result A
  ok : A → Result A

-- The rest of a function is skipped once a call in it has failed.
infixl 5 ◌>>=◌
abbrev pub ◌>>=◌ {ℓ κ} :
    {Value : Type ℓ} {Next : Type κ} → Result Value → (Value → Result Next) → Result Next
fail fault >>= rest = fail fault
ok value >>= rest = rest value
