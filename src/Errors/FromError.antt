-- ===== src/Errors/FromError.antt =====
-- The code that `FromError` gives an error.
use jrpc.Base.{
  Bytes, List, [], ◌∷◌, Option, none, some, ◌≡◌, refl, arith, ==_iff, ◌==◌, Bool-cases, inl, inr,
  sym,
}
use jrpc.Base.Int.{Eq-ℤ}
use jrpc.Code.{Code, no_error, cancelled, deadline_exceeded}
use jrpc.Errors.{GoError, Error, err, from_error, filter_error}

-- An error behind any number of `%w` wraps, the outermost text first.
abbrev pub wrap_all : List Bytes → GoError → GoError
wrap_all [] e = e
wrap_all (m ∷ ms) e = GoError.wrapped m (wrap_all ms e)

abbrev pub wrap_opt : List Bytes → Option GoError → Option GoError
wrap_opt ms none = none
wrap_opt ms (some e) = some (wrap_all ms e)

from_error-wrap :
    (ms : List Bytes) (e : GoError) → from_error (some (wrap_all ms e)) ≡ from_error (some e)
unfolding from_error
from_error-wrap [] e = refl
from_error-wrap (m ∷ ms) e = from_error-wrap ms e

-- Every code is recovered from the error that `Err` makes of it, `NoError` from nil included, and
-- also when the error has been wrapped any number of times.
pub from_error-err : (c : Code) (ms : List Bytes) → from_error (wrap_opt ms (err c)) ≡ c
unfolding err from_error
from_error-err c ms = elim (Bool-cases (c == no_error)) [
  | inl e ↦ rw e (sym ((==_iff c no_error).0 e))
  | inr e ↦ rw (e, from_error-wrap ms (GoError.coded c))
]

-- What a caller gets for an error response, a context error for two codes and the `*Error` itself
-- for the others, still has the response's code.
pub from_error-filter_error : (e : Error) → from_error (some (filter_error e)) ≡ e.code
unfolding from_error filter_error
from_error-filter_error e = ground (arith, ==_iff e.code cancelled, ==_iff e.code deadline_exceeded)
