-- ===== src/Code.antt =====
-- code/code.go: the error codes and the table of their texts. `FromError` is in Errors.antt.
pub mod Texts
use jrpc.Base.{
  ◌+◌, Bytes, codes, Option, none, some, List, [], ◌∷◌, ◌++◌, ◌==◌, if◌then◌else◌, Eq-Bytes,
}
use jrpc.Base.Int.{ℤ, pos, negsuc, Eq-ℤ}
use jrpc.Base.Decimal.{format_int}
use jrpc.Base.GoMap.{GoMap, get, put}

-- A `Code`, an int32.
abbrev pub Code : Type 0
Code = ℤ

abbrev pub parse_error : Code
parse_error = negsuc 32699

abbrev pub invalid_request : Code
invalid_request = negsuc 32599

abbrev pub method_not_found : Code
method_not_found = negsuc 32600

abbrev pub invalid_params : Code
invalid_params = negsuc 32601

abbrev pub internal_error : Code
internal_error = negsuc 32602

abbrev pub no_error : Code
no_error = negsuc 32098

abbrev pub system_error : Code
system_error = negsuc 32097

abbrev pub cancelled : Code
cancelled = negsuc 32096

abbrev pub deadline_exceeded : Code
deadline_exceeded = negsuc 32095

-- `stdError`, a table that `Register` extends while the program runs.
abbrev pub Registry : Type 0
Registry = GoMap Code Bytes

abbrev pub std_error : Registry
std_error =
    (parse_error, codes "parse error")
    ∷ (invalid_request, codes "invalid request")
    ∷ (method_not_found, codes "method not found")
    ∷ (invalid_params, codes "invalid parameters")
    ∷ (internal_error, codes "internal error")
    ∷ (no_error, codes "no error (success)")
    ∷ (system_error, codes "system error")
    ∷ (cancelled, codes "request cancelled")
    ∷ (deadline_exceeded, codes "deadline exceeded")
    ∷ []

-- `%d`
unfoldable pub format_code : Code → Bytes
unfolding format_int
format_code (pos n) = format_int n
format_code (negsuc n) = b'-' ∷ format_int (n + 1)

-- `Code.String`
unfoldable pub to_string : Registry → Code → Bytes
unfolding format_code get
to_string r c = elim (get c r) [ some s ↦ s | none ↦ codes "error code " ++ format_code c ]

-- `Register`: the new table with the code, `none` where it panics.
unfoldable pub register : Registry → Code → Bytes → Option (Registry × Code)
unfolding get put
register r c message = elim (get c r) [
  | some s ↦ if s == message then some (put c message r, c) else none
  | none ↦ some (put c message r, c)
]
