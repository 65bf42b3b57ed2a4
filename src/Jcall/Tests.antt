-- ===== src/Jcall/Tests.antt =====
-- Two calls of the command.
use jrpc.Base.{
  ℕ, suc, refl, sym, ap, Bytes, codes, Option, none, some, true, false, List, [], ◌∷◌, ◌⊎◌, inl,
  inr,
}
use jrpc.Base.Int.{negsuc}
use jrpc.Client.Calls.{unmarshal_result}
use jrpc.Client.Requests.{Spec}
use jrpc.Errors.{Error, GoError}
use jrpc.Jcall.{Flags, Printed, issue_sequential, format_json}
use jrpc.Jcall.Specs.{Issued, issue_sequential-Issued}
use jrpc.Response.{Response}

abbrev flags : Flags
flags = record {
  multi = false;
  notify = false;
  batch = false;
  errors = false;
  indent = false;
  framing = codes "line";
}

abbrev marshal : Bytes → GoError ⊎ Bytes
marshal s = inr s

abbrev args : List Bytes
args = codes "add" ∷ codes "[1]" ∷ codes "sub" ∷ [] ∷ []

abbrev reply : Bytes → Response
reply bits = record {
  id = codes "1";
  err = none;
  result = some bits;
  channel = none;
  closed = true;
  cancelled = 1;
}

abbrev refused : Response
refused = record (reply []) {
  err = some (record { code = negsuc 32600; message = codes "no such method"; payload = none });
  result = none;
}

abbrev same : Bytes → Bytes
same s = s

abbrev no_text : Error → Bytes
no_text e = []

-- A client that counts its calls and gives their parameters back.
abbrev echo : Spec → ℕ → (GoError ⊎ Response) × ℕ
echo spec n = (inr (reply spec.method), suc n)

abbrev tell : Spec → ℕ → Option GoError × ℕ
tell spec n = (none, suc n)

abbrev error_of : GoError ⊎ Response → Option Error
error_of (inl e) = none
error_of (inr rsp) = rsp.err

abbrev specs : List Spec
specs =
    record { method = codes "add"; params = none; notify = false }
    ∷ record { method = codes "log"; params = none; notify = true }
    ∷ []

issue_sequential-Issued_example :
    Issued same no_text echo tell flags specs 0 (Printed.stdout (codes "add") ∷ []) 2
unfolding issue_sequential unmarshal_result format_json
issue_sequential-Issued_example =
    issue_sequential-Issued same no_text echo tell flags specs 0 2
      (Printed.stdout (codes "add") ∷ []) (λ spec t t' rsp e. ap (λ x. error_of x.0) (sym e)) refl
