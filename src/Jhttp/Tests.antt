-- ===== src/Jhttp/Tests.antt =====
-- Examples of the HTTP bridge.
use jrpc.Base.{
  ℕ, nat_eq, ◌∙◌, ap, arith, ◌||◌, ◌&&◌, false, true, Option, if◌then◌else◌, Eq-Bytes, ◌==◌, ◌≡◌,
  refl, Bytes, codes, none, some, List, [], ◌∷◌, ◌++◌, ◌⊎◌, inr,
}
use jrpc.Client.Requests.{Spec}
use jrpc.Errors.{GoError, RawMessage, err_empty_method}
use jrpc.Message.Parsed.{ParsedRequest}
use jrpc.Base.Int.{ℤ, pos, negsuc}
use jrpc.Jhttp.Getter.{
  Query, Param, Parsers, parse_value, between, init, drop_padding, starts, ends,
}
use jrpc.Jhttp.Getter.Values.{Printer, print, parse_value-print, init-append}
use jrpc.Samples.{json, texts}
use jrpc.Jhttp.Bridge.{Response, serve_internal}
use jrpc.Jhttp.Bridge.Expected.{call_ids, refusals, answers, all_of, replies}
use jrpc.Jhttp.Bridge.Replies.{serve_internal-replies}

abbrev marshal : RawMessage → GoError ⊎ Bytes
marshal none = inr (codes "null")
marshal (some b) = inr b

abbrev fault : GoError
fault = GoError.plain (codes "json")

-- An invalid request, a call and a notification.
abbrev posted : List ParsedRequest
posted =
    record { id = codes "\"a\""; method = []; params = none; err = some err_empty_method }
    ∷ record { id = codes "\"b\""; method = codes "add"; params = some (codes "[1,2]"); err = none }
    ∷ record { id = []; method = codes "log"; params = none; err = none }
    ∷ []

abbrev answered : List Response
answered = record { id = codes "17"; result = some (codes "3"); err = none } ∷ []

abbrev client : List Spec → GoError ⊎ List Response
client specs = inr answered

serve_internal-replies_example :
    serve_internal json marshal fault client (inr posted)
    ≡ some
        (replies (all_of fault (refusals json posted ++ answers json (call_ids posted) answered)))
serve_internal-replies_example =
    serve_internal-replies json marshal fault client posted answered refl refl

-- A printer and its parsers: the first byte tells the kind.
abbrev parse_int : Bytes → Option ℤ
parse_int (a ∷ n ∷ b ∷ []) =
    if nat_eq a 1 then some (pos n) else if nat_eq a 2 then some (negsuc n) else none
parse_int [] = none
parse_int (a ∷ []) = none
parse_int (a ∷ n ∷ []) = none
parse_int (a ∷ n ∷ b ∷ c ∷ s) = none

abbrev parse_float : Bytes → Option ℕ
parse_float (a ∷ n ∷ b ∷ []) = if nat_eq a 3 then some n else none
parse_float [] = none
parse_float (a ∷ []) = none
parse_float (a ∷ n ∷ []) = none
parse_float (a ∷ n ∷ b ∷ c ∷ s) = none

not_number :
    (s : Bytes)
    → (starts 39 s || (s == codes "true") || (s == codes "false") || (s == codes "null")) ≡ true
    → (parse_int s ≡ none) × (parse_float s ≡ none)
not_number [] h = (refl, refl)
not_number (a ∷ []) h = (refl, refl)
not_number (a ∷ n ∷ []) h = (refl, refl)
not_number (a ∷ n ∷ b ∷ []) h = (ground arith, ground arith)
not_number (a ∷ n ∷ b ∷ c ∷ s) h = (refl, refl)

abbrev parsers : Parsers ℕ
parsers = record {
  unquote = λ s. inr (between s);
  parse_int = parse_int;
  parse_float = parse_float;
  decode_base64 = λ s. inr (init s);
}

abbrev print_int : ℤ → Bytes
print_int (pos n) = 1 ∷ n ∷ 1 ∷ []
print_int (negsuc n) = 2 ∷ n ∷ 2 ∷ []

init-padded : (s : Bytes) → init (drop_padding (s ++ b'!' ∷ [])) ≡ s
init-padded s = ap init (kept s) ∙ init-append s b'!'
  where
    filled : (l : Bytes) → ((l ++ b'!' ∷ []) == []) ≡ false
    filled [] = refl
    filled (b ∷ l) = refl

    kept : (l : Bytes) → drop_padding (l ++ b'!' ∷ []) ≡ l ++ b'!' ∷ []
    kept [] = refl
    kept (b ∷ l) =
        ap (λ r. if nat_eq b b'=' && (r == []) then [] else b ∷ r) (kept l)
        ∙ ground (arith, filled l)

parse-print_int : (z : ℤ) → parse_int (print_int z) ≡ some z
parse-print_int (pos n) = refl
parse-print_int (negsuc n) = refl

print_int-bare : (z : ℤ) → (starts b'"' (print_int z) || ends b'"' (print_int z)) ≡ false
print_int-bare (pos n) = refl
print_int-bare (negsuc n) = refl

abbrev printer : Printer parsers
printer = record {
  is_text = λ s. true;
  is_number = λ v. true;
  quoted = λ s. s;
  base64 = λ d. d ++ b'!' ∷ [];
  int = print_int;
  decimal = λ n. 3 ∷ n ∷ 3 ∷ [];
  unquote-quoted = λ s h. ap inr (init-append s b'"');
  decode-base64 = λ d. ap inr (init-padded d);
  parse-int = λ z h. parse-print_int z;
  parse-decimal = λ v h. (refl, refl);
  int-bare = print_int-bare;
  decimal-bare = λ v. refl;
  not_number = not_number;
}

parse_value-print_example :
    parse_value parsers texts
      (λ s. s)
      (codes "k")
      (print parsers printer (Param.bytes (codes "hi")))
    ≡ inr (Param.bytes (codes "hi"))
parse_value-print_example =
    parse_value-print parsers printer texts (λ s. s) (codes "k") (Param.bytes (codes "hi")) tt

abbrev query : Query
query = record { path = codes "/some/method/"; form = (codes "p", codes "x" ∷ codes "y" ∷ []) ∷ [] }
