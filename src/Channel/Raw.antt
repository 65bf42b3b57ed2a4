-- ===== src/Channel/Raw.antt =====
-- channel/json.go: `Send` and `Recv` of `RawJSON`. The decoder of encoding/json is an argument: the
-- value at the front of a text and the text behind it, or an error.
use jrpc.Base.{
  Bytes, codes, none, some, [], ◌∷◌, ◌++◌, ◌==◌, ◌||◌, if◌then◌else◌, Eq-Bytes, ◌≡◌, ◌⊎◌, inl, inr,
  arith, Bool-cases,
}
use jrpc.Errors.{GoError, RawMessage}
use jrpc.Message.{is_null}

-- `jsonc.Send`: what is written.
unfoldable pub send : Bytes → Bytes
unfolding is_null
send msg = if msg == [] || is_null (some msg) then codes "null\n" else msg

-- `jsonc.Recv`: the record, nil for `null`, and the text that is left.
unfoldable pub recv : (Bytes → GoError ⊎ (Bytes × Bytes)) → Bytes → GoError ⊎ (RawMessage × Bytes)
unfolding is_null
recv decode text = elim (decode text) [
  | inl e ↦ inl e
  | inr (value, rest) ↦ if is_null (some value) then inr (none, rest) else inr (some value, rest)
]

-- What a record is received as: none for an empty one and for `null`.
abbrev pub received : Bytes → RawMessage
unfolding is_null
received msg = if msg == [] || is_null (some msg) then none else some msg

-- What is sent is received, where the decoder takes the record off the front of the text as one value,
-- and takes `null` off in front of a line's end.
pub recv-send :
    (decode : Bytes → GoError ⊎ (Bytes × Bytes)) (msg rest : Bytes)
    → decode (send msg ++ rest)
      ≡ inr (if msg == [] || is_null (some msg) then (codes "null", 10 ∷ rest) else (msg, rest))
    → recv decode (send msg ++ rest)
      ≡ inr (received msg, if msg == [] || is_null (some msg) then 10 ∷ rest else rest)
unfolding recv received is_null
recv-send decode msg rest h = elim (Bool-cases (msg == [] || is_null (some msg))) [
  | inl k ↦ ground arith
  | inr k ↦ ground arith
]
