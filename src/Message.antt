-- ===== src/Message.antt =====
-- json.go: protocol messages, and how one is read from the fields of a JSON object.
mod Tests
pub mod Fields
pub mod Parsed
pub mod Read
pub mod Bodies
pub mod RoundTrip
pub mod Write
use jrpc.Base.{
  ℕ, zero, suc, Bytes, codes, Option, none, some, Bool, true, false, not, ◌&&◌, ◌||◌, List, [], ◌∷◌,
  ◌++◌, map, ◌==◌, if◌then◌else◌, leb, nat_eq, is_some, is_none, length, Eq-Bytes, Eq-ℕ,
}
use jrpc.Code.{Code, parse_error, invalid_request}
use jrpc.Errors.{RawMessage, bytes_of, Error, error, with_data}

-- What the program uses of encoding/json. `Unmarshal` into a `RawMessage` gives the value without
-- the space round it; an array, its elements; an object, its keys, each once, with their values;
-- `null` gives no elements and no keys. `decode_error` is `Unmarshal` into an `*Error`: whether it
-- succeeds, and what the pointer is then.
pub record Json : Type 0 where
  pub decode_raw : Bytes → Option Bytes
  pub decode_array : Bytes → Option (List Bytes)
  pub decode_object : Bytes → Option (List (Bytes × Bytes))
  pub decode_string : Bytes → Option Bytes
  pub decode_error : Bytes → Bool × Option Error
  pub encode_string : Bytes → Bytes
  pub encode_strings : List Bytes → Bytes
  pub encode_error : Error → Option Bytes

-- `jmessage`
pub record Jmessage : Type 0 where
  pub v : Bytes
  pub id : RawMessage
  pub m : Bytes
  pub p : RawMessage
  pub e : Option Error
  pub r : RawMessage
  pub batch : Bool
  pub err : Option Error

abbrev pub empty_message : Jmessage
empty_message = record {
  v = [];
  id = none;
  m = [];
  p = none;
  e = none;
  r = none;
  batch = false;
  err = none;
}

-- `Version`
abbrev pub version : Bytes
version = codes "2.0"

-- `isNull`
unfoldable pub is_null : RawMessage → Bool
is_null none = false
is_null (some b) = b == codes "null"

-- `fixID`
unfoldable pub fix_id : RawMessage → RawMessage
unfolding is_null
fix_id id = if is_null id then none else id

-- The bytes of the white space at the front of a text, 0 if it starts with another character:
-- `unicode.IsSpace` on UTF-8.
unfoldable pub space_width : Bytes → ℕ
space_width [] = 0
space_width (a ∷ []) = if (leb 9 a && leb a 13) || nat_eq a 32 then 1 else 0
space_width (a ∷ b ∷ []) =
    if (leb 9 a && leb a 13) || nat_eq a 32
    then 1
    else if nat_eq a 0xc2 && (nat_eq b 0x85 || nat_eq b 0xa0)
    then 2
    else 0
space_width (a ∷ b ∷ c ∷ s) =
    if (leb 9 a && leb a 13) || nat_eq a 32
    then 1
    else if nat_eq a 0xc2 && (nat_eq b 0x85 || nat_eq b 0xa0)
    then 2
    else if (nat_eq a 0xe1 && nat_eq b 0x9a && nat_eq c 0x80)
        || (nat_eq a 0xe2
            && nat_eq b 0x80
            && ((leb 0x80 c && leb c 0x8a) || nat_eq c 0xa8 || nat_eq c 0xa9 || nat_eq c 0xaf))
        || (nat_eq a 0xe2 && nat_eq b 0x81 && nat_eq c 0x9f)
        || (nat_eq a 0xe3 && nat_eq b 0x80 && nat_eq c 0x80)
    then 3
    else 0

-- `bytes.TrimSpace` at the front, where the first number of bytes is known to be space.
unfoldable pub trim_left : ℕ → Bytes → Bytes
unfolding space_width
trim_left n [] = []
trim_left (suc n) (c ∷ s) = trim_left n s
trim_left zero (c ∷ s) = elim (space_width (c ∷ s)) [ zero ↦ c ∷ s | suc n ↦ trim_left n s ]

-- `firstByte`
unfoldable pub first_byte : Bytes → ℕ
unfolding trim_left
first_byte b = elim (trim_left 0 b) [ [] ↦ 0 | c ∷ s ↦ c ]

-- `isValidID`
unfoldable pub is_valid_id : RawMessage → Bool
unfolding is_null
is_valid_id none = true
is_valid_id (some []) = true
is_valid_id (some (c ∷ s)) =
    is_null (some (c ∷ s)) || nat_eq c b'"' || nat_eq c b'-' || (leb b'0' c && leb c b'9')

-- `isValidVersion`
unfoldable pub is_valid_version : Bytes → Bool
is_valid_version v = v == version

-- `jmessage.fail`: the first failure is kept.
unfoldable pub fail : Code → Bytes → Jmessage → Jmessage
fail c text j = elim j.err [ none ↦ record j { err = some (error c text) } | some e ↦ j ]

-- `jmessage.isRequestOrNotification`
unfoldable pub is_request_or_notification : Jmessage → Bool
is_request_or_notification j = not (j.m == []) && is_none j.e && is_none j.r

-- `jmessage.isNotification`
unfoldable pub is_notification : Jmessage → Bool
unfolding fix_id is_request_or_notification
is_notification j = is_request_or_notification j && is_none (fix_id j.id)
