-- ===== src/Channel/Header.antt =====
-- channel/hdr.go: messages behind a header that gives their length. A buffer is told by its length;
-- that the message which `Recv` returns is a part of the buffer is not modelled.
pub mod RoundTrip
pub mod Total
pub mod Values
mod Tests
use jrpc.Base.{
  ℕ, zero, suc, ◌+◌, ◌*◌, ◌/◌, ◌^◌, Bytes, codes, Option, none, some, Bool, true, false, not, ◌&&◌,
  ◌||◌, List, [], ◌∷◌, ◌++◌, ◌==◌, if◌then◌else◌, nat_eq, is_none, Eq-ℕ, ltb, leb, length, take,
  drop, Eq-Bytes,
}
use jrpc.Base.Decimal.{format_int, atoi_nonneg}
use jrpc.Channel.Split.Lines.{cut}
use jrpc.Errors.{RawMessage, GoError, Sentinel}
use jrpc.Message.{trim_left}

-- The field `ctype` that `StrictHeader` sets.
unfoldable pub content_type : Bytes → Bytes
content_type mime = if mime == [] then [] else codes "Content-Type: " ++ mime ++ codes "\r\n"

-- `hdr.Send`: what is written.
unfoldable pub send : Bytes → Bytes → Bytes
unfolding content_type format_int
send mime msg =
    content_type mime
    ++ codes "Content-Length: "
    ++ format_int (length msg)
    ++ codes "\r\n\r\n"
    ++ msg

-- `strings.TrimRight(raw, "\r\n")`
abbrev pub in_front : ℕ → Bytes → Bytes
in_front c [] = if nat_eq c 13 || nat_eq c 10 then [] else c ∷ []
in_front c (d ∷ s) = c ∷ d ∷ s

unfoldable pub trim_eol : Bytes → Bytes
trim_eol [] = []
trim_eol (c ∷ s) = in_front c (trim_eol s)

-- `strings.TrimRightFunc(s, unicode.IsSpace)`: what is in front of the longest suffix of spaces.
unfoldable pub trim_right : Bytes → Bytes
unfolding trim_left
trim_right [] = []
trim_right (c ∷ s) =
    let rest : Bytes = c ∷ trim_right s in if trim_left 0 (c ∷ s) == [] then [] else rest

-- `strings.TrimSpace`
unfoldable pub trim_space : Bytes → Bytes
unfolding trim_right
trim_space s = trim_right (trim_left 0 s)

-- `strings.ToLower`, as far as the names of the two fields can tell: no letter outside ASCII has
-- one of their letters as its lower case.
abbrev pub lower : ℕ → ℕ
lower c = if leb b'A' c && leb c b'Z' then c + 32 else c

unfoldable pub to_lower : Bytes → Bytes
to_lower [] = []
to_lower (c ∷ s) = lower c ∷ to_lower s

abbrev pub key_front : ℕ → Option (Bytes × Bytes) → Option (Bytes × Bytes)
key_front c none = none
key_front c (some (key, value)) = some (c ∷ key, value)

-- `strings.SplitN(line, ":", 2)`, `none` for one part.
unfoldable pub split_colon : Bytes → Option (Bytes × Bytes)
split_colon [] = none
split_colon (c ∷ s) =
    let more : Option (Bytes × Bytes) = key_front c (split_colon s) in
    if nat_eq c b':' then some ([], s) else more

-- The variables `contentType` and `contentLength`.
pub record Fields : Type 0 where
  pub kind : Bytes
  pub size : Bytes

abbrev pub no_fields : Fields
no_fields = record { kind = []; size = [] }

unfoldable pub set_field : Bytes → Bytes → Fields → Fields
unfolding trim_space to_lower
set_field key value f =
    if to_lower key == codes "content-type"
    then record f { kind = trim_space value }
    else if to_lower key == codes "content-length"
    then record f { size = trim_space value }
    else f

-- The errors of `Recv`; `mismatch` is `ContentTypeMismatchError`.
pub data Fault : Type 0 where
  mismatch : Bytes → Bytes → Fault
  failed : GoError → Fault

-- What the loop over the lines comes to.
pub data Header : Type 0 where
  refused : GoError → Bytes → Header
  fields : Fields → Bytes → Header

-- One line, with what is behind it.
pub data Line : Type 0 where
  last : Line
  field : Fields → Line
  invalid : Line

unfoldable pub read_line : Bytes → Fields → Line
unfolding trim_eol split_colon set_field
read_line raw f = if trim_eol raw == [] then Line.last else elim (split_colon (trim_eol raw)) [
  | none ↦ Line.invalid
  | some (key, value) ↦ Line.field (set_field key value f)
]

abbrev pub rest_of : Option Bytes → Bytes
rest_of none = []
rest_of (some s) = s

-- The loop of `Recv`; `none` means that the fuel ran out.
unfoldable pub read_header : ℕ → Bytes → Fields → Option Header
unfolding cut read_line
read_header zero s f = none
read_header (suc n) s f =
    let (raw, more) = cut 10 s in
    elim (is_none more && raw == []) [
      | true ↦ some (Header.refused (GoError.sentinel Sentinel.eof) [])
      | false ↦ elim (read_line raw f) [
        | Line.last ↦ some (Header.fields f (rest_of more))
        | Line.field f' ↦ read_header n (rest_of more) f'
        | Line.invalid ↦
            some (Header.refused (GoError.plain (codes "invalid header line")) (rest_of more))
      ]
    ]

-- What `Recv` returns, with the length of the buffer and what is left of the stream.
pub data Received : Type 0 where
  returned : RawMessage → Option Fault → ℕ → Bytes → Received
  panicked : Received

-- The check of the content type.
unfoldable pub content_fault : Bytes → Bytes → Option Fault
content_fault mime got = if got == mime then none else some (Fault.mismatch got mime)

-- `io.ReadFull` of so many bytes.
unfoldable pub read_full : ℕ → Option Fault → ℕ → Bytes → Received
read_full size fault buffer s =
    if leb size (length s)
    then Received.returned (some (take size s)) fault buffer (drop size s)
    else if length s == 0
    then Received.returned none (some (Fault.failed (GoError.sentinel Sentinel.eof))) buffer []
    else Received.returned none (some (Fault.failed (GoError.plain (codes "unexpected EOF"))))
        buffer []

-- The buffer for a message of so many bytes, and the message; `make` panics above `max_make`.
unfoldable pub read_body : ℕ → ℕ → Option Fault → ℕ → Bytes → Received
unfolding read_full
read_body max_make size fault buffer s =
    if ltb buffer size || (ltb (2 ^ 20) buffer && ltb size (buffer / 4))
    then (if leb (size * 2) max_make then read_full size fault (size * 2) s else Received.panicked)
    else read_full size fault buffer s

-- `hdr.Recv` behind its loop.
unfoldable pub finish : ℕ → Bytes → ℕ → Header → Received
unfolding content_fault read_body atoi_nonneg
finish max_make mime buffer (Header.refused e rest) =
    Received.returned none (some (Fault.failed e)) buffer rest
finish max_make mime buffer (Header.fields f rest) =
    if f.size == []
    then Received.returned none
        (some (Fault.failed (GoError.plain (codes "missing required content-length")))) buffer rest
    else elim (atoi_nonneg f.size) [
      | none ↦
          Received.returned none
            (some (Fault.failed (GoError.plain (codes "invalid content-length")))) buffer rest
      | some size ↦ read_body max_make size (content_fault mime f.kind) buffer rest
    ]

-- `hdr.Recv`; `none` means that the fuel ran out.
unfoldable pub strict_recv : ℕ → Bytes → ℕ → Bytes → Option Received
unfolding read_header finish
strict_recv max_make mime buffer s = elim (read_header (length s + 1) s no_fields) [
  | none ↦ none
  | some h ↦ some (finish max_make mime buffer h)
]

-- The filter of `opthdr.Recv`.
unfoldable pub allow_missing : Received → Received
allow_missing Received.panicked = Received.panicked
allow_missing (Received.returned msg none buffer rest) = Received.returned msg none buffer rest
allow_missing (Received.returned msg (some (Fault.failed e)) buffer rest) =
    Received.returned msg (some (Fault.failed e)) buffer rest
allow_missing (Received.returned msg (some (Fault.mismatch got want)) buffer rest) =
    Received.returned msg (if got == [] then none else some (Fault.mismatch got want)) buffer rest

-- `opthdr.Recv`
unfoldable pub recv : ℕ → Bytes → ℕ → Bytes → Option Received
unfolding strict_recv allow_missing
recv max_make mime buffer s = elim (strict_recv max_make mime buffer s) [
  | none ↦ none
  | some r ↦ some (allow_missing r)
]
