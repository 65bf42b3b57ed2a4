-- ===== src/Channel/Split.antt =====
-- channel/split.go: messages that end by a fixed byte.
use jrpc.Base.{
  ℕ, zero, suc, ◌+◌, ◌-◌, ◌<◌, ◌≤◌, ◌≡◌, refl, sym, ◌∙◌, ap, Bytes, codes, Option, none, some, Bool,
  true, false, ◌||◌, List, [], ◌∷◌, ◌++◌, append_assoc, append-nil, nat_eq, if◌then◌else◌, length,
  take, arith, length-append, take-length-append,
}
use jrpc.Errors.{RawMessage, GoError, Sentinel}
pub mod Lines
pub mod Tests

-- `bytes.IndexByte(msg, b) >= 0`
unfoldable pub has_byte : ℕ → Bytes → Bool
has_byte b [] = false
has_byte b (c ∷ s) = nat_eq c b || has_byte b s

-- `split.Send`: what is written, `none` for the error.
unfoldable pub send : ℕ → Bytes → Option Bytes
unfolding has_byte
send b msg = if has_byte b msg then none else some (msg ++ b ∷ [])

-- Why `bufio.Reader.ReadSlice` returned: it found the byte, its buffer is full, or the input ended.
pub data Status : Type 0 where
  found : Status
  full : Status
  ended : Status

abbrev pub in_front : ℕ → Bytes × Bytes × Status → Bytes × Bytes × Status
in_front c (chunk, rest, st) = (c ∷ chunk, rest, st)

-- `ReadSlice(b)` with room for `n` bytes: the chunk, what is left, and why it returned.
unfoldable pub read_slice : ℕ → ℕ → Bytes → Bytes × Bytes × Status
read_slice zero b s = ([], s, Status.full)
read_slice (suc n) b [] = ([], [], Status.ended)
read_slice (suc n) b (c ∷ s) =
    let more : Bytes × Bytes × Status = in_front c (read_slice n b s) in
    if nat_eq c b then (c ∷ [], s, Status.found) else more

-- What `Recv` returns, with what is left of the stream.
pub record Received : Type 0 where
  pub msg : RawMessage
  pub err : Option GoError
  pub rest : Bytes

-- The end of `Recv`: the last byte of the line is cut off, whether it is the split byte or not.
unfoldable pub finish : Bytes → Option GoError → Bytes → Received
finish [] err rest = record { msg = none; err = err; rest = rest }
finish (c ∷ s) err rest = record {
  msg = some (take (length (c ∷ s) - 1) (c ∷ s));
  err = err;
  rest = rest;
}

-- The loop of `Recv` with a buffer of `size` bytes; `none` means that the fuel ran out.
unfoldable pub recv_loop : ℕ → ℕ → ℕ → Bytes → Bytes → Option Received
unfolding read_slice finish
recv_loop zero size b buf s = none
recv_loop (suc f) size b buf s =
    let (chunk, rest, st) = read_slice size b s in
    elim st [
      | Status.full ↦ recv_loop f size b (buf ++ chunk) rest
      | Status.found ↦ some (finish (buf ++ chunk) none rest)
      | Status.ended ↦ some (finish (buf ++ chunk) (some (GoError.sentinel Sentinel.eof)) rest)
    ]

-- `split.Recv` with the buffer of `bufio.NewReader`.
unfoldable pub recv : ℕ → Bytes → Option Received
unfolding recv_loop
recv b s = recv_loop (length s + 1) 4096 b [] s
