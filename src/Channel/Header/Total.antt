-- ===== src/Channel/Header/Total.antt =====
-- channel/hdr.go: the loop of `Recv` ends.
use jrpc.Base.{
  ℕ, zero, suc, ◌+◌, ◌<◌, ◌≤◌, ◌≡◌, refl, Bytes, codes, Option, some, Bool, true, false, ◌&&◌, [],
  ◌∷◌, ◌==◌, is_none, length, Eq-Bytes, arith,
}
use jrpc.Errors.{GoError, Sentinel}
use jrpc.Channel.Split.Lines.{cut}
use jrpc.Channel.Header.{
  Fields, no_fields, Header, Line, read_line, read_header, rest_of, strict_recv, Received, finish,
}

cut-rest_le : (b : ℕ) (s : Bytes) → length (rest_of (cut b s).1) ≤ length s
unfolding cut
cut-rest_le b [] = omega arith
cut-rest_le b (c ∷ s) = ground (arith, cut-rest_le b s)

cut-rest_lt : (b c : ℕ) (s : Bytes) → length (rest_of (cut b (c ∷ s)).1) < length (c ∷ s)
unfolding cut
cut-rest_lt b c s = ground (arith, cut-rest_le b s)

-- A round, by whether the input has ended and what `read_line` makes of the line.
round : ℕ → Fields → Bytes → Bool → Line → Option Header
round n f rest last line = elim last [
  | true ↦ some (Header.refused (GoError.sentinel Sentinel.eof) [])
  | false ↦ elim line [
    | Line.last ↦ some (Header.fields f rest)
    | Line.field f' ↦ read_header n rest f'
    | Line.invalid ↦ some (Header.refused (GoError.plain (codes "invalid header line")) rest)
  ]
]

round-total :
    (n : ℕ) (f : Fields) (rest : Bytes) (last : Bool) (line : Line)
    → ((f' : Fields) → (h : Header) × (read_header n rest f' ≡ some h))
    → (h : Header) × (round n f rest last line ≡ some h)
unfolding round
round-total n f rest true line go = (_, refl)
round-total n f rest false Line.last go = (_, refl)
round-total n f rest false (Line.field f') go = go f'
round-total n f rest false Line.invalid go = (_, refl)

read_header-total :
    (n : ℕ) (s : Bytes) (f : Fields) → length s < n → (h : Header) × (read_header n s f ≡ some h)
unfolding read_header cut round
read_header-total zero s f l = absurd (omega arith)
read_header-total (suc n) [] f l = (_, refl)
read_header-total (suc n) (c ∷ s) f l =
    round-total n f (rest_of (cut 10 (c ∷ s)).1)
      (is_none (cut 10 (c ∷ s)).1 && (cut 10 (c ∷ s)).0 == []) (read_line (cut 10 (c ∷ s)).0 f)
      (λ f'. read_header-total n (rest_of (cut 10 (c ∷ s)).1) f' (shorter (cut-rest_lt 10 c s)))
  where
    shorter :
        length (rest_of (cut 10 (c ∷ s)).1) < length (c ∷ s)
        → length (rest_of (cut 10 (c ∷ s)).1) < n
    shorter h = omega arith

-- `Recv` of a header framing ends on every input: the loop over its lines never runs out of rounds.
pub strict_recv-total :
    (max_make : ℕ) (mime : Bytes) (buffer : ℕ) (s : Bytes)
    → (r : Received) × (strict_recv max_make mime buffer s ≡ some r)
unfolding strict_recv
strict_recv-total max_make mime buffer s =
    let (h, p) = read_header-total (length s + 1) s no_fields (omega arith) in
    (finish max_make mime buffer h, rw (strict_recv, p) refl)
