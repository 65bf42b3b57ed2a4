-- ===== src/Channel/Header/RoundTrip.antt =====
-- channel/hdr.go: `Recv` reads what `Send` writes.
use jrpc.Base.{
  ℕ, zero, suc, ◌+◌, ◌*◌, ◌≤◌, ◌≡◌, refl, sym, ◌∙◌, ap, Bytes, codes, Option, none, some, true,
  false, ◌&&◌, ◌||◌, [], ◌∷◌, ◌++◌, append_assoc, ◌==◌, if◌then◌else◌, is_none, ltb, ◌/◌, ◌^◌, leb,
  ==_refl, ==_iff, length, Eq-Bytes, arith, take-length-append, drop-length-append, length-append,
}
use jrpc.Base.Decimal.{
  format_int, atoi-format_int, format_int-IsDigit, format_int-ne-nil, max_int64,
}
use jrpc.Channel.Split.{has_byte}
use jrpc.Channel.Split.Lines.{cut, cut-append}
use jrpc.Errors.{GoError, Sentinel}
use jrpc.Channel.Header.{
  content_type, send, trim_eol, Fields, no_fields, Header, Line, read_line, read_header,
  strict_recv, recv, Received, finish, read_body, read_full, content_fault, split_colon, set_field,
  rest_of, allow_missing,
}
use jrpc.Channel.Header.Values.{Plain, Plain-digits, trim_eol-break, in_front-space}

abbrev length_line : Bytes → Bytes
length_line s = codes "Content-Length: " ++ s ++ codes "\r\n"

abbrev kind_line : Bytes → Bytes
kind_line s = codes "Content-Type: " ++ s ++ codes "\r\n"

read_line-length :
    (s : Bytes) (f : Fields)
    → Plain s
    → read_line (length_line s) f ≡ Line.field (record f { size = s })
unfolding read_line split_colon set_field trim_eol
read_line-length s f (h, e, t) =
    rw (read_line, trim_eol-break s, e, in_front-space s)
      (ap (λ x. Line.field (record f { size = x })) t)

read_line-kind :
    (s : Bytes) (f : Fields)
    → Plain s
    → read_line (kind_line s) f ≡ Line.field (record f { kind = s })
unfolding read_line split_colon set_field trim_eol
read_line-kind s f (h, e, t) =
    rw (read_line, trim_eol-break s, e, in_front-space s)
      (ap (λ x. Line.field (record f { kind = x })) t)

has_byte-return : (s : Bytes) → has_byte 10 s ≡ false → has_byte 10 (s ++ 13 ∷ []) ≡ false
unfolding has_byte
has_byte-return [] h = refl
has_byte-return (c ∷ s) h = ground (arith, has_byte-return s (ground arith))

cut-line :
    (s rest : Bytes)
    → has_byte 10 s ≡ false
    → cut 10 ((s ++ 13 ∷ 10 ∷ []) ++ rest) ≡ (s ++ 13 ∷ 10 ∷ [], some rest)
cut-line s rest h =
    ap (cut 10) (append_assoc s (13 ∷ 10 ∷ []) rest ∙ sym (append_assoc s (13 ∷ []) (10 ∷ rest)))
    ∙ cut-append 10 (s ++ 13 ∷ []) rest (has_byte-return s h)
    ∙ ap (λ x. (x, some rest)) (append_assoc s (13 ∷ []) (10 ∷ []))

-- A round of the loop, by what `read_line` makes of the line.
round : ℕ → Fields → Bytes × Option Bytes → Option Header
round n f (raw, more) = elim (is_none more && raw == []) [
  | true ↦ some (Header.refused (GoError.sentinel Sentinel.eof) [])
  | false ↦ elim (read_line raw f) [
    | Line.last ↦ some (Header.fields f (rest_of more))
    | Line.field f' ↦ read_header n (rest_of more) f'
    | Line.invalid ↦
        some (Header.refused (GoError.plain (codes "invalid header line")) (rest_of more))
  ]
]

round-field :
    (n : ℕ) (line rest : Bytes) (f f' : Fields)
    → read_line line f ≡ Line.field f'
    → round n f (line, some rest) ≡ read_header n rest f'
unfolding round
round-field n line rest f f' l = rw (round, l) refl

read_header-field :
    (n : ℕ) (line rest : Bytes) (f f' : Fields)
    → cut 10 (line ++ rest) ≡ (line, some rest)
    → read_line line f ≡ Line.field f'
    → read_header (suc n) (line ++ rest) f ≡ read_header n rest f'
unfolding read_header round
read_header-field n line rest f f' c l = ap (round n f) c ∙ round-field n line rest f f' l

read_header-last :
    (n : ℕ) (rest : Bytes) (f : Fields)
    → read_header (suc n) (13 ∷ 10 ∷ rest) f ≡ some (Header.fields f rest)
unfolding read_header cut read_line trim_eol
read_header-last n rest f = refl

has_byte-length :
    (s : Bytes) → has_byte 10 s ≡ false → has_byte 10 (codes "Content-Length: " ++ s) ≡ false
unfolding has_byte
has_byte-length s e = e

has_byte-kind :
    (s : Bytes) → has_byte 10 s ≡ false → has_byte 10 (codes "Content-Type: " ++ s) ≡ false
unfolding has_byte
has_byte-kind s e = e

length_line-fields :
    (n : ℕ) (ds body : Bytes) (f : Fields)
    → Plain ds
    → read_header (suc (suc n)) (length_line ds ++ 13 ∷ 10 ∷ body) f
      ≡ some (Header.fields (record f { size = ds }) body)
length_line-fields n ds body f h =
    read_header-field (suc n) (length_line ds) (13 ∷ 10 ∷ body) f (record f { size = ds })
      (cut-line (codes "Content-Length: " ++ ds) (13 ∷ 10 ∷ body) (has_byte-length ds h.0))
      (read_line-length ds f h)
    ∙ read_header-last n body (record f { size = ds })

kind_line-fields :
    (n : ℕ) (mime ds body : Bytes)
    → Plain mime
    → Plain ds
    → read_header
        (suc (suc (suc n)))
        (kind_line mime ++ (length_line ds ++ 13 ∷ 10 ∷ body))
        no_fields
      ≡ some (Header.fields (record { kind = mime; size = ds }) body)
kind_line-fields n mime ds body k h =
    read_header-field (suc (suc n)) (kind_line mime) (length_line ds ++ 13 ∷ 10 ∷ body) no_fields
      (record no_fields { kind = mime })
      (cut-line (codes "Content-Type: " ++ mime) (length_line ds ++ 13 ∷ 10 ∷ body)
        (has_byte-kind mime k.0))
      (read_line-kind mime no_fields k)
    ∙ length_line-fields n ds body (record no_fields { kind = mime }) h

-- The length of the buffer behind a message of so many bytes.
abbrev pub grown : ℕ → ℕ → ℕ
grown buffer size =
    if ltb buffer size || (ltb (2 ^ 20) buffer && ltb size (buffer / 4)) then size * 2 else buffer

read_full-append :
    (msg rest : Bytes) (buffer : ℕ)
    → read_full (length msg) none buffer (msg ++ rest)
      ≡ Received.returned (some msg) none buffer rest
unfolding read_full
read_full-append msg rest buffer =
    rw (read_full, fits, take-length-append msg rest, drop-length-append msg rest) refl
  where
    fits : leb (length msg) (length (msg ++ rest)) ≡ true
    fits = ground (arith, length-append msg rest)

read_body-append :
    (max_make : ℕ) (msg rest : Bytes) (buffer : ℕ)
    → length msg * 2 ≤ max_make
    → read_body max_make (length msg) none buffer (msg ++ rest)
      ≡ Received.returned (some msg) none (grown buffer (length msg)) rest
unfolding read_body
read_body-append max_make msg rest buffer h =
    ground (arith, read_full-append msg rest buffer, read_full-append msg rest (length msg * 2))

finish-append :
    (max_make : ℕ) (mime msg rest : Bytes) (buffer : ℕ)
    → length msg ≤ max_int64
    → length msg * 2 ≤ max_make
    → finish max_make mime buffer
        (Header.fields (record { kind = mime; size = format_int (length msg) }) (msg ++ rest))
      ≡ Received.returned (some msg) none (grown buffer (length msg)) rest
unfolding finish content_fault
finish-append max_make mime msg rest buffer h m =
    rw (finish, not-nil, atoi-format_int (length msg) h, ==_refl mime)
      (read_body-append max_make msg rest buffer m)
  where
    not-nil : (format_int (length msg) == []) ≡ false
    not-nil = ground (arith, format_int-ne-nil (length msg), ==_iff (format_int (length msg)) [])

parts :
    (kind ds msg rest : Bytes)
    → (kind ++ codes "Content-Length: " ++ ds ++ codes "\r\n\r\n" ++ msg) ++ rest
      ≡ kind ++ (length_line ds ++ 13 ∷ 10 ∷ (msg ++ rest))
parts kind ds msg rest = simp append_assoc

strict_recv-fields :
    (max_make : ℕ) (mime : Bytes) (buffer : ℕ) (s : Bytes) (h : Header)
    → read_header (length s + 1) s no_fields ≡ some h
    → strict_recv max_make mime buffer s ≡ some (finish max_make mime buffer h)
unfolding strict_recv
strict_recv-fields max_make mime buffer s h e = rw (strict_recv, e) refl

read_header-send :
    (mime ds body : Bytes) (n : ℕ)
    → Plain mime
    → Plain ds
    → 3 ≤ n
    → read_header n (content_type mime ++ (length_line ds ++ 13 ∷ 10 ∷ body)) no_fields
      ≡ some (Header.fields (record { kind = mime; size = ds }) body)
unfolding content_type
read_header-send [] ds body (suc (suc (suc n))) k h e =
    length_line-fields (suc n) ds body no_fields h
read_header-send (c ∷ mime) ds body (suc (suc (suc n))) k h e =
    kind_line-fields n (c ∷ mime) ds body k h
read_header-send mime ds body (suc (suc zero)) k h e = absurd (omega arith)
read_header-send mime ds body (suc zero) k h e = absurd (omega arith)
read_header-send mime ds body zero k h e = absurd (omega arith)

-- What `Send` writes is long enough for three rounds.
send-length : (kind ds body : Bytes) → 3 ≤ length (kind ++ (length_line ds ++ 13 ∷ 10 ∷ body)) + 1
send-length kind ds body = grind (arith, length-append kind (length_line ds ++ 13 ∷ 10 ∷ body))

strict_recv-wire :
    (max_make : ℕ) (mime msg rest : Bytes) (buffer : ℕ)
    → Plain mime
    → length msg ≤ max_int64
    → length msg * 2 ≤ max_make
    → strict_recv max_make mime buffer (send mime msg ++ rest)
      ≡ some (Received.returned (some msg) none (grown buffer (length msg)) rest)
unfolding send
strict_recv-wire max_make mime msg rest buffer k h m =
    ap (strict_recv max_make mime buffer) (parts (content_type mime) ds msg rest)
    ∙ strict_recv-fields max_make mime buffer wire _ (
        read_header-send mime ds (msg ++ rest) (length wire + 1) k
          (Plain-digits ds (format_int-IsDigit (length msg)))
          (send-length (content_type mime) ds (msg ++ rest)))
    ∙ ap some (finish-append max_make mime msg rest buffer h m)
  where
    ds : Bytes
    ds = format_int (length msg)

    wire : Bytes
    wire = content_type mime ++ (length_line ds ++ 13 ∷ 10 ∷ (msg ++ rest))

-- `Recv` of either header framing reads what `Send` wrote as the same message, whatever bytes
-- come after it, and leaves those bytes, where the content type stands on one line without
-- space round it, the length of the message is an int64, and twice that length can be
-- allocated; the loop over the lines ends. The buffer has grown to twice the length if it was
-- too small, and shrunk to that if it was far too large.
pub strict_recv-send :
    (max_make : ℕ) (mime msg rest : Bytes) (buffer : ℕ)
    → Plain mime
    → length msg ≤ max_int64
    → length msg * 2 ≤ max_make
    → (strict_recv max_make mime buffer (send mime msg ++ rest)
        ≡ some (Received.returned (some msg) none (grown buffer (length msg)) rest))
      × (recv max_make mime buffer (send mime msg ++ rest)
          ≡ some (Received.returned (some msg) none (grown buffer (length msg)) rest))
unfolding recv allow_missing
strict_recv-send max_make mime msg rest buffer k h m =
    let e = strict_recv-wire max_make mime msg rest buffer k h m in (e, rw (recv, e) refl)
