-- ===== src/Channel/Split/Lines.antt =====
-- channel/split.go: what `Recv` returns.
use jrpc.Base.{
  ℕ, zero, ◌⊎◌, inl, inr, nat_eq_iff, suc, ◌+◌, ◌-◌, ◌<◌, ◌≡◌, refl, sym, ◌∙◌, ap, Bytes, Option,
  none, some, true, false, [], ◌∷◌, ◌++◌, append_assoc, nat_eq, if◌then◌else◌, length, take, arith,
  Bool-cases, length-append, take-length-append,
}
use jrpc.Errors.{GoError, Sentinel}
use jrpc.Channel.Split.{
  has_byte, send, Status, in_front, read_slice, Received, finish, recv_loop, recv,
}

-- The input up to the first split byte, which is part of the line, and the rest; `none` for the
-- rest if there is no such byte.
abbrev pub with_first : ℕ → Bytes × Option Bytes → Bytes × Option Bytes
with_first c (line, rest) = (c ∷ line, rest)

unfoldable pub cut : ℕ → Bytes → Bytes × Option Bytes
cut b [] = ([], none)
cut b (c ∷ s) =
    let more : Bytes × Option Bytes = with_first c (cut b s) in
    if nat_eq c b then (c ∷ [], some s) else more

-- What `Recv` returns for the line.
abbrev pub line_result : Bytes × Option Bytes → Received
line_result (line, some rest) = finish line none rest
line_result (line, none) = finish line (some (GoError.sentinel Sentinel.eof)) []

abbrev joined : Bytes → Bytes × Option Bytes → Bytes × Option Bytes
joined buf (line, rest) = (buf ++ line, rest)

abbrev Agrees : ℕ → ℕ → Bytes → Bytes × Bytes × Status → Type 0
Agrees b n s (chunk, rest, Status.full) =
    (cut b s ≡ joined chunk (cut b rest)) × (length rest + n ≡ length s)
Agrees b n s (chunk, rest, Status.found) = (cut b s ≡ (chunk, some rest)) × (rest ≡ rest)
Agrees b n s (chunk, rest, Status.ended) = (cut b s ≡ (chunk, none)) × (rest ≡ [])

cut-at : (b c : ℕ) (s : Bytes) → nat_eq c b ≡ true → cut b (c ∷ s) ≡ (c ∷ [], some s)
unfolding cut
cut-at b c s e = rw (e) refl

cut-past : (b c : ℕ) (s : Bytes) → nat_eq c b ≡ false → cut b (c ∷ s) ≡ with_first c (cut b s)
unfolding cut
cut-past b c s e = rw (e) refl

Agrees-in_front :
    (n b c : ℕ) (s : Bytes) (r : Bytes × Bytes × Status)
    → nat_eq c b ≡ false
    → Agrees b n s r
    → Agrees b (suc n) (c ∷ s) (in_front c r)
Agrees-in_front n b c s (chunk, rest, Status.full) e (h, l) =
    (cut-past b c s e ∙ ap (with_first c) h, omega arith)
Agrees-in_front n b c s (chunk, rest, Status.found) e (h, l) =
    (cut-past b c s e ∙ ap (with_first c) h, refl)
Agrees-in_front n b c s (chunk, rest, Status.ended) e (h, l) =
    (cut-past b c s e ∙ ap (with_first c) h, l)

-- A chunk is a prefix of the line, and a full one has the buffer's length.
read_slice-Agrees : (n b : ℕ) (s : Bytes) → Agrees b n s (read_slice n b s)
unfolding read_slice cut
read_slice-Agrees zero b s = (refl, omega arith)
read_slice-Agrees (suc n) b [] = (refl, refl)
read_slice-Agrees (suc n) b (c ∷ s) = elim (Bool-cases (nat_eq c b)) [
  | inl e ↦ rw (e) (cut-at b c s e, refl)
  | inr e ↦ rw (e) (Agrees-in_front n b c s (read_slice n b s) e (read_slice-Agrees n b s))
]

joined-joined :
    (buf chunk : Bytes) (r : Bytes × Option Bytes)
    → joined buf (joined chunk r) ≡ joined (buf ++ chunk) r
joined-joined buf chunk (line, rest) = ap (λ l. (l, rest)) (sym (append_assoc buf chunk line))

after : ℕ → ℕ → ℕ → Bytes → Bytes × Bytes × Status → Option Received
after f size b buf (chunk, rest, st) = elim st [
  | Status.full ↦ recv_loop f size b (buf ++ chunk) rest
  | Status.found ↦ some (finish (buf ++ chunk) none rest)
  | Status.ended ↦ some (finish (buf ++ chunk) (some (GoError.sentinel Sentinel.eof)) rest)
]

after-Agrees :
    (f size b : ℕ) (buf s : Bytes) (r : Bytes × Bytes × Status)
    → length s < suc f
    → ((buf1 rest : Bytes)
        → length rest < f
        → recv_loop f (suc size) b buf1 rest ≡ some (line_result (joined buf1 (cut b rest))))
    → Agrees b (suc size) s r
    → after f (suc size) b buf r ≡ some (line_result (joined buf (cut b s)))
unfolding after
after-Agrees f size b buf s (chunk, rest, Status.full) hf go (h, l) =
    go (buf ++ chunk) rest (omega arith)
    ∙ ap (λ x. some (line_result x)) (sym (joined-joined buf chunk (cut b rest)))
    ∙ ap (λ x. some (line_result (joined buf x))) (sym h)
after-Agrees f size b buf s (chunk, rest, Status.found) hf go (h, l) = rw (h) refl
after-Agrees f size b buf s (chunk, rest, Status.ended) hf go (h, l) = rw (h, l) refl

recv_loop-cut :
    (f size b : ℕ) (buf s : Bytes)
    → length s < f
    → recv_loop f (suc size) b buf s ≡ some (line_result (joined buf (cut b s)))
unfolding recv_loop after
recv_loop-cut zero size b buf s hf = absurd (omega arith)
recv_loop-cut (suc f) size b buf s hf =
    after-Agrees f size b buf s (read_slice (suc size) b s) hf (recv_loop-cut f size b)
      (read_slice-Agrees (suc size) b s)

-- `Recv` cuts the input at the first split byte and drops that byte; the fuel is enough, however
-- the lines lie in the 4096 bytes of the buffer. If there is no split byte it returns the rest of
-- the input less its last byte, with `io.EOF`.
pub recv-cut : (b : ℕ) (s : Bytes) → recv b s ≡ some (line_result (cut b s))
unfolding recv
recv-cut b s = recv_loop-cut (length s + 1) 4095 b [] s (omega arith)

pub cut-append :
    (b : ℕ) (msg rest : Bytes)
    → has_byte b msg ≡ false
    → cut b (msg ++ b ∷ rest) ≡ (msg ++ b ∷ [], some rest)
unfolding has_byte
cut-append b [] rest h = cut-at b b rest ((nat_eq_iff b b).1 refl)
cut-append b (c ∷ msg) rest h = elim (Bool-cases (nat_eq c b)) [
  | inl e ↦ absurd (ground arith)
  | inr e ↦
      cut-past b c (msg ++ b ∷ rest) e ∙ ap (with_first c) (cut-append b msg rest (ground arith))
]

-- A line that ends by the split byte loses exactly that byte.
finish-append :
    (b : ℕ) (msg : Bytes) (err : Option GoError) (rest : Bytes)
    → finish (msg ++ b ∷ []) err rest ≡ record { msg = some msg; err = err; rest = rest }
unfolding finish
finish-append b [] err rest = refl
finish-append b (c ∷ msg) err rest =
    ap (λ m. record { msg = some m; err = err; rest = rest })
      (ap (λ n. take n (c ∷ msg ++ b ∷ [])) (length-last c b msg)
        ∙ take-length-append (c ∷ msg) (b ∷ []))
  where
    length-last : (x y : ℕ) (s : Bytes) → length (x ∷ s ++ y ∷ []) - 1 ≡ length (x ∷ s)
    length-last x y s = grind (arith, length-append s (y ∷ []))

recv-append :
    (b : ℕ) (msg rest : Bytes)
    → has_byte b msg ≡ false
    → recv b ((msg ++ b ∷ []) ++ rest) ≡ some (record { msg = some msg; err = none; rest = rest })
recv-append b msg rest h =
    recv-cut b ((msg ++ b ∷ []) ++ rest)
    ∙ ap (λ s. some (line_result (cut b s))) (append_assoc msg (b ∷ []) rest)
    ∙ ap (λ r. some (line_result r)) (cut-append b msg rest h)
    ∙ ap some (finish-append b msg none rest)

-- What `Send` writes for a message, whatever bytes come after it, `Recv` reads as that message
-- and leaves those bytes; `Send` refuses the message if it contains the split byte.
pub recv-send :
    (b : ℕ) (msg rest : Bytes)
    → (has_byte b msg ≡ true) × (send b msg ≡ none)
      ⊎ ((wire : Bytes) × (send b msg ≡ some wire)
          × (recv b (wire ++ rest) ≡ some (record { msg = some msg; err = none; rest = rest })))
unfolding send
recv-send b msg rest = elim (Bool-cases (has_byte b msg)) [
  | inl e ↦ inl (e, rw (e) refl)
  | inr e ↦ inr (msg ++ b ∷ [], rw (e) refl, recv-append b msg rest e)
]

cut-none : (b : ℕ) (s : Bytes) → has_byte b s ≡ false → cut b s ≡ (s, none)
unfolding has_byte cut
cut-none b [] h = refl
cut-none b (c ∷ s) h = elim (Bool-cases (nat_eq c b)) [
  | inl e ↦ absurd (ground arith)
  | inr e ↦ cut-past b c s e ∙ ap (with_first c) (cut-none b s (ground arith))
]

-- A last message whose split byte is missing, as it is at the end of the input, is not refused:
-- `Recv` returns it without its last byte, together with `io.EOF`.
pub recv-unterminated :
    (b c : ℕ) (msg : Bytes)
    → has_byte b (msg ++ c ∷ []) ≡ false
    → recv b (msg ++ c ∷ [])
      ≡ some (record { msg = some msg; err = some (GoError.sentinel Sentinel.eof); rest = [] })
recv-unterminated b c msg h =
    recv-cut b (msg ++ c ∷ [])
    ∙ ap (λ r. some (line_result r)) (cut-none b (msg ++ c ∷ []) h)
    ∙ ap some (finish-append c msg (some (GoError.sentinel Sentinel.eof)) [])
