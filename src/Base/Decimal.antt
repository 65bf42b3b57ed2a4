-- ===== src/Base/Decimal.antt =====
-- `strconv.FormatInt` and `strconv.Itoa` at base 10 on numbers that are not negative, and
-- `strconv.Atoi`.
use jrpc.Base.Equality.{Bytes, leb, ltb, nat_eq, if◌then◌else◌}
use jrpc.Base.Lists.{All}
use Prim.Native.Nat.{ℕ, zero, suc, ◌+◌, ◌-◌, ◌*◌, ◌/◌, ◌%◌, ◌^◌, ◌≤◌, ◌<◌}
use mathlib.Core.Path.{◌≡◌, refl, sym, ap, ◌∙◌}
use mathlib.Core.Logic.{◌≢◌}
use mathlib.Core.Bool.{Bool, ◌&&◌}
use mathlib.Core.Option.{Option, none, some}
use mathlib.Core.List.{[], ◌∷◌, cons-ne-nil}
use native.Mathlib.Omega.{arith}

-- `math.MaxInt64`
abbrev pub max_int64 : ℕ
max_int64 = 2 ^ 63 - 1

abbrev pub is_digit : ℕ → Bool
is_digit c = leb b'0' c && leb c b'9'

abbrev pub digit : ℕ → ℕ
digit n = b'0' + n % 10

-- The digits of `n` in front of `out`, one round for each.
emit : ℕ → ℕ → Bytes → Bytes
emit zero n out = out
emit (suc f) n out =
    let rest = emit f (n / 10) (digit n ∷ out) in if ltb n 10 then digit n ∷ out else rest

unfoldable pub format_int : ℕ → Bytes
unfolding emit
format_int n = emit (n + 1) n []

scan : ℕ → Bytes → Option ℕ
scan n [] = some n
scan n (c ∷ s) = if is_digit c then scan (n * 10 + (c - b'0')) s else none

-- What stands behind the sign, `none` unless it is one or more digits.
unsigned : Bytes → Option ℕ
unfolding scan
unsigned [] = none
unsigned (c ∷ s) = scan 0 (c ∷ s)

at_most : ℕ → Option ℕ → Option ℕ
at_most bound none = none
at_most bound (some n) = if leb n bound then some n else none

-- The value of `Atoi` on a 64-bit machine where it is not negative, `none` where `Atoi` fails
-- or its value is negative; no caller tells these two apart.
unfoldable pub atoi_nonneg : Bytes → Option ℕ
unfolding unsigned at_most
atoi_nonneg [] = none
atoi_nonneg (c ∷ s) =
    if nat_eq c b'-'
    then at_most 0 (unsigned s)
    else if nat_eq c b'+'
    then at_most max_int64 (unsigned s)
    else at_most max_int64 (unsigned (c ∷ s))

abbrev pub IsDigit : ℕ → Type 0
IsDigit c = (b'0' ≤ c) × (c ≤ b'9')

emit-IsDigit : (f n : ℕ) (out : Bytes) → All IsDigit out → All IsDigit (emit f n out)
unfolding emit
emit-IsDigit zero n out h = h
emit-IsDigit (suc f) n out h = ground (arith, emit-IsDigit f (n / 10) (digit n ∷ out))

pub format_int-IsDigit : (n : ℕ) → All IsDigit (format_int n)
unfolding format_int
format_int-IsDigit n = emit-IsDigit (n + 1) n [] tt

scan-emit : (f n : ℕ) (out : Bytes) → n < f → scan 0 (emit f n out) ≡ scan n out
unfolding emit scan
scan-emit zero n out h = absurd (omega arith)
scan-emit (suc f) n out h = ground (arith, scan-emit f (n / 10) (digit n ∷ out))

emit-ne-nil : (f n : ℕ) (out : Bytes) → n < f → emit f n out ≢ []
unfolding emit
emit-ne-nil zero n out h = absurd (omega arith)
emit-ne-nil (suc f) n out h =
    ground (arith, emit-ne-nil f (n / 10) (digit n ∷ out), cons-ne-nil (digit n) out)

pub format_int-ne-nil : (n : ℕ) → format_int n ≢ []
unfolding format_int
format_int-ne-nil n = emit-ne-nil (n + 1) n [] (omega arith)

atoi-digits : (s : Bytes) → All IsDigit s → s ≢ [] → atoi_nonneg s ≡ at_most max_int64 (scan 0 s)
unfolding atoi_nonneg
atoi-digits [] d ne = absurd (ne refl)
atoi-digits (c ∷ s) d ne = ground arith

-- `Atoi` reads what `Itoa` prints.
pub atoi-format_int : (n : ℕ) → n ≤ max_int64 → atoi_nonneg (format_int n) ≡ some n
unfolding format_int atoi_nonneg
atoi-format_int n h =
    atoi-digits (format_int n) (format_int-IsDigit n) (format_int-ne-nil n)
    ∙ ap (at_most max_int64) (scan-emit (n + 1) n [] (omega arith))
    ∙ ground arith

pub format_int-injective : (m n : ℕ) → format_int m ≡ format_int n → m ≡ n
unfolding format_int scan
format_int-injective m n e =
    let read : some m ≡ some n =
      sym (scan-emit (m + 1) m [] (omega arith))
      ∙ ap (scan 0) e
      ∙ scan-emit (n + 1) n [] (omega arith) in
    ground arith
