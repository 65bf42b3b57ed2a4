-- ===== src/Channel/Header/Values.antt =====
-- channel/hdr.go: what the trimming of a field's value leaves alone.
use jrpc.Base.{ℕ, ◌≡◌, refl, ◌∙◌, ap, Bytes, false, [], ◌∷◌, ◌++◌, Eq-Bytes, arith, All}
use jrpc.Base.Decimal.{IsDigit}
use jrpc.Channel.Split.{has_byte}
use jrpc.Message.{trim_left, space_width}
use jrpc.Channel.Header.{trim_eol, trim_right, trim_space, in_front}

space_width-digit : (c : ℕ) (s : Bytes) → IsDigit c → space_width (c ∷ s) ≡ 0
unfolding space_width
space_width-digit c [] h = ground arith
space_width-digit c (b ∷ []) h = ground arith
space_width-digit c (a ∷ b ∷ s) h = ground arith

trim_left-digit : (c : ℕ) (s : Bytes) → IsDigit c → trim_left 0 (c ∷ s) ≡ c ∷ s
unfolding trim_left
trim_left-digit c s h = rw (trim_left, space_width-digit c s h) refl

trim_right-digits : (s : Bytes) → All IsDigit s → trim_right s ≡ s
unfolding trim_right
trim_right-digits [] h = refl
trim_right-digits (c ∷ s) h = rw (trim_left-digit c s h.0) (ap (◌∷◌ c) (trim_right-digits s h.1))

space_width-space : (s : Bytes) → space_width (32 ∷ s) ≡ 1
unfolding space_width
space_width-space [] = refl
space_width-space (a ∷ []) = refl
space_width-space (a ∷ b ∷ s) = refl

trim_left-space : (s : Bytes) → trim_left 0 (32 ∷ s) ≡ trim_left 0 s
unfolding trim_left
trim_left-space s = rw (trim_left, space_width-space s) refl

trim_space-digits : (s : Bytes) → All IsDigit s → trim_space (32 ∷ s) ≡ s
unfolding trim_space trim_right trim_left
trim_space-digits [] h = ap trim_right (trim_left-space [])
trim_space-digits (c ∷ s) h =
    ap trim_right (trim_left-space (c ∷ s) ∙ trim_left-digit c s h.0) ∙ trim_right-digits (c ∷ s) h

pub in_front-space : (s : Bytes) → in_front 32 s ≡ 32 ∷ s
in_front-space [] = refl
in_front-space (d ∷ s) = refl

in_front-digit : (c : ℕ) (s : Bytes) → IsDigit c → in_front c s ≡ c ∷ s
in_front-digit c [] h = ground arith
in_front-digit c (d ∷ s) h = refl

trim_eol-digits : (s : Bytes) → All IsDigit s → trim_eol s ≡ s
unfolding trim_eol
trim_eol-digits [] h = refl
trim_eol-digits (c ∷ s) h = ap (in_front c) (trim_eol-digits s h.1) ∙ in_front-digit c s h.0

has_byte-digits : (s : Bytes) → All IsDigit s → has_byte 10 s ≡ false
unfolding has_byte
has_byte-digits [] h = refl
has_byte-digits (c ∷ s) h = ground (arith, has_byte-digits s h.1)

-- A field's value that stands on one line and that `Recv` does not trim.
abbrev pub Plain : Bytes → Type 0
Plain s = (has_byte 10 s ≡ false) × (trim_eol s ≡ s) × (trim_space (32 ∷ s) ≡ s)

pub Plain-digits : (s : Bytes) → All IsDigit s → Plain s
Plain-digits s h = (has_byte-digits s h, trim_eol-digits s h, trim_space-digits s h)

pub trim_eol-break : (s : Bytes) → trim_eol (s ++ 13 ∷ 10 ∷ []) ≡ trim_eol s
unfolding trim_eol
trim_eol-break [] = refl
trim_eol-break (c ∷ s) = ap (in_front c) (trim_eol-break s)
