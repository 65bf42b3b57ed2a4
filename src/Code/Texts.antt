-- ===== src/Code/Texts.antt =====
-- What `Register` does to the texts that `String` returns.
use jrpc.Base.{
  Bytes, none, some, ◌≡◌, refl, ◌≢◌, ◌↔◌, inl, inr, Option-cases, arith, ◌==◌, ==_iff,
  if◌then◌else◌, Eq-Bytes,
}
use jrpc.Base.Int.{Eq-ℤ}
use jrpc.Base.GoMap.{get, get-put}
use jrpc.Code.{Code, Registry, to_string, register}

-- A successful `Register` gives the code its text and leaves every other code's text as it was.
pub to_string-register :
    (r : Registry) (c : Code) (message : Bytes) {r' : Registry} {c' : Code}
    → register r c message ≡ some (r', c')
    → (d : Code) → to_string r' d ≡ (if c == d then message else to_string r d)
unfolding register to_string
to_string-register r c message h d = ground (arith, ==_iff c d, get-put c d message r)

-- `Register` panics exactly when the code already has another text.
pub register-eq-none :
    (r : Registry) (c : Code) (message : Bytes)
    → (register r c message ≡ none) ↔ ((s : Bytes) × (get c r ≡ some s) × (s ≢ message))
unfolding register
register-eq-none r c message = elim (Option-cases (get c r)) [
  | inl e ↦ rw e ((λ h. cc), λ (s, found, ne). cc)
  | inr (t, e) ↦ rw e (
    (λ h. (t, refl, ground (arith, ==_iff t message))),
    λ (s, found, ne). ground (arith, ==_iff t message),
  )
]
