-- ===== src/Client/System/Numbers.antt =====
-- client.go: the number that a request is made with, and what sending requests comes to.
use jrpc.Base.{
  ℕ, suc, ◌+◌, ◌≤◌, ◌≡◌, refl, ◌∙◌, ap, Bytes, Option, none, some, false, List, [], ◌∷◌, ◌++◌, ◌==◌,
  ==_iff, Eq-Bytes, ◌⊎◌, inl, inr, length, arith, Bool-cases, Option-cases, Sum-cases,
}
use jrpc.Base.Decimal.{format_int, format_int-ne-nil, max_int64}
use jrpc.Base.Int.{pos, add64, add64-one}
use jrpc.Code.{format_code}
use jrpc.Errors.{GoError}
use jrpc.Message.{Json, Jmessage}
use jrpc.Message.Write.{messages_json}
use jrpc.Client.{Client}
use jrpc.Client.Requests.{
  Spec, spec_request, req, note, marshal_params, new_pendings, add_pendings, send,
}

pub format_int-eq-nil : (n : ℕ) → (format_int n == []) ≡ false
format_int-eq-nil n = ground (arith, format_int-ne-nil n, ==_iff (format_int n) [])

-- What making one request comes to, from the client before.
abbrev pub MadeOne : ℕ → Client → (GoError ⊎ Jmessage) × Client → Type 0
MadeOne n c (inl e, c') = c' ≡ record c { next_id = pos n }
MadeOne n c (inr r, c') =
    (m : ℕ) × (c' ≡ record c { next_id = pos m })
    × (((m ≡ n) × (r.id ≡ none)) ⊎ ((m ≡ suc n) × (r.id ≡ some (format_int n))))

same_id : (n : ℕ) (c : Client) → c.next_id ≡ pos n → c ≡ record c { next_id = pos n }
same_id n c e = ap (λ i. record c { next_id = i }) e

note-MadeOne :
    (s : Spec) (c : Client) (n : ℕ) → c.next_id ≡ pos n → MadeOne n c (note s.method s.params, c)
unfolding note
note-MadeOne s c n e = elim (Sum-cases (marshal_params s.params)) [
  | inl (x, m) ↦ rw (note, m) (same_id n c e)
  | inr (bits, m) ↦ rw (note, m) (n, same_id n c e, inl (refl, refl))
]

req-MadeOne :
    (s : Spec) (c : Client) (n : ℕ)
    → c.next_id ≡ pos n
    → n + 1 ≤ max_int64
    → MadeOne n c (req s.method s.params c)
unfolding req format_code
req-MadeOne s c n e h = elim (Sum-cases (marshal_params s.params)) [
  | inl (x, m) ↦ rw (req, m) (same_id n c e)
  | inr (bits, m) ↦
      rw (req, m)
        (
          n + 1,
          ap (λ i. record c { next_id = add64 i (pos 1) }) e
              ∙ ap (λ i. record c { next_id = i }) (add64-one n h),
          inr (omega arith, ap (λ i. some (format_code i)) e),
        )
]

pub spec_request-MadeOne :
    (s : Spec) (c : Client) (n : ℕ)
    → c.next_id ≡ pos n
    → n + 1 ≤ max_int64
    → MadeOne n c (spec_request s c)
spec_request-MadeOne s c n e h = elim (Bool-cases s.notify) [
  | inl y ↦ rw y (note-MadeOne s c n e)
  | inr y ↦ rw y (req-MadeOne s c n e h)
]

-- What sending comes to, from the client before: nothing is registered, or the calls are registered
-- under their IDs and numbered one by one.
abbrev pub Sent : List Jmessage → Client → Option ((GoError ⊎ List (Bytes × ℕ)) × Client) → Type 0
Sent reqs c none = Unit
Sent reqs c (some (inl e, c')) = (k : ℕ) × (c' ≡ record c { next_rsp = c.next_rsp + k })
Sent reqs c (some (inr pends, c')) =
    (bits : Bytes) × (pends ≡ new_pendings reqs c.next_rsp)
    × (c' ≡ record c {
      next_rsp = c.next_rsp + length (new_pendings reqs c.next_rsp);
      sent = c.sent ++ bits ∷ [];
      pending = add_pendings (new_pendings reqs c.next_rsp) c.pending;
    })

add_none : (c : Client) → c ≡ record c { next_rsp = c.next_rsp + 0 }
add_none c = ap (λ (q : ℕ). record c { next_rsp = q }) (omega arith)

pub send-Sent :
    (js : Json) (why : Bytes) (failure : Option GoError) (reqs : List Jmessage) (c : Client)
    → Sent reqs c (send js why failure reqs c)
unfolding send
send-Sent js why failure [] c = (0, add_none c)
send-Sent js why failure (r ∷ reqs) c = elim (Option-cases (messages_json js (r ∷ reqs))) [
  | inl e ↦ simp (send, e) (0, add_none c)
  | inr (bits, e) ↦ elim (Option-cases c.err) [
    | inr (x, f) ↦ simp (send, e, f) (length (new_pendings (r ∷ reqs) c.next_rsp), refl)
    | inl f ↦ elim (Bool-cases c.running) [
      | inr g ↦ simp (send, e, f, g) tt
      | inl g ↦ elim (Option-cases failure) [
        | inr (x, k) ↦ simp (send, e, f, g, k) (length (new_pendings (r ∷ reqs) c.next_rsp), refl)
        | inl k ↦ simp (send, e, f, g, k) (bits, refl, refl)
      ]
    ]
  ]
]
