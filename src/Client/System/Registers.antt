-- ===== src/Client/System/Registers.antt =====
-- client.go: the responses that `send` registers.
use jrpc.Base.{
  ℕ, suc, ◌+◌, ◌<◌, ◌≡◌, refl, ◌∙◌, Bytes, false, List, [], ◌∷◌, ◌==◌, ==_iff, ==_refl, nat_eq,
  nat_eq_iff, Eq-Bytes, Eq-ℕ, inl, inr, length, arith, Bool-cases,
}
use jrpc.Base.Decimal.{format_int}
use jrpc.Base.GoMap.{GoMap, get, put, get-put}
use jrpc.Errors.{bytes_of}
use jrpc.Message.{Jmessage}
use jrpc.Client.Requests.{new_pendings, add_pendings}
use jrpc.Client.System.{add_ids}
use jrpc.Client.System.Fresh.{carries, tally, Free, Free-le}
use jrpc.Pending.{Core, Core-register, Core-le, Unused}

Unused-put :
    (id new : Bytes) (q : ℕ) (ids : GoMap ℕ Bytes)
    → (new == id) ≡ false
    → Unused id ids
    → Unused id (put q new ids)
Unused-put id new q ids f unused p id' e = elim (Bool-cases (nat_eq q p)) [
  | inl g ↦ ground (arith, get-put q p new ids, ==_iff id id', ==_iff new id)
  | inr g ↦ unused p id' (ground (arith, get-put q p new ids))
]

-- The call of the first request is registered; the others and the rest stay free.
module _ {n : ℕ} (r : Jmessage) (reqs : List Jmessage) (rest : Bytes → ℕ) (ids : GoMap ℕ Bytes)
    (free : Free n (λ id. tally id (r ∷ reqs) + rest id) ids)
    (e : (bytes_of r.id == []) ≡ false) where
  first : carries (bytes_of r.id) r ≡ 1
  first = rw (e, ==_refl (bytes_of r.id)) refl

  first-new : ((k : ℕ) × (bytes_of r.id ≡ format_int k) × (k < n)) × Unused (bytes_of r.id) ids
  first-new = elim (free.one (bytes_of r.id)) [
    | inl z ↦ absurd (omega (arith, first))
    | inr (z, num, unused) ↦ (num, unused)
  ]

  rest-Free : (q : ℕ) → Free n (λ id. tally id reqs + rest id) (put q (bytes_of r.id) ids)
  rest-Free q = record {
    one = λ id. elim (Bool-cases (bytes_of r.id == id)) [
      | inl f ↦
          let one : carries id r ≡ 1 = rw (e, f) refl in
          elim (free.one id) [
            | inl z ↦ inl (omega (arith, one))
            | inr (z, num, unused) ↦ inl (omega (arith, one))
          ]
      | inr f ↦
          let zero : carries id r ≡ 0 = rw (e, f) refl in
          elim (free.one id) [
            | inl z ↦ inl (omega (arith, zero))
            | inr (z, num, unused) ↦
                inr (omega (arith, zero), num, Unused-put id (bytes_of r.id) q ids f unused)
          ]
    ];
  }

pub Core-send :
    (reqs : List Jmessage) (n q : ℕ) (rest : Bytes → ℕ) (pending : GoMap Bytes ℕ)
    (delivered : List (ℕ × Jmessage)) (ids : GoMap ℕ Bytes)
    → Core n q pending delivered ids
    → Free n (λ id. tally id reqs + rest id) ids
    → Core n
        (q + length (new_pendings reqs q))
        (add_pendings (new_pendings reqs q) pending)
        delivered
        (add_ids (new_pendings reqs q) ids)
      × Free n rest (add_ids (new_pendings reqs q) ids)
unfolding new_pendings add_pendings add_ids
Core-send [] n q rest pending delivered ids core free =
    (Core-le core n (q + 0) (omega arith) (omega arith), Free-le (λ id. omega arith) free)
Core-send (r ∷ reqs) n q rest pending delivered ids core free =
    elim (Bool-cases (bytes_of r.id == [])) [
      | inl e ↦
          rw (new_pendings, e)
            (Core-send reqs n q rest pending delivered ids core (Free-le (λ id. omega arith) free))
      | inr e ↦
          let (num, unused) = first-new r reqs rest ids free e in
          let (c, f) =
            Core-send reqs n (suc q) rest (put (bytes_of r.id) q pending) delivered
              (put q (bytes_of r.id) ids) (Core-register core (bytes_of r.id) num unused)
              (rest-Free r reqs rest ids free e q) in
          rw (new_pendings, e)
            (
              Core-le c n (q + suc (length (new_pendings reqs (suc q)))) (omega arith)
                  (omega arith),
              f,
            )
    ]

-- The response that a number below the next one had is still registered.
pub get-add_ids :
    (reqs : List Jmessage) (q p : ℕ) (ids : GoMap ℕ Bytes)
    → p < q
    → get p (add_ids (new_pendings reqs q) ids) ≡ get p ids
unfolding new_pendings add_ids
get-add_ids [] q p ids h = refl
get-add_ids (r ∷ reqs) q p ids h = elim (Bool-cases (bytes_of r.id == [])) [
  | inl e ↦ rw (new_pendings, e) (get-add_ids reqs q p ids h)
  | inr e ↦
      rw (new_pendings, e)
        (get-add_ids reqs (suc q) p (put q (bytes_of r.id) ids) (omega arith)
          ∙ ground (arith, get-put q p (bytes_of r.id) ids, nat_eq_iff q p))
]
