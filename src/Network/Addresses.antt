-- ===== src/Network/Addresses.antt =====
-- Which addresses `Network` of base.go takes for TCP.
use jrpc.Base.{
  ℕ, suc, ◌≡◌, ◌≢◌, refl, sym, ap, ◌∙◌, ◌↔◌, ◌⊎◌, inl, inr, Bytes, codes, none, some, true, false,
  not, ◌||◌, [], ◌∷◌, ◌++◌, ◌==◌, ==_iff, if◌then◌else◌, take, drop, length, take-length-append,
  Eq-Bytes, arith, Bool-cases, Option-cases,
}
use jrpc.Network.{is_service_name, network}
use jrpc.Strings.{last_index, contains, last_index-append, last_index-split}

service-contains : (s : Bytes) → is_service_name s ≡ true → contains 58 s ≡ false
unfolding contains is_service_name
service-contains [] h = refl
service-contains (b ∷ s) h = ground (arith, service-contains s (ground arith))

-- An address of the form `host:port`.
abbrev pub Tcp : Bytes → Type 0
Tcp s =
    (host : Bytes) × (port : Bytes) × (s ≡ host ++ 58 ∷ port)
    × (port ≢ [])
    × (is_service_name port ≡ true)
    × (contains 47 host ≡ false)

-- The tests of `Network` when the last colon is known.
network_at : Bytes → Bytes → Bytes → Bytes × Bytes
network_at s host port =
    if port == [] || not (is_service_name port)
    then (codes "unix", s)
    else if contains 47 host
    then (codes "unix", s)
    else (codes "tcp", s)

network-none : (s : Bytes) → last_index 58 s ≡ none → network s ≡ (codes "unix", s)
unfolding network
network-none s e = simp (network, e)

network-some :
    (s : Bytes) (i : ℕ)
    → last_index 58 s ≡ some i
    → network s ≡ network_at s (take i s) (drop (suc i) s)
unfolding network network_at
network-some s i e = simp (network, e)

network-split :
    (s host port : Bytes)
    → s ≡ host ++ 58 ∷ port
    → contains 58 port ≡ false
    → network s ≡ network_at s host port
network-split s host port e h =
    ap network e
    ∙ network-some (host ++ 58 ∷ port) (length host) (last_index-append 58 host port h)
    ∙ ap (λ l. network_at (host ++ 58 ∷ port) l (drop (suc (length host)) (host ++ 58 ∷ port)))
        (take-length-append host (58 ∷ port))
    ∙ ap (network_at (host ++ 58 ∷ port) host) (drop-colon host)
    ∙ ap (λ z. network_at z host port) (sym e)
  where
    drop-colon : (l : Bytes) → drop (suc (length l)) (l ++ 58 ∷ port) ≡ port
    drop-colon [] = refl
    drop-colon (b ∷ l) = drop-colon l

network_at-cases :
    (s host port : Bytes)
    → (network_at s host port ≡ (codes "unix", s))
      ⊎ ((network_at s host port ≡ (codes "tcp", s))
          × (port ≢ [])
          × (is_service_name port ≡ true)
          × (contains 47 host ≡ false))
unfolding network_at
network_at-cases s host port = elim (Bool-cases (port == [])) [
  | inl e ↦ inl (ground arith)
  | inr e ↦ elim (Bool-cases (is_service_name port)) [
    | inr f ↦ inl (ground arith)
    | inl f ↦ elim (Bool-cases (contains 47 host)) [
      | inl g ↦ inl (ground arith)
      | inr g ↦ inr (ground arith, λ x. ground (arith, ==_iff port []), f, g)
    ]
  ]
]

network_at-tcp :
    (s host port : Bytes)
    → port ≢ []
    → is_service_name port ≡ true
    → contains 47 host ≡ false
    → network_at s host port ≡ (codes "tcp", s)
unfolding network_at
network_at-tcp s host port e f g = ground (arith, ==_iff port [])

Tcp-network : (s : Bytes) → Tcp s → network s ≡ (codes "tcp", s)
Tcp-network s (host, port, e, ne, f, g) =
    network-split s host port e (service-contains port f) ∙ network_at-tcp s host port ne f g

network-decided :
    (s : Bytes) → (network s ≡ (codes "unix", s)) ⊎ ((network s ≡ (codes "tcp", s)) × Tcp s)
network-decided s = elim (Option-cases (last_index 58 s)) [
  | inl e ↦ inl (network-none s e)
  | inr (i, e) ↦ elim (network_at-cases s (take i s) (drop (suc i) s)) [
    | inl f ↦ inl (network-some s i e ∙ f)
    | inr (f, a, b, c) ↦
        inr (network-some s i e ∙ f, (take i s, drop (suc i) s, last_index-split 58 s i e, a, b, c))
  ]
]

tcp-ne-unix : (s : Bytes) → ¬ ◌≡◌ {A = Bytes × Bytes} (codes "tcp", s) (codes "unix", s)
tcp-ne-unix s e = ground (arith, ap (λ (p : Bytes × Bytes). p.0) e)

Tcp-form :
    (s : Bytes)
    → network s ≡ (codes "tcp", s)
    → (network s ≡ (codes "unix", s)) ⊎ ((network s ≡ (codes "tcp", s)) × Tcp s)
    → Tcp s
Tcp-form s e (inl f) = absurd (tcp-ne-unix s (sym e ∙ f))
Tcp-form s e (inr (f, h)) = h

unix-form :
    (s : Bytes)
    → ¬ Tcp s
    → (network s ≡ (codes "unix", s)) ⊎ ((network s ≡ (codes "tcp", s)) × Tcp s)
    → network s ≡ (codes "unix", s)
unix-form s h (inl f) = f
unix-form s h (inr (f, g)) = absurd (h g)

-- The network of an address is `tcp` exactly when the address has the form `host:port`, with a port that
-- is not empty and consists of letters, digits and dashes, and a host without a slash; otherwise it is
-- `unix`. The address is returned as it was given.
pub network-Tcp :
    (s : Bytes)
    → ((network s ≡ (codes "tcp", s)) ↔ Tcp s) × ((network s ≡ (codes "unix", s)) ↔ ¬ Tcp s)
network-Tcp s =
    let d = network-decided s in
    (
      (λ e. Tcp-form s e d, Tcp-network s),
      (λ e h. tcp-ne-unix s (sym (Tcp-network s h) ∙ e), λ h. unix-form s h d),
    )
