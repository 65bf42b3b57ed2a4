-- ===== src/Ledger.antt =====
-- Goroutines that are numbered as they start, and what becomes of each: the ledger that
-- jhttp/channel.go and server/loop.go both keep.
use jrpc.Base.{
  ℕ, suc, ◌+◌, ◌<◌, ◌≤◌, ◌≡◌, refl, subst, ◌∙◌, none, some, true, List, [], ◌∷◌, ◌++◌,
  if◌then◌else◌, nat_eq, nat_eq_iff, Eq-ℕ, inl, inr, arith, Bool-cases,
}
use jrpc.Base.GoMap.{GoMap, get, put, delete, get-put, get-delete}

-- How often something became of a goroutine.
abbrev pub count : {F : Type 0} → ℕ → List (ℕ × F) → ℕ
count n [] = 0
count n ((m, f) ∷ l) = (if nat_eq m n then 1 else 0) + count n l

count-append :
    {F : Type 0} (n m : ℕ) (f : F) (l : List (ℕ × F))
    → count n (l ++ (m, f) ∷ []) ≡ count n l + (if nat_eq m n then 1 else 0)
count-append n m f [] = ground arith
count-append n m f (e ∷ l) = ground (arith, count-append n m f l)

module _ {G F : Type 0} where
  -- A goroutine that was started: it is there and nothing became of it, or it has exited and one
  -- thing became of it.
  pub data Started (n : ℕ) (live : GoMap ℕ G) (log : List (ℕ × F)) : Type 0 where
    running : (g : G) → get n live ≡ some g → count n log ≡ 0 → Started n live log
    settled : get n live ≡ none → count n log ≡ 1 → Started n live log

  -- The numbers below `next` have been given out.
  pub record Ledger (next : ℕ) (live : GoMap ℕ G) (log : List (ℕ × F)) : Type 0 where
    pub started : (n : ℕ) → n < next → Started n live log
    pub fresh : (n : ℕ) → next ≤ n → (get n live ≡ none) × (count n log ≡ 0)

  pub Ledger-nil : Ledger 0 [] []
  unfolding get
  Ledger-nil = record { started = λ n l. absurd (omega arith); fresh = λ n l. (refl, refl) }

  -- A goroutine that a step does not touch.
  untouched :
      {live live' : GoMap ℕ G} {log log' : List (ℕ × F)} (n : ℕ)
      → get n live' ≡ get n live
      → count n log' ≡ count n log
      → Started n live log
      → Started n live' log'
  untouched n e f (Started.running g h k) = Started.running g (e ∙ h) (f ∙ k)
  untouched n e f (Started.settled h k) = Started.settled (e ∙ h) (f ∙ k)

  module _ {next : ℕ} {live : GoMap ℕ G} {log : List (ℕ × F)} (a : Ledger next live log) where
    -- A new goroutine.
    pub Ledger-start : (g : G) → Ledger (suc next) (put next g live) log
    Ledger-start g = record {
      started = λ n l. elim (Bool-cases (nat_eq next n)) [
        | inl e ↦
            Started.running g (ground (arith, get-put next n g live))
              (ground (arith, nat_eq_iff next n, a.fresh n))
        | inr e ↦
            untouched n (ground (arith, get-put next n g live)) refl
              (a.started n (ground (arith, nat_eq_iff next n)))
      ];
      fresh = λ n l. ground (arith, get-put next n g live, nat_eq_iff next n, a.fresh n);
    }

    module _ (n : ℕ) (g : G) (e : get n live ≡ some g) where
      pub running_lt : n < next
      running_lt = ground (arith, a.fresh n)

      pub unsettled : (m : ℕ) → nat_eq n m ≡ true → count m log ≡ 0
      unsettled m k =
          subst (λ i. count i log ≡ 0) ((nat_eq_iff n m).0 k) (zero_count (a.started n running_lt))
        where
          zero_count : Started n live log → count n log ≡ 0
          zero_count (Started.running h i j) = j
          zero_count (Started.settled i j) = absurd (ground arith)

      -- A goroutine goes on.
      pub Ledger-continue : (h : G) → Ledger next (put n h live) log
      Ledger-continue h = record {
        started = λ m l. elim (Bool-cases (nat_eq n m)) [
          | inl k ↦ Started.running h (ground (arith, get-put n m h live)) (unsettled m k)
          | inr k ↦ untouched m (ground (arith, get-put n m h live)) refl (a.started m l)
        ];
        fresh = λ m l. ground (arith, get-put n m h live, nat_eq_iff n m, a.fresh m);
      }

      -- A goroutine exits, and one thing becomes of it.
      pub Ledger-exit : (f : F) → Ledger next (delete n live) (log ++ (n, f) ∷ [])
      Ledger-exit f = record {
        started = λ m l. elim (Bool-cases (nat_eq n m)) [
          | inl k ↦
              Started.settled (ground (arith, get-delete n m live))
                (ground (arith, count-append m n f log, unsettled m k))
          | inr k ↦
              untouched m (ground (arith, get-delete n m live))
                (ground (arith, count-append m n f log)) (a.started m l)
        ];
        fresh = λ m l.
            ground (arith, get-delete n m live, count-append m n f log, nat_eq_iff n m, a.fresh m);
      }
