-- ===== src/Loop/Services.antt =====
-- server/loop.go: a loop with its goroutines as a relation between states, and how each of its
-- services ends.
use jrpc.Base.{
  ℕ, ◌≡◌, ◌≢◌, refl, sym, subst, Option, none, some, true, false, List, [], All, All-append,
  nat_eq_iff, ◌∷◌, ◌++◌, Eq-ℕ, ◌⊎◌, inl, inr, arith, Option-cases,
}
use jrpc.Base.GoMap.{GoMap, get, put, delete, get-put, get-delete}
use jrpc.Errors.{GoError, is_err_closing}
use jrpc.Ledger.{count, unsettled, Ledger, Ledger-nil, Ledger-start, Ledger-continue, Ledger-exit}
use jrpc.Loop
use jrpc.Loop.{Loop, Stage, End, new_loop}
use jrpc.Options.{ServerOptions, server_of}
use jrpc.Server.State.{Server, start}
use jrpc.Server.Steps.{wait_status}

-- One step of the loop or of a goroutine. What a server does by itself is any change of its state.
pub data Step {A L R C T : Type 0} (opts : Option (ServerOptions L R C T)) (l k : Loop A)
    : Type 0 where
  accept : (e : Option GoError) → l.accepting ≡ true → k ≡ Loop.accept e l → Step opts l k
  begin : (n : ℕ) (assigner : GoError ⊎ A) → Loop.begin opts n assigner l ≡ some k → Step opts l k
  serve : (change : Server → Option Server) (n : ℕ) → Loop.serve change n l ≡ some k → Step opts l k
  cancel : (n : ℕ) → Loop.cancel n l ≡ some k → Step opts l k
  finish : (n : ℕ) → Loop.finish n l ≡ some k → Step opts l k
  return_error : (e : Option GoError) → Loop.return_error l ≡ some (e, k) → Step opts l k

-- The states that `Loop` comes to.
pub data Reach {A L R C T : Type 0} (opts : Option (ServerOptions L R C T)) : Loop A → Type 0 where
  new : Reach opts new_loop
  step : {l k : Loop A} → Reach opts l → Step opts l k → Reach opts k

-- A call of `Finish` was with the assigner that this service gave, when its server had stopped, and
-- with the status that `WaitStatus` gives of the server then.
abbrev pub Sound : {A : Type 0} → GoMap ℕ A → ℕ × End A → Type 0
Sound assigners (n, End.not_started e) = Unit
Sound assigners (n, End.finished a stat s) =
    (get n assigners ≡ some a) × (s.running ≡ false) × (wait_status s ≡ some stat)

-- The ledger of the connections, and what is known of the loop.
pub record Held {A : Type 0} (l : Loop A) : Type 0 where
  pub ledger : Ledger l.next l.goroutines l.ends
  pub started_with :
      (n : ℕ) (a : A) (s : Server)
      → get n l.goroutines ≡ some (Stage.serving a s)
      → get n l.assigners ≡ some a
  pub sound : All (Sound l.assigners) l.ends
  pub result : (e : GoError) → l.err ≡ some e → is_err_closing e ≡ false
  pub done : l.returned ≡ true → (l.accepting ≡ false) × (l.goroutines ≡ [])

module _ {A : Type 0} where
  Held-new : Held {A = A} new_loop
  unfolding new_loop get
  Held-new = record {
    ledger = Ledger-nil;
    started_with = λ n a s e. absurd (ground arith);
    sound = tt;
    result = λ e k. absurd (ground arith);
    done = λ e. absurd (ground arith);
  }

  -- A goroutine is there, so the loop has not returned.
  not_done :
      (l : Loop A) (n : ℕ) (g : Stage A) → get n l.goroutines ≡ some g → Held l → l.returned ≢ true
  unfolding get
  not_done l n g e h k = ground (arith, h.done k)

  -- A goroutine goes on, or exits.
  Held-continue :
      (l : Loop A) (n : ℕ) (g g' : Stage A)
      → get n l.goroutines ≡ some g
      → ((a : A) (s : Server) → g' ≡ Stage.serving a s → get n l.assigners ≡ some a)
      → Held l
      → Held (record l { goroutines = put n g' l.goroutines })
  Held-continue l n g g' e w h = record {
    ledger = Ledger-continue h.ledger n g e g';
    started_with = λ m a s q.
        ground (arith, get-put n m g' l.goroutines, nat_eq_iff n m, w a s, h.started_with m a s);
    sound = h.sound;
    result = h.result;
    done = λ k. absurd (not_done l n g e h k);
  }

  Held-exit :
      (l : Loop A) (n : ℕ) (g : Stage A) (f : End A)
      → get n l.goroutines ≡ some g
      → Sound l.assigners (n, f)
      → Held l
      → Held (record l { goroutines = delete n l.goroutines; ends = l.ends ++ (n, f) ∷ [] })
  Held-exit l n g f e w h = record {
    ledger = Ledger-exit h.ledger n g e f;
    started_with = λ m a s q. h.started_with m a s (ground (arith, get-delete n m l.goroutines));
    sound = All-append (Sound l.assigners) l.ends ((n, f) ∷ []) h.sound (w, tt);
    result = h.result;
    done = λ k. absurd (not_done l n g e h k);
  }

  -- The assigner of a service that has not ended.
  Sound-put :
      (n : ℕ) (a : A) (m : GoMap ℕ A) (l : List (ℕ × End A))
      → count n l ≡ 0
      → All (Sound m) l
      → All (Sound (put n a m)) l
  Sound-put n a m [] e h = tt
  Sound-put n a m ((k, End.not_started x) ∷ l) e (h, hs) = (tt, Sound-put n a m l (ground arith) hs)
  Sound-put n a m ((k, End.finished b stat s) ∷ l) e ((g, h, w), hs) = (
    (ground (arith, get-put n k a m, nat_eq_iff k n, nat_eq_iff n k), h, w),
    Sound-put n a m l (ground arith) hs,
  )

  Held-assign :
      (l : Loop A) (n : ℕ) (a : A)
      → get n l.goroutines ≡ some Stage.starting
      → Held l
      → Held (record l { assigners = put n a l.assigners })
  Held-assign l n a e h = record {
    ledger = h.ledger;
    started_with =
        λ m b s q. ground (arith, get-put n m a l.assigners, nat_eq_iff n m, h.started_with m b s);
    sound =
        Sound-put n a l.assigners l.ends
          (unsettled h.ledger n Stage.starting e n (ground (arith, nat_eq_iff n n))) h.sound;
    result = h.result;
    done = h.done;
  }

  accept-Held :
      (e : Option GoError) (l : Loop A) → l.accepting ≡ true → Held l → Held (Loop.accept e l)
  unfolding Loop.accept
  accept-Held none l up h = record {
    ledger = Ledger-start h.ledger Stage.starting;
    started_with = λ n a s q.
        h.started_with n a s (ground (arith, get-put l.next n Stage.starting l.goroutines));
    sound = h.sound;
    result = h.result;
    done = λ k. ground (arith, h.done k);
  }
  accept-Held (some e) l up h = record {
    ledger = h.ledger;
    started_with = h.started_with;
    sound = h.sound;
    result = λ x k. ground arith;
    done = λ k. ground (arith, h.done k);
  }

  serve-Held :
      (change : Server → Option Server) (n : ℕ) (l k : Loop A)
      → Loop.serve change n l ≡ some k
      → Held l
      → Held k
  unfolding Loop.serve
  serve-Held change n l k e h = elim (Option-cases (get n l.goroutines)) [
    | inl g ↦ absurd (ground arith)
    | inr (Stage.starting, g) ↦ absurd (ground arith)
    | inr (Stage.serving a s, g) ↦ elim (Option-cases (change s)) [
      | inl c ↦ absurd (ground arith)
      | inr (s', c) ↦ subst Held (ground arith) (
          Held-continue l n (Stage.serving a s) (Stage.serving a s') g
            (λ b u q. ground (arith, h.started_with n a s g)) h)
    ]
  ]

  cancel-Held : (n : ℕ) (l k : Loop A) → Loop.cancel n l ≡ some k → Held l → Held k
  unfolding Loop.cancel
  cancel-Held n l k e h = serve-Held _ n l k e h

  finish-Held : (n : ℕ) (l k : Loop A) → Loop.finish n l ≡ some k → Held l → Held k
  unfolding Loop.finish
  finish-Held n l k e h = elim (Option-cases (get n l.goroutines)) [
    | inl g ↦ absurd (ground arith)
    | inr (Stage.starting, g) ↦ absurd (ground arith)
    | inr (Stage.serving a s, g) ↦ elim (Option-cases (wait_status s)) [
      | inl c ↦ absurd (ground arith)
      | inr (stat, c) ↦ subst Held (ground arith) (
          Held-exit l n (Stage.serving a s) (End.finished a stat s) g
            (h.started_with n a s g, ground arith, c) h)
    ]
  ]

  Held-returned :
      (l : Loop A)
      → l.accepting ≡ false
      → l.goroutines ≡ []
      → Held l
      → Held (record l { returned = true })
  Held-returned l shut gone h = record {
    ledger = h.ledger;
    started_with = h.started_with;
    sound = h.sound;
    result = h.result;
    done = λ q. (shut, gone);
  }

  return_error-Held :
      (e : Option GoError) (l k : Loop A) → Loop.return_error l ≡ some (e, k) → Held l → Held k
  unfolding Loop.return_error
  return_error-Held e l k r h = ended l.goroutines refl
    where
      ended : (gs : GoMap ℕ (Stage A)) → l.goroutines ≡ gs → Held k
      ended [] g = subst Held (ground arith) (Held-returned l (ground arith) g h)
      ended (x ∷ xs) g = absurd (ground arith)

  module _ {L R C T : Type 0} (opts : Option (ServerOptions L R C T)) where
    begin-Held :
        (n : ℕ) (assigner : GoError ⊎ A) (l k : Loop A)
        → Loop.begin opts n assigner l ≡ some k
        → Held l
        → Held k
    unfolding Loop.begin
    begin-Held n assigner l k e h = elim (Option-cases (get n l.goroutines)) [
      | inl g ↦ absurd (ground arith)
      | inr (Stage.serving a s, g) ↦ absurd (ground arith)
      | inr (Stage.starting, g) ↦ begun assigner e g
    ]
      where
        begun :
            (x : GoError ⊎ A)
            → Loop.begin opts n x l ≡ some k
            → get n l.goroutines ≡ some Stage.starting
            → Held k
        begun (inl x) e g =
            subst Held (ground arith) (Held-exit l n Stage.starting (End.not_started x) g tt h)
        begun (inr a) e g = elim (Option-cases (start (server_of opts))) [
          | inl s ↦ absurd (ground arith)
          | inr (s, q) ↦ subst Held (ground arith) (
              Held-continue (record l { assigners = put n a l.assigners }) n Stage.starting
                (Stage.serving a s) g
                (λ b u q. ground (arith, get-put n n a l.assigners, nat_eq_iff n n))
                (Held-assign l n a g h))
        ]

    -- In every state of `Loop`, each connection that was accepted has a goroutine that runs, or one
    -- that ended once: by an error of its service, or by the one call of `Finish`. That call was with
    -- the assigner that the service had given, when its server had stopped, and with the status that
    -- `WaitStatus` gave of the server then. Once `Loop` has returned there is no goroutine left, and
    -- its error is not one that says that the listener was closed.
    pub Reach-Held : (l : Loop A) → Reach opts l → Held l
    Reach-Held l Reach.new = Held-new
    Reach-Held k (Reach.step {l} r s) = go s (Reach-Held l r)
      where
        go : Step opts l k → Held l → Held k
        go (Step.accept e up q) h = subst Held (sym q) (accept-Held e l up h)
        go (Step.begin n assigner q) h = begin-Held n assigner l k q h
        go (Step.serve change n q) h = serve-Held change n l k q h
        go (Step.cancel n q) h = cancel-Held n l k q h
        go (Step.finish n q) h = finish-Held n l k q h
        go (Step.return_error e q) h = return_error-Held e l k q h
