-- ===== src/Queue/Refine.antt =====
-- What the linked queue stands for: the list of its batches, the first to leave in front.
use jrpc.Base.{
  ℕ, zero, suc, ◌+◌, ◌<◌, ◌≡◌, refl, sym, ◌∙◌, Option, none, some, Bool, true, false, List, [], ◌∷◌,
  ◌++◌, append_assoc, nat_eq, arith, All, ap, length, length-append, subst, if◌then◌else◌,
}
use jrpc.Queue.{
  Entry, Queue, entry, write, new_queue, is_empty, size, reset, push, unlink, pop, visit, each,
}
use jrpc.Queue.Chain
use jrpc.Queue.Chain.{has, Distinct, last, Chain, contents}

-- The entries at the addresses `used` hold `xs` in order, from the one behind the front to the
-- back, and those at `spare` are free; no address is in both, or twice, or still to be given out.
pub record Holds {A : Type 0} (q : Queue A) (used spare : List ℕ) (xs : List (List A))
    : Type 0 where
  pub chain : Chain q.heap (q.heap q.front).link used
  pub held : contents q.heap used ≡ xs
  pub back : q.back ≡ last q.front used
  pub count : q.nelts ≡ length xs
  pub free_chain : Chain q.heap q.free spare
  pub distinct : Distinct ((q.front ∷ used) ++ spare)
  pub bound : All (λ a. a < q.fresh) ((q.front ∷ used) ++ spare)

-- The queue stands for the list.
abbrev pub Repr : {A : Type 0} → Queue A → List (List A) → Type 0
Repr q xs = (used : List ℕ) × (spare : List ℕ) × Holds q used spare xs

-- The back when the first address behind the front leaves.
last_left :
    (out front back : ℕ) (used : List ℕ)
    → has out used ≡ false
    → back ≡ last out used
    → (if nat_eq out back then front else back) ≡ last front used
last_left out front back [] h e = ground arith
last_left out front back (b ∷ rest) h e = ground (arith, Chain.has-last b rest)

module _ {A : Type 0} where
  new_queue-Holds : Holds {A = A} new_queue [] [] []
  unfolding new_queue
  new_queue-Holds = record {
    chain = refl;
    held = refl;
    back = refl;
    count = refl;
    free_chain = refl;
    distinct = (refl, tt);
    bound = (omega arith, tt);
  }

  -- What `push` does with the entry that it got: it goes behind the back.
  attach : ℕ → Queue A → Queue A
  unfolding write
  attach e s = record s {
    heap = write s.heap s.back (record (s.heap s.back) { link = some e });
    back = e;
    nelts = s.nelts + 1;
  }

  -- An entry out of use that holds `m` and is last in its chain is attached.
  attach-Holds :
      (s : Queue A) (e : ℕ) (used spare : List ℕ) (xs : List (List A)) (m : List A)
      → s.heap e ≡ entry m none
      → Chain s.heap (s.heap s.front).link used
      → contents s.heap used ≡ xs
      → s.back ≡ last s.front used
      → s.nelts ≡ length xs
      → Chain s.heap s.free spare
      → Distinct ((s.front ∷ used) ++ e ∷ spare)
      → All (λ a. a < s.fresh) ((s.front ∷ used) ++ e ∷ spare)
      → Holds (attach e s) (used ++ e ∷ []) spare (xs ++ m ∷ [])
  unfolding attach
  attach-Holds s e used spare xs m at c held back count f d b =
      let (out, others) = Chain.Distinct-middle (s.front ∷ used) e spare d in
      let both = Chain.has-append e (s.front ∷ used) spare in
      let out_used : has e (s.front ∷ used) ≡ false = ground arith in
      let out_back : has s.back (e ∷ spare) ≡ false = ground (
        arith,
        Chain.has-last s.front used,
        Chain.Distinct-apart (s.front ∷ used) (e ∷ spare) s.back d,
      ) in
      record {
        chain = ground (
          arith,
          back,
          Chain.Chain-snoc s.heap s.front used e (Chain.Distinct-left (s.front ∷ used) _ d)
              out_used,
        );
        held =
            Chain.contents-relink s.heap (used ++ e ∷ []) s.back (some e)
            ∙ Chain.contents-append s.heap used (e ∷ [])
            ∙ ground arith;
        back = sym (Chain.last-append s.front used e);
        count = ground (arith, length-append xs (m ∷ []));
        free_chain = Chain.Chain-write s.heap s.free spare s.back _ (ground arith) f;
        distinct = subst Distinct (sym (append_assoc (s.front ∷ used) (e ∷ []) spare)) d;
        bound =
            subst (All (λ a. a < s.fresh)) (sym (append_assoc (s.front ∷ used) (e ∷ []) spare)) b;
      }

  -- An entry out of use, at `e`, gets new content: nothing that is in use or spare changes.
  refill-Holds :
      (q : Queue A) (e : ℕ) (next : Option ℕ) (n : ℕ) (used spare : List ℕ) (xs : List (List A))
      (m : List A)
      → Chain q.heap (q.heap q.front).link used
      → contents q.heap used ≡ xs
      → q.back ≡ last q.front used
      → q.nelts ≡ length xs
      → Chain q.heap next spare
      → Distinct ((q.front ∷ used) ++ e ∷ spare)
      → All (λ a. a < n) ((q.front ∷ used) ++ e ∷ spare)
      → Holds
          (attach e (record q { heap = write q.heap e (entry m none); free = next; fresh = n }))
          (used ++ e ∷ [])
          spare
          (xs ++ m ∷ [])
  unfolding write
  refill-Holds q e next n used spare xs m c held back count f d b =
      let (out, others) = Chain.Distinct-middle (q.front ∷ used) e spare d in
      let both = Chain.has-append e (q.front ∷ used) spare in
      let out_used : has e used ≡ false = ground arith in
      let out_front : nat_eq q.front e ≡ false = ground arith in
      attach-Holds (record q { heap = write q.heap e (entry m none); free = next; fresh = n }) e
        used spare xs m (ground arith)
        (rw out_front (Chain.Chain-write q.heap (q.heap q.front).link used e _ out_used c))
        (Chain.contents-write q.heap used e _ out_used ∙ held) back count
        (Chain.Chain-write q.heap next spare e _ (ground arith) f) d b

  push_fresh :
      (q : Queue A) (m : List A)
      → q.free ≡ none
      → push m q
        ≡ attach q.fresh (record q {
          heap = write q.heap q.fresh (entry m none);
          free = none;
          fresh = q.fresh + 1;
        })
  unfolding push attach
  push_fresh q m e = ground arith

  push_fresh-Holds :
      (q : Queue A) (used : List ℕ) (xs : List (List A)) (m : List A)
      → q.free ≡ none
      → Holds q used [] xs
      → Holds (push m q) (used ++ q.fresh ∷ []) [] (xs ++ m ∷ [])
  push_fresh-Holds q used xs m e v =
      let ls : List ℕ = q.front ∷ used in
      let apart = Chain.not-has_of_bound q.fresh (ls ++ []) v.bound in
      subst (λ w. Holds w (used ++ q.fresh ∷ []) [] (xs ++ m ∷ [])) (sym (push_fresh q m e))
        (refill-Holds q q.fresh none (q.fresh + 1) used [] xs m v.chain v.held v.back v.count refl
          (Chain.middle-Distinct ls q.fresh [] (apart, v.distinct))
          (Chain.All-middle (q.fresh + 1) q.fresh ls [] (omega arith)
            (Chain.All-suc q.fresh (ls ++ []) v.bound)))

  push_spare-Holds :
      (q : Queue A) (out : ℕ) (used spare : List ℕ) (xs : List (List A)) (m : List A)
      → Holds q used (out ∷ spare) xs
      → Holds (push m q) (used ++ out ∷ []) spare (xs ++ m ∷ [])
  unfolding push attach
  push_spare-Holds q out used spare xs m v =
      let (e, f) = v.free_chain in
      rw e (
        refill-Holds q out (q.heap out).link q.fresh used spare xs m v.chain v.held v.back v.count f
          v.distinct v.bound)

  -- `push` appends.
  pub push-append :
      (m : List A) {q : Queue A} {xs : List (List A)} → Repr q xs → Repr (push m q) (xs ++ m ∷ [])
  push-append m {q} {xs} (used, [], v) =
      (used ++ q.fresh ∷ [], [], push_fresh-Holds q used xs m v.free_chain v)
  push-append m {q} {xs} (used, out ∷ spare, v) =
      (used ++ out ∷ [], spare, push_spare-Holds q out used spare xs m v)

  -- `pop` takes the first batch off, and its entry becomes spare.
  unlink-Holds :
      (q : Queue A) (out : ℕ) (used spare : List ℕ) (x : List A) (xs : List (List A))
      → Holds q (out ∷ used) spare (x ∷ xs)
      → ((unlink out q).0 ≡ x) × Holds (unlink out q).1 used (out ∷ spare) xs
  unfolding unlink
  unlink-Holds q out used spare x xs v =
      let (chain, rest) = v.chain in
      let (front_out, others) = v.distinct in
      let front_split = Chain.has-append q.front used spare in
      let out_split = Chain.has-append out used spare in
      let ne : nat_eq q.front out ≡ false = ground arith in
      let ne' : nat_eq out q.front ≡ false = ground arith in
      let h = write q.heap q.front (record (q.heap q.front) { link = (q.heap out).link }) in
      let front_used : has q.front used ≡ false = ground arith in
      let out_used : has out used ≡ false = ground arith in
      (
        ground arith,
        record {
          chain =
              subst (λ l. Chain (write h out (entry [] q.free)) l used) (ground arith)
                (Chain.Chain-write h (q.heap out).link used out (entry [] q.free) out_used
                  (Chain.Chain-write q.heap (q.heap out).link used q.front _ front_used rest));
          held =
              Chain.contents-write h used out (entry [] q.free) out_used
              ∙ Chain.contents-write q.heap used q.front _ front_used
              ∙ ground arith;
          back = last_left out q.front q.back used out_used v.back;
          count = ground arith;
          free_chain = (
            refl,
            ground (
              arith,
              Chain.Chain-write h q.free spare out (entry [] q.free) (ground arith)
                  (Chain.Chain-write q.heap q.free spare q.front _ (ground arith) v.free_chain),
            ),
          );
          distinct =
              Chain.middle-Distinct (q.front ∷ used) out spare
                (Chain.Distinct-middle (q.front ∷ []) out (used ++ spare) v.distinct);
          bound =
              Chain.All-middle q.fresh out (q.front ∷ used) spare v.bound.1.0
                (v.bound.0, v.bound.1.1);
        },
      )

  abbrev pub is_nil : List (List A) → Bool
  is_nil [] = true
  is_nil (x ∷ xs) = false

  -- `pop` panics on an empty queue, and otherwise returns the first batch and leaves the others.
  pub pop-nil : {q : Queue A} → Repr q [] → pop q ≡ none
  unfolding pop
  pop-nil ([], spare, v) = rw (v.chain, pop)
  pop-nil (a ∷ used, spare, v) = cc v.held

  pub pop-cons :
      {q : Queue A} {x : List A} {xs : List (List A)}
      → Repr q (x ∷ xs)
      → (q' : Queue A) × (pop q ≡ some (x, q')) × Repr q' xs
  unfolding pop
  pop-cons ([], spare, v) = cc v.held
  pop-cons {q} {x} {xs} (out ∷ used, spare, v) =
      let (got, after) = unlink-Holds q out used spare x xs v in
      let (first, rest) = v.chain in
      ((unlink out q).1, rw (first, pop) (cc got), (used, out ∷ spare, after))

  pub is_empty-is_nil : {q : Queue A} {xs : List (List A)} → Repr q xs → is_empty q ≡ is_nil xs
  unfolding is_empty
  is_empty-is_nil {xs = []} ([], spare, v) = rw v.chain
  is_empty-is_nil {xs = []} (a ∷ used, spare, v) = cc v.held
  is_empty-is_nil {xs = x ∷ xs} ([], spare, v) = cc v.held
  is_empty-is_nil {xs = x ∷ xs} (a ∷ used, spare, v) = rw v.chain.0

  pub size-length : {q : Queue A} {xs : List (List A)} → Repr q xs → size q ≡ length xs
  unfolding size
  size-length (used, spare, v) = v.count

  -- `reset` empties the queue. What was queued is not kept for reuse.
  pub reset-nil : {q : Queue A} {xs : List (List A)} → Repr q xs → Repr (reset q) []
  unfolding reset
  reset-nil {q} (used, spare, v) =
      let (front_out, others) = v.distinct in
      let front_spare : has q.front spare ≡ false =
        ground (arith, Chain.has-append q.front used spare) in
      (
        [],
        spare,
        record {
          chain = ground arith;
          held = refl;
          back = refl;
          count = refl;
          free_chain = Chain.Chain-write q.heap q.free spare q.front _ front_spare v.free_chain;
          distinct = (front_spare, Chain.Distinct-right used spare others);
          bound = (v.bound.0, Chain.All-right q.fresh used spare v.bound.1);
        },
      )

  visit-contents :
      (h : ℕ → Entry A) (k : ℕ) (p : Option ℕ) (used : List ℕ)
      → Chain h p used
      → length used < k
      → visit h k p ≡ some (contents h used)
  unfolding visit
  visit-contents h zero p used c m = absurd (omega arith)
  visit-contents h (suc k) p [] c m = rw c
  visit-contents h (suc k) p (a ∷ used) (e, c) m =
      rw (e, visit, visit-contents h k (h a).link used c (omega arith))

  length-contents : (h : ℕ → Entry A) (used : List ℕ) → length (contents h used) ≡ length used
  length-contents h [] = refl
  length-contents h (a ∷ used) = ap suc (length-contents h used)

  -- `each` calls its argument with the batches in order, and ends.
  pub each_lem : {q : Queue A} {xs : List (List A)} → Repr q xs → each q ≡ some xs
  unfolding each
  each_lem {q} {xs} (used, spare, v) =
      let n = length-contents q.heap used in
      visit-contents q.heap (q.nelts + 1) (q.heap q.front).link used v.chain
        (omega (arith, v.count, ap length v.held))
      ∙ ap some v.held

  pub new_queue-nil : Repr {A = A} new_queue []
  new_queue-nil = ([], [], new_queue-Holds)
