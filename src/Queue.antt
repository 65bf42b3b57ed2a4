-- ===== src/Queue.antt =====
-- queue.go: a linked queue of batches with a list of entries for reuse, over an explicit heap.
pub mod Chain
pub mod Refine
pub mod Session
mod Tests
use jrpc.Base.{
  ℕ, zero, suc, ◌+◌, ◌-◌, ◌≡◌, Option, none, some, Bool, List, [], ◌∷◌, ◌++◌, nat_eq, is_none,
  if◌then◌else◌,
}

-- `entry`; the field `data` is named `content`, and a nil slice is the empty list.
pub record Entry (A : Type 0) : Type 0 where
  pub content : List A
  pub link : Option ℕ

-- `queue` with its entries at addresses; `fresh` is the next address that `new` gives out.
pub record Queue (A : Type 0) : Type 0 where
  pub heap : ℕ → Entry A
  pub fresh : ℕ
  pub front : ℕ
  pub back : ℕ
  pub free : Option ℕ
  pub nelts : ℕ

module _ {A : Type 0} where
  abbrev pub entry : List A → Option ℕ → Entry A
  entry c l = record { content = c; link = l }

  unfoldable pub write : (ℕ → Entry A) → ℕ → Entry A → ℕ → Entry A
  write h p e a = if nat_eq a p then e else h a

  -- `newQueue`
  unfoldable pub new_queue : Queue A
  new_queue = record {
    heap = λ _. entry [] none;
    fresh = 1;
    front = 0;
    back = 0;
    free = none;
    nelts = 0;
  }

  unfoldable pub is_empty : Queue A → Bool
  is_empty q = is_none (q.heap q.front).link

  unfoldable pub size : Queue A → ℕ
  size q = q.nelts

  unfoldable pub reset : Queue A → Queue A
  unfolding write
  reset q = record q {
    heap = write q.heap q.front (record (q.heap q.front) { link = none });
    back = q.front;
    nelts = 0;
  }

  -- `alloc`: the new state and the entry's address.
  unfoldable pub alloc : List A → Queue A → ℕ × Queue A
  unfolding write
  alloc m q = elim q.free [
    | none ↦ (q.fresh, record q { heap = write q.heap q.fresh (entry m none); fresh = q.fresh + 1 })
    | some out ↦
        (out, record q { heap = write q.heap out (entry m none); free = (q.heap out).link })
  ]

  unfoldable pub release : ℕ → Queue A → Queue A
  unfolding write
  release e q = record q { heap = write q.heap e (entry [] q.free); free = some e }

  unfoldable pub push : List A → Queue A → Queue A
  unfolding alloc write
  push m q =
      let (e, s) = alloc m q in
      record s {
        heap = write s.heap s.back (record (s.heap s.back) { link = some e });
        back = e;
        nelts = s.nelts + 1;
      }

  -- `pop` behind the test for an empty queue, with the first entry's address.
  unfoldable pub unlink : ℕ → Queue A → List A × Queue A
  unfolding release write
  unlink out q =
      let s = record q {
        heap = write q.heap q.front (record (q.heap q.front) { link = (q.heap out).link });
        back = if nat_eq out q.back then q.front else q.back;
        nelts = q.nelts - 1;
      } in
      ((s.heap out).content, release out s)

  -- `pop`; `none` is the panic on an empty queue.
  unfoldable pub pop : Queue A → Option (List A × Queue A)
  unfolding unlink
  pop q = elim (q.heap q.front).link [ none ↦ none | some out ↦ some (unlink out q) ]

  -- The loop of `each`: what `f` is called with, one by one. It is given `nelts + 1` rounds; `none`
  -- means that they did not suffice.
  unfoldable pub visit : (ℕ → Entry A) → ℕ → Option ℕ → Option (List (List A))
  visit h zero cur = none
  visit h (suc k) none = some []
  visit h (suc k) (some a) = elim (visit h k (h a).link) [
    | none ↦ none
    | some rest ↦ some ((h a).content ∷ rest)
  ]

  unfoldable pub each : Queue A → Option (List (List A))
  unfolding visit
  each q = visit q.heap (q.nelts + 1) (q.heap q.front).link
