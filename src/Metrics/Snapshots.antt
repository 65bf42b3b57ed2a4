-- ===== src/Metrics/Snapshots.antt =====
-- What the collector reports.
use jrpc.Base.{
  Bytes, Option, none, some, List, [], ◌∷◌, ◌==◌, ==_iff, if◌then◌else◌, Eq-Bytes, ◌≡◌, refl, arith,
}
use jrpc.Base.Int.{ℤ, add64, ltb_ℤ}
use jrpc.Base.GoMap.{get, get-put}
use jrpc.Metrics.{Metrics, count_of, add_count, raise_max, count_and_raise}

-- One change of a counter or a maximum.
pub data Change : Type 0 where
  count : Bytes → ℤ → Change
  set_max : Bytes → ℤ → Change
  both : Bytes → ℤ → Change

abbrev pub apply : List Change → Metrics → Metrics
apply [] m = m
apply (Change.count name n ∷ cs) m = apply cs (add_count name n m)
apply (Change.set_max name n ∷ cs) m = apply cs (raise_max name n m)
apply (Change.both name n ∷ cs) m = apply cs (count_and_raise name n m)

-- The sum that a run of changes leaves in a counter, each addition in an `int64`.
abbrev pub total : Bytes → ℤ → List Change → ℤ
total name acc [] = acc
total name acc (Change.count k n ∷ cs) = total name (if k == name then add64 acc n else acc) cs
total name acc (Change.set_max k n ∷ cs) = total name acc cs
total name acc (Change.both k n ∷ cs) = total name (if k == name then add64 acc n else acc) cs

-- The greatest value that a run of changes gives a maximum, `none` if it gives none.
abbrev pub later_max : Option ℤ → ℤ → Option ℤ
later_max none n = some n
later_max (some old) n = some (if ltb_ℤ old n then n else old)

abbrev pub greatest : Bytes → Option ℤ → List Change → Option ℤ
greatest name best [] = best
greatest name best (Change.count k n ∷ cs) = greatest name best cs
greatest name best (Change.set_max k n ∷ cs) =
    greatest name (if k == name then later_max best n else best) cs
greatest name best (Change.both k n ∷ cs) =
    greatest name (if k == name then later_max best n else best) cs

count_of-add_count :
    (k name : Bytes) (n : ℤ) (m : Metrics)
    → (count_of name (add_count k n m)
        ≡ (if k == name then add64 (count_of name m) n else count_of name m))
      × (get name (add_count k n m).max_val ≡ get name m.max_val)
unfolding add_count
count_of-add_count k name n m =
    ground (arith, get-put k name (add64 (count_of k m) n) m.counter, ==_iff k name)

max-raise_max :
    (k name : Bytes) (n : ℤ) (m : Metrics)
    → (get name (raise_max k n m).max_val
        ≡ (if k == name then later_max (get name m.max_val) n else get name m.max_val))
      × (count_of name (raise_max k n m) ≡ count_of name m)
unfolding raise_max
max-raise_max k name n m = ground (arith, get-put k name n m.max_val, ==_iff k name)

-- After any run of changes each counter has the sum, in 64 bits, of what was added to it and each maximum the
-- greatest of what was given to it; changes under other names leave them alone.
pub apply_lem :
    (cs : List Change) (name : Bytes) (m : Metrics)
    → (count_of name (apply cs m) ≡ total name (count_of name m) cs)
      × (get name (apply cs m).max_val ≡ greatest name (get name m.max_val) cs)
unfolding count_and_raise
apply_lem [] name m = (refl, refl)
apply_lem (Change.count k n ∷ cs) name m =
    ground (arith, count_of-add_count k name n m, apply_lem cs name (add_count k n m))
apply_lem (Change.set_max k n ∷ cs) name m =
    ground (arith, max-raise_max k name n m, apply_lem cs name (raise_max k n m))
apply_lem (Change.both k n ∷ cs) name m = ground (
  arith,
  max-raise_max k name n m,
  count_of-add_count k name n (raise_max k n m),
  apply_lem cs name (count_and_raise k n m),
)
