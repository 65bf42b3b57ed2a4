-- ===== src/Metrics.antt =====
-- metrics/metrics.go: a collector of counters, maxima and labels. The methods do nothing on a nil
-- collector, which is `none`.
mod Tests
pub mod Snapshots
use jrpc.Base.{
  Bytes, Option, none, some, Bool, true, false, List, [], ◌∷◌, ◌==◌, if◌then◌else◌, Eq-Bytes,
}
use jrpc.Base.Int.{ℤ, pos, add64, ltb_ℤ}
use jrpc.Base.GoMap.{GoMap, get, put, delete}

-- The counters and maxima of `M`, which are all that the server changes.
pub record Metrics : Type 0 where
  pub counter : GoMap Bytes ℤ
  pub max_val : GoMap Bytes ℤ

abbrev pub empty_metrics : Metrics
empty_metrics = record { counter = []; max_val = [] }

-- `m.counter[name]`, 0 where it is missing.
abbrev pub count_of : Bytes → Metrics → ℤ
count_of name m = elim (get name m.counter) [ none ↦ pos 0 | some n ↦ n ]

unfoldable pub add_count : Bytes → ℤ → Metrics → Metrics
unfolding get put
add_count name n m = record m { counter = put name (add64 (count_of name m) n) m.counter }

unfoldable pub raise_max : Bytes → ℤ → Metrics → Metrics
unfolding get put
raise_max name n m = elim (get name m.max_val) [
  | none ↦ record m { max_val = put name n m.max_val }
  | some old ↦ if ltb_ℤ old n then record m { max_val = put name n m.max_val } else m
]

unfoldable pub count_and_raise : Bytes → ℤ → Metrics → Metrics
unfolding add_count raise_max
count_and_raise name n m = add_count name n (raise_max name n m)

-- A label's value, or a function that is called for it.
pub data Label (L : Type 0) : Type 0 where
  value : L → Label L
  computed : (Unit {0} → L) → Label L

-- `M`
pub record Collector (L : Type 0) : Type 0 where
  pub metrics : Metrics
  pub label : GoMap Bytes (Label L)

module _ {L : Type 0} where
  abbrev pub on_metrics : (Metrics → Metrics) → Option (Collector L) → Option (Collector L)
  on_metrics f none = none
  on_metrics f (some m) = some (record m { metrics = f m.metrics })

  -- `New`
  abbrev pub new_collector : Option (Collector L)
  new_collector = some (record { metrics = empty_metrics; label = [] })

  -- `Count`, `SetMaxValue`, `CountAndSetMax`
  unfoldable pub count : Bytes → ℤ → Option (Collector L) → Option (Collector L)
  unfolding add_count
  count name n = on_metrics (add_count name n)

  unfoldable pub set_max_value : Bytes → ℤ → Option (Collector L) → Option (Collector L)
  unfolding raise_max
  set_max_value name n = on_metrics (raise_max name n)

  unfoldable pub count_and_set_max : Bytes → ℤ → Option (Collector L) → Option (Collector L)
  unfolding count_and_raise
  count_and_set_max name n = on_metrics (count_and_raise name n)

  -- `SetLabel`; `none` is a nil value.
  unfoldable pub set_label : Bytes → Option (Label L) → Option (Collector L) → Option (Collector L)
  unfolding put delete
  set_label name v none = none
  set_label name none (some m) = some (record m { label = delete name m.label })
  set_label name (some v) (some m) = some (record m { label = put name v m.label })

  -- `EditLabel`
  unfoldable pub edit_label :
      Bytes → (Option (Label L) → Option (Label L)) → Option (Collector L) → Option (Collector L)
  unfolding set_label get
  edit_label name edit none = none
  edit_label name edit (some m) = set_label name (edit (get name m.label)) (some m)

-- `for name, val := range m { c[name] = f(val) }`
unfoldable pub copy_into : {V W : Type 0} → (V → W) → GoMap Bytes V → GoMap Bytes W → GoMap Bytes W
unfolding put
copy_into f [] c = c
copy_into f ((name, v) ∷ m) c = copy_into f m (put name (f v) c)

-- `Snapshot`; a nil field is `none`.
pub record Snapshot (L : Type 0) : Type 0 where
  pub counter : Option (GoMap Bytes ℤ)
  pub max_value : Option (GoMap Bytes ℤ)
  pub label : Option (GoMap Bytes L)

abbrev pub resolve : {L : Type 0} → Label L → L
resolve (Label.value v) = v
resolve (Label.computed f) = f tt

abbrev pub fill :
    {V W : Type 0} → (V → W) → GoMap Bytes V → Option (GoMap Bytes W) → Option (GoMap Bytes W)
fill f m none = none
fill f m (some c) = some (copy_into f m c)

-- `M.Snapshot`: what the caller's maps hold afterwards.
unfoldable pub snapshot : {L : Type 0} → Option (Collector L) → Snapshot L → Snapshot L
unfolding copy_into
snapshot none snap = snap
snapshot (some m) snap = record {
  counter = fill (λ v. v) m.metrics.counter snap.counter;
  max_value = fill (λ v. v) m.metrics.max_val snap.max_value;
  label = fill resolve m.label snap.label;
}
