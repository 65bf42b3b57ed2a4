-- ===== src/Metrics/Tests.antt =====
-- Examples of counters.
use jrpc.Base.{◌≡◌, codes, none, Eq-Bytes, List, [], ◌∷◌}
use jrpc.Base.Int.{pos, negsuc}
use jrpc.Base.GoMap.{get}
use jrpc.Metrics.{empty_metrics, count_of}
use jrpc.Metrics.Snapshots.{Change, apply, total, greatest, apply_lem}

abbrev changes : List Change
changes =
    Change.count (codes "a") (pos 3)
    ∷ Change.both (codes "a") (pos 5)
    ∷ Change.set_max (codes "a") (negsuc 0)
    ∷ Change.count (codes "b") (pos 1)
    ∷ []

apply_lem_example :
    (count_of (codes "a") (apply changes empty_metrics) ≡ total (codes "a") (pos 0) changes)
    × (get (codes "a") (apply changes empty_metrics).max_val ≡ greatest (codes "a") none changes)
unfolding get
apply_lem_example = apply_lem changes (codes "a") empty_metrics
