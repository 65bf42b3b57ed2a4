-- ===== src/Queue/Tests.antt =====
-- Examples of a session with the queue.
use jrpc.Base.{ℕ, ◌≡◌, List, [], ◌∷◌}
use jrpc.Queue.{new_queue}
use jrpc.Queue.Session.{Op, queue_session, list_session, session-list}

abbrev ops : List (Op ℕ)
ops =
    Op.push (1 ∷ 2 ∷ [])
    ∷ Op.push (3 ∷ [])
    ∷ Op.pop
    ∷ Op.push (4 ∷ [])
    ∷ Op.each
    ∷ Op.size
    ∷ Op.reset
    ∷ Op.is_empty
    ∷ Op.pop
    ∷ []

session-list_example : queue_session ops new_queue ≡ list_session ops []
session-list_example = session-list ops
