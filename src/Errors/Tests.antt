-- ===== src/Errors/Tests.antt =====
-- Examples of errors and their codes.
use jrpc.Base.{◌≡◌, codes, [], ◌∷◌}
use jrpc.Code.{cancelled}
use jrpc.Errors.{err, from_error}
use jrpc.Errors.FromError.{wrap_opt, from_error-err}

from_error-err_example :
    from_error (wrap_opt (codes "outer" ∷ codes "inner" ∷ []) (err cancelled)) ≡ cancelled
from_error-err_example = from_error-err cancelled (codes "outer" ∷ codes "inner" ∷ [])
