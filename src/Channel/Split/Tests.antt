-- ===== src/Channel/Split/Tests.antt =====
-- Examples of messages that end by a fixed byte.
use jrpc.Base.{◌≡◌, codes, none, some, true, ◌++◌, ◌⊎◌, Bytes}
use jrpc.Channel.Split.{has_byte, send, recv}
use jrpc.Channel.Split.Lines.{cut, line_result, recv-cut, recv-send}

recv-cut_example : recv 10 (codes "{}\n[]\n") ≡ some (line_result (cut 10 (codes "{}\n[]\n")))
recv-cut_example = recv-cut 10 (codes "{}\n[]\n")

recv-send_example :
    (has_byte 10 (codes "{}") ≡ true) × (send 10 (codes "{}") ≡ none)
    ⊎ ((wire : Bytes) × (send 10 (codes "{}") ≡ some wire)
        × (recv 10 (wire ++ codes "[]\n")
            ≡ some (record { msg = some (codes "{}"); err = none; rest = codes "[]\n" })))
recv-send_example = recv-send 10 (codes "{}") (codes "[]\n")
