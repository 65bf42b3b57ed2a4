-- ===== src/Channel/Header/Tests.antt =====
-- Examples of messages behind headers.
use jrpc.Base.{◌≡◌, refl, ◌^◌, Bytes, codes, none, some, ◌++◌, arith}
use jrpc.Channel.Split.{has_byte}
use jrpc.Channel.Header.{send, recv, strict_recv, Received, trim_eol, trim_space, trim_right}
use jrpc.Message.{trim_left, space_width}
use jrpc.Channel.Header.Total.{strict_recv-total}
use jrpc.Channel.Header.Values.{Plain}
use jrpc.Channel.Header.RoundTrip.{strict_recv-send}

abbrev mime : Bytes
mime = codes "application/vscode-jsonrpc; charset=utf-8"

mime-Plain : Plain mime
unfolding has_byte trim_eol trim_space trim_right trim_left space_width
mime-Plain = (refl, refl, refl)

strict_recv-send_example :
    (strict_recv (2 ^ 48) mime 0 (send mime (codes "[]") ++ codes "Content")
      ≡ some (Received.returned (some (codes "[]")) none 4 (codes "Content")))
    × (recv (2 ^ 48) mime 0 (send mime (codes "[]") ++ codes "Content")
        ≡ some (Received.returned (some (codes "[]")) none 4 (codes "Content")))
strict_recv-send_example =
    strict_recv-send (2 ^ 48) mime (codes "[]") (codes "Content") 0 mime-Plain (omega arith)
      (omega arith)

strict_recv-total_example :
    (r : Received) × (strict_recv 1000 mime 0 (codes "Content-Length: 9\r\n\r\n[]") ≡ some r)
strict_recv-total_example = strict_recv-total 1000 mime 0 (codes "Content-Length: 9\r\n\r\n[]")
