-- ===== src/Network/Tests.antt =====
-- Examples of addresses.
use jrpc.Base.{◌≡◌, ◌↔◌, refl, codes}
use jrpc.Network.Addresses.{network-Tcp, Tcp}
use jrpc.Network.{network, is_service_name}
use jrpc.Strings.{last_index, contains}

tcp_address : network (codes "[::1]:8080") ≡ (codes "tcp", codes "[::1]:8080")
unfolding network is_service_name last_index contains
tcp_address = refl

unix_address : network (codes "a/b:80") ≡ (codes "unix", codes "a/b:80")
unfolding network is_service_name last_index contains
unix_address = refl

network-Tcp_example :
    ((network (codes "db:5432") ≡ (codes "tcp", codes "db:5432")) ↔ Tcp (codes "db:5432"))
    × ((network (codes "db:5432") ≡ (codes "unix", codes "db:5432")) ↔ ¬ Tcp (codes "db:5432"))
network-Tcp_example = network-Tcp (codes "db:5432")
