-- ===== src/Network.antt =====
-- `Network` of base.go: the network that an address is for.
pub mod Addresses
mod Tests
use jrpc.Base.{
  ℕ, zero, suc, ◌+◌, Bytes, codes, Option, none, some, Bool, true, false, not, ◌&&◌, ◌||◌, List, [],
  ◌∷◌, ◌==◌, if◌then◌else◌, leb, nat_eq, take, drop, Eq-Bytes,
}
use jrpc.Strings.{last_index, contains}

-- The test of `isServiceName` on one byte.
abbrev pub is_service_byte : ℕ → Bool
is_service_byte b =
    (leb 48 b && leb b 57) || (leb 65 b && leb b 90) || (leb 97 b && leb b 122) || nat_eq b 45

-- `isServiceName`. Its loop takes the first byte of each rune, and no rune that starts with such a byte
-- has a second one.
unfoldable pub is_service_name : Bytes → Bool
is_service_name [] = true
is_service_name (b ∷ s) = if is_service_byte b then is_service_name s else false

-- `Network`
unfoldable pub network : Bytes → Bytes × Bytes
unfolding is_service_name last_index contains
network s = elim (last_index 58 s) [
  | none ↦ (codes "unix", s)
  | some i ↦
      if drop (suc i) s == [] || not (is_service_name (drop (suc i) s))
      then (codes "unix", s)
      else if contains 47 (take i s)
      then (codes "unix", s)
      else (codes "tcp", s)
]
