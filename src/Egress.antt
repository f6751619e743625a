-- ===== src/Egress.antt =====
-- internal/engine/uptime.go: which addresses the server may be made to connect to. An address is the bytes of
-- Go's net.IP, 4 or 16 of them; the tests of package net are written out.
pub mod Ranges
use apod.Base.{
  ℕ, ◌/◌, Bool, true, false, not, ◌&&◌, ◌||◌, Option, none, some, List, [], ◌∷◌, ◌==◌, nat_eq,
  if◌then◌else◌, length, drop, take, get_or,
}

abbrev pub nth : List ℕ → ℕ → ℕ
nth ip i = get_or 0 ip i

unfoldable pub all_zero : List ℕ → Bool
all_zero [] = true
all_zero (b ∷ bs) = b == 0 && all_zero bs

-- `ip.To4()`.
unfoldable pub to4 : List ℕ → Option (List ℕ)
unfolding all_zero
to4 ip =
    if length ip == 4
    then some ip
    else if length ip == 16 && all_zero (take 10 ip) && nth ip 10 == 255 && nth ip 11 == 255
    then some (drop 12 ip)
    else none

-- The tests on four bytes: loopback, private, link-local, multicast and unspecified.
unfoldable pub is_internal_v4 : List ℕ → Bool
unfolding all_zero
is_internal_v4 ip =
    nth ip 0 == 127
    || (nth ip 0 == 10
        || (nth ip 0 == 172 && nth ip 1 / 16 == 1)
        || (nth ip 0 == 192 && nth ip 1 == 168))
    || (nth ip 0 == 169 && nth ip 1 == 254)
    || (nth ip 0 == 224 && nth ip 1 == 0 && nth ip 2 == 0)
    || nth ip 0 / 16 == 14
    || all_zero ip

-- The range 100.64.0.0/10.
abbrev pub is_cgnat : List ℕ → Bool
is_cgnat ip = nth ip 0 == 100 && nth ip 1 / 64 == 1

-- The same on sixteen bytes.
unfoldable pub is_internal_v6 : List ℕ → Bool
unfolding all_zero
is_internal_v6 ip =
    (all_zero (take 15 ip) && nth ip 15 == 1)
    || nth ip 0 / 2 == 126
    || (nth ip 0 == 254 && nth ip 1 / 64 == 2)
    || nth ip 0 == 255
    || all_zero ip

-- `isPublicIP`; `none` is Go's nil.
unfoldable pub is_public_ip : Option (List ℕ) → Bool
unfolding to4 is_internal_v4 is_internal_v6
is_public_ip none = false
is_public_ip (some ip) = elim (to4 ip) [
  | some v4 ↦ not (is_internal_v4 v4) && not (is_cgnat v4)
  | none ↦ not (is_internal_v6 ip)
]
