-- ===== src/Egress/Ranges.antt =====
-- The addresses that are refused, as ranges of 32-bit numbers.
use apod.Base.{
  ℕ, ◌+◌, ◌*◌, ◌/◌, ◌<◌, ◌≡◌, sym, Bool, true, not, ◌&&◌, ◌||◌, some, [], ◌∷◌, ◌==◌, nat_eq, ltb,
  leb, arith,
}
use apod.Egress.{all_zero, to4, is_internal_v4, is_public_ip}

-- A range by its first address and the one after its last.
abbrev pub within : ℕ → ℕ → ℕ → Bool
within lo hi n = leb lo n && ltb n hi

-- 0.0.0.0, 10.0.0.0/8, 100.64.0.0/10, 127.0.0.0/8, 169.254.0.0/16, 172.16.0.0/12, 192.168.0.0/16, 224.0.0.0/4.
abbrev pub is_reserved : ℕ → Bool
is_reserved n =
    n == 0
    || within 167772160 184549376 n
    || within 1681915904 1686110208 n
    || within 2130706432 2147483648 n
    || within 2851995648 2852061184 n
    || within 2886729728 2887778304 n
    || within 3232235520 3232301056 n
    || within 3758096384 4026531840 n

abbrev pub number : ℕ → ℕ → ℕ → ℕ → ℕ
number a b c d = a * 16777216 + b * 65536 + c * 256 + d

-- The order of the tests does not matter, and a test that is part of another one changes nothing.
reorder :
    (z t cg lo ll cb cc mc lm : Bool)
    → (lm ≡ true → mc ≡ true)
    → (not (lo || (t || cb || cc) || ll || lm || mc || z) && not cg)
      ≡ not (z || t || cg || lo || ll || cb || cc || mc)
reorder z t cg lo ll cb cc mc lm h = ground arith

module _ (a b c d : ℕ) (ha : a < 256) (hb : b < 256) (hc : c < 256) (hd : d < 256) where
  abbrev n : ℕ
  n = number a b c d

  zero_address : (a == 0 && (b == 0 && (c == 0 && (d == 0 && true)))) ≡ (n == 0)
  zero_address = ground arith

  class_a : (a == 10) ≡ within 167772160 184549376 n
  class_a = ground arith

  carrier : (a == 100 && b / 64 == 1) ≡ within 1681915904 1686110208 n
  carrier = ground arith

  loopback : (a == 127) ≡ within 2130706432 2147483648 n
  loopback = ground arith

  link_local : (a == 169 && b == 254) ≡ within 2851995648 2852061184 n
  link_local = ground arith

  class_b : (a == 172 && b / 16 == 1) ≡ within 2886729728 2887778304 n
  class_b = ground arith

  class_c : (a == 192 && b == 168) ≡ within 3232235520 3232301056 n
  class_c = ground arith

  multicast : (a / 16 == 14) ≡ within 3758096384 4026531840 n
  multicast = ground arith

  -- One test is about a part of another one's range.
  local_multicast : (a == 224 && b == 0 && c == 0) ≡ true → (a / 16 == 14) ≡ true
  local_multicast h = ground arith

  same_tests :
      (z t cg lo ll cb cc mc : Bool)
      → (a == 0 && (b == 0 && (c == 0 && (d == 0 && true)))) ≡ z
      → (a == 10) ≡ t
      → (a == 100 && b / 64 == 1) ≡ cg
      → (a == 127) ≡ lo
      → (a == 169 && b == 254) ≡ ll
      → (a == 172 && b / 16 == 1) ≡ cb
      → (a == 192 && b == 168) ≡ cc
      → (a / 16 == 14) ≡ mc
      → is_public_ip (some (a ∷ b ∷ c ∷ d ∷ [])) ≡ not (z || t || cg || lo || ll || cb || cc || mc)
  unfolding is_public_ip is_internal_v4 to4 all_zero
  same_tests z t cg lo ll cb cc mc e1 e2 e3 e4 e5 e6 e7 e8 =
      rw (sym e1, sym e2, sym e3, sym e4, sym e5, sym e6, sym e7, sym e8)
        (reorder (a == 0 && (b == 0 && (c == 0 && (d == 0 && true)))) (a == 10)
          (a == 100 && b / 64 == 1) (a == 127) (a == 169 && b == 254) (a == 172 && b / 16 == 1)
          (a == 192 && b == 168) (a / 16 == 14) (a == 224 && b == 0 && c == 0) local_multicast)

  -- An IPv4 address is public if and only if it is in none of the ranges.
  pub is_public_ip-ranges :
      is_public_ip (some (a ∷ b ∷ c ∷ d ∷ [])) ≡ not (is_reserved (number a b c d))
  is_public_ip-ranges =
      same_tests _ _ _ _ _ _ _ _ zero_address class_a carrier loopback link_local class_b class_c
        multicast

  -- An IPv4 address in the form of an IPv6 one is judged as the IPv4 address.
  pub is_public_ip-mapped :
      is_public_ip (some (0 ∷ 0 ∷ 0 ∷ 0 ∷ 0 ∷ 0 ∷ 0 ∷ 0 ∷ 0 ∷ 0 ∷ 255 ∷ 255 ∷ a ∷ b ∷ c ∷ d ∷ []))
      ≡ not (is_reserved (number a b c d))
  unfolding is_public_ip to4 all_zero
  is_public_ip-mapped = is_public_ip-ranges
