-- ===== src/Update/Order.antt =====
-- Which of two versions is newer.
use apod.Base.{ℕ, ◌<◌, ◌≡◌, sym, ap, ◌∙◌, ◌⊎◌, Bool, true, false, String, Option, none, some, arith}
use apod.Update.Parsing.{is_suffix, written, parse_version_core-written}
use apod.Update.{Core, parse_version_core, is_after, both_after, version_is_newer}

is_after_irrefl : (v : Core) → is_after v v ≡ false
is_after_irrefl v = ground arith

is_after_trans : (u v w : Core) → is_after u v ≡ true → is_after v w ≡ true → is_after u w ≡ true
is_after_trans u v w h k = ground arith

both_after_irrefl : (v : Option Core) → both_after v v ≡ false
both_after_irrefl none = ground arith
both_after_irrefl (some v) = is_after_irrefl v

both_after_trans :
    (u v w : Option Core) → both_after u v ≡ true → both_after v w ≡ true → both_after u w ≡ true
both_after_trans none v w h k = h
both_after_trans (some u) none w h k = ground arith
both_after_trans (some u) (some v) none h k = k
both_after_trans (some u) (some v) (some w) h k = is_after_trans u v w h k

-- The first of two triples of numbers is the greater one where they differ first.
pub record IsAbove (a b c x y z : ℕ) : Type 0 where
  pub above : (x < a) ⊎ ((a ≡ x) × ((y < b) ⊎ ((b ≡ y) × (z < c))))

IsAbove-is_after :
    (a b c x y z : ℕ)
    → IsAbove a b c x y z
    → is_after
        (record { major = a; minor = b; patch = c })
        (record { major = x; minor = y; patch = z })
      ≡ true
IsAbove-is_after a b c x y z p = ground (arith, p.above)

is_after-IsAbove :
    (a b c x y z : ℕ)
    → is_after
        (record { major = a; minor = b; patch = c })
        (record { major = x; minor = y; patch = z })
      ≡ true
    → IsAbove a b c x y z
is_after-IsAbove a b c x y z h = record { above = ground arith }

-- Of two versions that are written as three numbers below 2^63 with dots between them, each with or without a `v`
-- in front and with or without a pre-release or a build behind `-` or `+`, the first is newer exactly if its
-- numbers are the greater ones where they differ first: what follows the numbers does not count.
pub version_is_newer-written :
    (v w : Bool) (a b c x y z : ℕ) (p q : String)
    → a < 9223372036854775808
    → b < 9223372036854775808
    → c < 9223372036854775808
    → x < 9223372036854775808
    → y < 9223372036854775808
    → z < 9223372036854775808
    → is_suffix p ≡ true
    → is_suffix q ≡ true
    → (version_is_newer (written v a b c p) (written w x y z q) ≡ true → IsAbove a b c x y z)
      × (IsAbove a b c x y z → version_is_newer (written v a b c p) (written w x y z q) ≡ true)
unfolding version_is_newer
version_is_newer-written v w a b c x y z p q ha hb hc hx hy hz hp hq =
    let latest = parse_version_core-written v a b c p ha hb hc hp in
    let current = parse_version_core-written w x y z q hx hy hz hq in
    let same : both_after (parse_version_core (written v a b c p))
          (parse_version_core (written w x y z q))
        ≡ is_after (record { major = a; minor = b; patch = c })
            (record { major = x; minor = y; patch = z }) =
      ap (λ l. both_after l (parse_version_core (written w x y z q))) latest
      ∙ ap (both_after (some (record { major = a; minor = b; patch = c }))) current in
    (λ h. is_after-IsAbove a b c x y z (sym same ∙ h), λ h. same ∙ IsAbove-is_after a b c x y z h)

-- No version is newer than itself, and what is newer than a version that is newer than a third one is newer
-- than the third one, however the versions are written.
pub version_is_newer-order :
    (u v w : String)
    → (version_is_newer u u ≡ false)
      × (version_is_newer u v ≡ true → version_is_newer v w ≡ true → version_is_newer u w ≡ true)
unfolding version_is_newer
version_is_newer-order u v w = (
  both_after_irrefl (parse_version_core u),
  both_after_trans (parse_version_core u) (parse_version_core v) (parse_version_core w),
)
