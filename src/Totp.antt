-- ===== src/Totp.antt =====
-- internal/totp/totp.go: time-based one-time passwords. HMAC-SHA-1 and base32 are parameters; the
-- truncation, the decimal digits and the window of accepted steps are the program's own. Codes are
-- bytes, and `time.Time` is nanoseconds since 1970.
pub mod Window
use apod.Base.{
  ℕ, ◌+◌, ◌-◌, ◌*◌, ◌/◌, ◌%◌, ◌^◌, ◌≡◌, ◌↔◌, Bool, true, false, ◌&&◌, String, Option, none, some,
  List, [], ◌∷◌, map, ◌==◌, nat_eq, string_eq, nat_beq_iff, if◌then◌else◌, length, get_or, arith,
}
use mathlib.Core.Option

abbrev pub step_seconds : ℕ
step_seconds = 30

-- `digits`: six of them.
abbrev pub digits : ℕ
digits = 1000000

-- The standard library's functions that the package calls.
pub record Primitives : Type 0 where
  pub b32_decode : String → Option (List ℕ)
  pub b32_encode : List ℕ → String
  pub hmac_sha1 : List ℕ → List ℕ → List ℕ

-- `uint64(t.Unix())`.
abbrev pub unix : ℕ → ℕ
unix t = t / 1000000000

abbrev pub u64_mod : ℕ
u64_mod = 18446744073709551616

-- `Step`.
unfoldable pub step : ℕ → ℕ
step t = unix t / step_seconds

-- `subtle.ConstantTimeCompare(x, y) == 1`.
unfoldable pub bytes_eq : List ℕ → List ℕ → Bool
bytes_eq [] [] = true
bytes_eq [] (b ∷ bs) = false
bytes_eq (a ∷ as') [] = false
bytes_eq (a ∷ as') (b ∷ bs) = a == b && bytes_eq as' bs

pub bytes_eq_iff : (xs ys : List ℕ) → (bytes_eq xs ys ≡ true) ↔ (xs ≡ ys)
unfolding bytes_eq
bytes_eq_iff [] [] = ground arith
bytes_eq_iff [] (b ∷ bs) = ground arith
bytes_eq_iff (a ∷ as') [] = ground arith
bytes_eq_iff (a ∷ as') (b ∷ bs) = ground (arith, nat_beq_iff a b, bytes_eq_iff as' bs)

-- `binary.BigEndian.PutUint64`.
unfoldable pub put_uint64 : ℕ → List ℕ
put_uint64 n =
    (n / 2 ^ 56 % 256)
    ∷ (n / 2 ^ 48 % 256)
    ∷ (n / 2 ^ 40 % 256)
    ∷ (n / 2 ^ 32 % 256)
    ∷ (n / 2 ^ 24 % 256)
    ∷ (n / 2 ^ 16 % 256)
    ∷ (n / 2 ^ 8 % 256)
    ∷ (n % 256)
    ∷ []

-- `binary.BigEndian.Uint32(sum[offset:offset+4])`.
unfoldable pub uint32_at : List ℕ → ℕ → ℕ
uint32_at sum i =
    get_or 0 sum i * 2 ^ 24
    + get_or 0 sum (i + 1) * 2 ^ 16
    + get_or 0 sum (i + 2) * 2 ^ 8
    + get_or 0 sum (i + 3)

-- The number in a digest: 31 bits at the offset that its last byte gives.
unfoldable pub truncate : List ℕ → ℕ
unfolding uint32_at
truncate sum = uint32_at sum (get_or 0 sum (length sum - 1) % 16) % 2 ^ 31

-- `fmt.Sprintf("%06d", v)` for v below a million.
unfoldable pub six_digits : ℕ → List ℕ
six_digits v =
    (48 + v / 100000)
    ∷ (48 + v / 10000 % 10)
    ∷ (48 + v / 1000 % 10)
    ∷ (48 + v / 100 % 10)
    ∷ (48 + v / 10 % 10)
    ∷ (48 + v % 10)
    ∷ []

-- `[]uint64{current, current - 1, current + 1}`.
abbrev pub window : ℕ → List ℕ
window c = c ∷ ((c + u64_mod - 1) % u64_mod) ∷ ((c + 1) % u64_mod) ∷ []

module _ (p : Primitives) where
  unfoldable pub hotp : List ℕ → ℕ → List ℕ
  unfolding truncate six_digits put_uint64
  hotp key n = six_digits (truncate (p.hmac_sha1 key (put_uint64 n)) % digits)

  -- `Code`; `none` is the error of a secret that does not decode.
  unfoldable pub code_at : String → ℕ → Option (List ℕ)
  code_at secret t = Option.map (λ key. hotp key (step t)) (p.b32_decode secret)

  -- The loop over the candidate steps.
  unfoldable pub first_match : List ℕ → List ℕ → List ℕ → Option ℕ
  first_match key code [] = none
  first_match key code (s ∷ steps) =
      if bytes_eq (hotp key s) code then some s else first_match key code steps

  -- `Verify`: the matched step.
  unfoldable pub verify : String → List ℕ → ℕ → Option ℕ
  verify secret code t = elim (p.b32_decode secret) [
    | none ↦ none
    | some key ↦ if length code == 6 then first_match key code (window (step t)) else none
  ]
