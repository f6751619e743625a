-- ===== src/Base/Decimals.antt =====
-- Decimal numbers as text, and that two numbers never have the same text.
use Prim.Native.Nat.{ℕ, zero, suc, ◌/◌, ◌%◌, ◌*◌, ◌+◌, ◌-◌, ◌<◌}
use Prim.Native.Char.{code}
use Prim.Native.String.{String, [], ◌∷◌}
use mathlib.Core.Path.{◌≡◌, refl, sym, ap, ◌∙◌}
use mathlib.Core.Logic.{inl, inr}
use native.Mathlib.Omega.{arith}
use text.Mathlib.TextLemmas.{nil-append, cons-append}
use apod.Base.Tests.{if◌then◌else◌, ltb, ltb→lt, Bool-cases}
use apod.Base.Strings.{◌<>◌, nth_char}

-- The text of a digit.
unfoldable pub digit : ℕ → String
digit k = nth_char "0123456789" k

-- `strconv.Itoa` for a number below the fuel: its decimal digits.
unfoldable pub decimal_from : ℕ → ℕ → String
unfolding digit
decimal_from zero n = ""
decimal_from (suc fuel) n =
    let rest = decimal_from fuel (n / 10) in if ltb n 10 then digit n else rest <> digit (n % 10)

unfoldable pub decimal : ℕ → String
unfolding decimal_from
decimal n = decimal_from (suc n) n

-- The number that digits spell after a number.
unfoldable pub value_after : ℕ → String → ℕ
value_after acc [] = acc
value_after acc (c ∷ s) = value_after (acc * 10 + (code c - 48)) s

value_after-digit : (acc k : ℕ) → k < 10 → value_after acc (digit k) ≡ acc * 10 + k
unfolding value_after digit
value_after-digit acc zero h = refl
value_after-digit acc (suc zero) h = refl
value_after-digit acc (suc (suc zero)) h = refl
value_after-digit acc (suc (suc (suc zero))) h = refl
value_after-digit acc (suc (suc (suc (suc zero)))) h = refl
value_after-digit acc (suc (suc (suc (suc (suc zero))))) h = refl
value_after-digit acc (suc (suc (suc (suc (suc (suc zero)))))) h = refl
value_after-digit acc (suc (suc (suc (suc (suc (suc (suc zero))))))) h = refl
value_after-digit acc (suc (suc (suc (suc (suc (suc (suc (suc zero)))))))) h = refl
value_after-digit acc (suc (suc (suc (suc (suc (suc (suc (suc (suc zero))))))))) h = refl
value_after-digit acc (suc (suc (suc (suc (suc (suc (suc (suc (suc (suc k)))))))))) h =
    absurd (omega arith)

value_after-append :
    (acc : ℕ) (s : String) (k : ℕ)
    → k < 10
    → value_after acc (s <> digit k) ≡ value_after acc s * 10 + k
unfolding value_after
value_after-append acc [] k h = rw (nil-append (digit k)) (value_after-digit acc k h)
value_after-append acc (c ∷ s) k h =
    ground (arith, cons-append c s (digit k), value_after-append (acc * 10 + (code c - 48)) s k h)

value-decimal_from : (fuel n : ℕ) → n < fuel → value_after 0 (decimal_from fuel n) ≡ n
unfolding decimal_from
value-decimal_from zero n h = absurd (omega arith)
value-decimal_from (suc fuel) n h = elim (Bool-cases (ltb n 10)) [
  | inl small ↦ rw small (value_after-digit 0 n (ltb→lt n 10 small) ∙ omega arith)
  | inr big ↦ rw big (
      value_after-append 0 (decimal_from fuel (n / 10)) (n % 10) (omega arith)
      ∙ ap (λ x. x * 10 + n % 10) (value-decimal_from fuel (n / 10) (ground arith))
      ∙ omega arith)
]

pub value-decimal : (n : ℕ) → value_after 0 (decimal n) ≡ n
unfolding decimal
value-decimal n = value-decimal_from (suc n) n (omega arith)

pub decimal_inj : (m n : ℕ) → decimal m ≡ decimal n → m ≡ n
unfolding decimal
decimal_inj m n h =
    sym (value-decimal_from (suc m) m (omega arith))
    ∙ ap (value_after 0) h
    ∙ value-decimal_from (suc n) n (omega arith)
