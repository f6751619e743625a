-- ===== src/Update/Numerals.antt =====
-- The decimal numbers of a version, as `strconv.Atoi` and the splitting at dots read them.
use Prim.Native.Nat.{◌/◌, ◌%◌, ◌<◌}
use Prim.Native.Char.{code}
use Prim.Native.String.{[], ◌∷◌}
use text.Mathlib.TextLemmas.{nil-append, cons-append}
use apod.Base.{
  ℕ, zero, suc, ◌≡◌, refl, sym, ap, ◌∙◌, inl, inr, Bool, true, false, String, ◌<>◌, some, [], ◌∷◌,
  ◌==◌, nat_eq, string_eq, ltb, ltb→lt, codes, split, decimal, digit, decimal_from, value-decimal,
  arith, Bool-cases,
}
use apod.Base.Names.{is_digit, all_chars}
use apod.Update.{atoi}

-- A text of digits.
abbrev pub IsNumeric : String → Type 0
IsNumeric s = all_chars is_digit (codes s) ≡ true

-- A text that begins with a digit.
abbrev pub head_digit : String → Bool
head_digit [] = false
head_digit (c ∷ s) = is_digit (code c)

IsNumeric-append : (s t : String) → IsNumeric s → IsNumeric t → IsNumeric (s <> t)
unfolding all_chars
IsNumeric-append [] t h k = ground (arith, nil-append t)
IsNumeric-append (c ∷ s) t h k = ground (arith, cons-append c s t, IsNumeric-append s t)

pub head_digit-append : (s t : String) → head_digit s ≡ true → head_digit (s <> t) ≡ true
head_digit-append [] t h = ground arith
head_digit-append (c ∷ s) t h = ground (arith, cons-append c s t)

digit-IsNumeric : (k : ℕ) → k < 10 → IsNumeric (digit k) × (head_digit (digit k) ≡ true)
unfolding all_chars digit
digit-IsNumeric zero h = (refl, refl)
digit-IsNumeric (suc zero) h = (refl, refl)
digit-IsNumeric (suc (suc zero)) h = (refl, refl)
digit-IsNumeric (suc (suc (suc zero))) h = (refl, refl)
digit-IsNumeric (suc (suc (suc (suc zero)))) h = (refl, refl)
digit-IsNumeric (suc (suc (suc (suc (suc zero))))) h = (refl, refl)
digit-IsNumeric (suc (suc (suc (suc (suc (suc zero)))))) h = (refl, refl)
digit-IsNumeric (suc (suc (suc (suc (suc (suc (suc zero))))))) h = (refl, refl)
digit-IsNumeric (suc (suc (suc (suc (suc (suc (suc (suc zero)))))))) h = (refl, refl)
digit-IsNumeric (suc (suc (suc (suc (suc (suc (suc (suc (suc zero))))))))) h = (refl, refl)
digit-IsNumeric (suc (suc (suc (suc (suc (suc (suc (suc (suc (suc k)))))))))) h =
    absurd (omega arith)

decimal_from-IsNumeric :
    (fuel n : ℕ)
    → n < fuel
    → IsNumeric (decimal_from fuel n) × (head_digit (decimal_from fuel n) ≡ true)
unfolding decimal_from
decimal_from-IsNumeric zero n h = absurd (omega arith)
decimal_from-IsNumeric (suc fuel) n h = elim (Bool-cases (ltb n 10)) [
  | inl small ↦ rw small (digit-IsNumeric n (ltb→lt n 10 small))
  | inr big ↦
      let (all, head) = decimal_from-IsNumeric fuel (n / 10) (ground arith) in
      let (last, _) = digit-IsNumeric (n % 10) (omega arith) in
      rw big (
        IsNumeric-append (decimal_from fuel (n / 10)) (digit (n % 10)) all last,
        head_digit-append (decimal_from fuel (n / 10)) (digit (n % 10)) head,
      )
]

pub decimal-IsNumeric : (n : ℕ) → IsNumeric (decimal n) × (head_digit (decimal n) ≡ true)
unfolding decimal
decimal-IsNumeric n = decimal_from-IsNumeric (suc n) n (omega arith)

head_digit-filled : (s : String) → head_digit s ≡ true → (s == "") ≡ false
head_digit-filled s h = elim (Bool-cases (s == "")) [
  | inr n ↦ n
  | inl e ↦ absurd (stuck (sym h ∙ ap head_digit ((string_eq.beq_iff s "").0 e)))
]
  where
    stuck : ◌≡◌ {A = Bool} true false → ⊥
    stuck q = cc

pub atoi-decimal : (n : ℕ) → n < 9223372036854775808 → atoi (decimal n) ≡ some n
unfolding atoi
atoi-decimal n h =
    let (all, head) = decimal-IsNumeric n in
    ground (arith, head_digit-filled (decimal n) head, value-decimal n)

-- The parts between the dots.
pub split-last : (s : String) → IsNumeric s → split s 46 ≡ s ∷ []
unfolding split all_chars
split-last [] h = refl
split-last (c ∷ s) h = ground (arith, split-last s)

pub split-next : (s t : String) → IsNumeric s → split (s <> ("." <> t)) 46 ≡ s ∷ split t 46
unfolding split all_chars
split-next [] t h = ground (arith, nil-append ("." <> t), cons-append "." "" t, nil-append t)
split-next (c ∷ s) t h = ground (arith, cons-append c s ("." <> t), split-next s t)
