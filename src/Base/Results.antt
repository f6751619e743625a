-- ===== src/Base/Results.antt =====
-- Go errors and results (internal/engine/errors.go). An error is what callers can tell apart: the
-- sentinels, the typed engine errors, and plain errors by their format string, with what they wrap.
use Prim.Native.String.{String}
use mathlib.Core.Path.{◌≡◌, refl}
use mathlib.Core.Logic.{◌⊎◌, inl, inr}
use mathlib.Core.Bool.{Bool, true, false}

pub data ErrorKind : Type 0 where
  kind_internal kind_invalid kind_not_found kind_conflict kind_forbidden : ErrorKind

pub data Error : Type 0 where
  -- `fmt.Errorf` with no `%w`.
  plain : String → Error
  -- `fmt.Errorf("…: %w", err)`.
  wrap : String → Error → Error
  -- `&Error{Kind, Msg}` and `&Error{Kind, Msg, Err}`.
  typed : ErrorKind → String → Error
  typed_wrap : ErrorKind → String → Error → Error
  -- `errInvalidCredentials`, `ErrTwoFactorRequired`, `ErrAccountLocked`.
  invalid_credentials two_factor_required account_locked : Error

abbrev pub invalid : String → Error
invalid msg = typed kind_invalid msg

abbrev pub not_found : String → Error
not_found msg = typed kind_not_found msg

abbrev pub conflict : String → Error
conflict msg = typed kind_conflict msg

abbrev pub forbidden : String → Error
forbidden msg = typed kind_forbidden msg

-- `errors.As` takes the first typed error on the chain of wrapped ones.
unfoldable pub error_kind_of : Error → ErrorKind
error_kind_of (wrap msg e) = error_kind_of e
error_kind_of (typed k msg) = k
error_kind_of (typed_wrap k msg e) = k
error_kind_of _ = kind_internal

pub data Result {ℓ} (A : Type ℓ) : Type ℓ where
  ok : A → Result A
  err : Error → Result A

-- An error ends the chain.
infixl 5 ◌>>=◌ ◌>>◌
abbrev pub ◌>>=◌ {ℓ κ} : {X : Type ℓ} {Y : Type κ} → Result X → (X → Result Y) → Result Y
err stop >>= next = err stop
ok x >>= next = next x

abbrev pub ◌>>◌ {ℓ} : {Y : Type ℓ} → Result (Unit {0}) → Result Y → Result Y
first >> second = first >>= (λ unit. second)

abbrev pub is_ok {ℓ} : {A : Type ℓ} → Result A → Bool
is_ok (ok a) = true
is_ok (err e) = false

-- `fmt.Errorf("…: %w", err)` on the error path.
abbrev pub wrapping {ℓ} : {A : Type ℓ} → String → Result A → Result A
wrapping msg (ok a) = ok a
wrapping msg (err e) = err (wrap msg e)

pub Result-cases {ℓ} :
    {A : Type ℓ} (r : Result A) → ((x : Error) × (r ≡ err x)) ⊎ ((a : A) × (r ≡ ok a))
Result-cases (ok a) = inr (a, refl)
Result-cases (err x) = inl (x, refl)
