-- ===== src/Auth.antt =====
-- Authentication in the engine (internal/engine): the login throttle, passwords and sessions
-- (auth.go), second factors (totp.go), and personal access tokens (token.go). The engine's state is
-- its database and its throttle; a method is a function of the state that returns the new state, which
-- is kept on an error too, and its result.
pub mod Throttle
pub mod SecondFactor
pub mod Password
pub mod Tokens
pub mod Accounts
use apod.Base.{
  ℕ, ◌≡◌, refl, Bool, String, Option, none, some, List, [], ◌∷◌, ◌++◌, Result, ok, err, Error,
  plain, if◌then◌else◌,
}
use apod.Db.{Env, Db, Stmt, Operation}
use apod.Totp.{Primitives}
use Throttle.{LoginThrottle}

-- Functions of the standard library and of golang.org/x/crypto. `seal` and `unseal` are the AES-GCM box
-- of crypt.go under the instance key with its base64 text; `none` is an error.
pub record Crypto : Type 0 where
  pub totp : Primitives
  pub sha256_hex : String → String
  pub bcrypt_generate : Option (List ℕ) → String → Option String
  pub bcrypt_matches : String → String → Bool
  pub seal : Option (List ℕ) → String → Option String
  pub unseal : String → Option String

pub record Engine : Type 0 where
  pub db : Db
  pub throttle : LoginThrottle

abbrev pub M {ℓ} : Type ℓ → Type ℓ
M A = Engine → Engine × Result A

infixl 5 ◌>>=◌ ◌>>◌
abbrev pub ◌>>=◌ {ℓ κ} : {A : Type ℓ} {B : Type κ} → M A → (A → M B) → M B
◌>>=◌ m f e = elim (m e).1 [ ok a ↦ f a (m e).0 | err x ↦ ((m e).0, err x) ]

abbrev pub ◌>>◌ {ℓ} : {B : Type ℓ} → M (Unit {0}) → M B → M B
m >> k = m >>= λ _. k

abbrev pub pure {ℓ} : {A : Type ℓ} → A → M A
pure a e = (e, ok a)

abbrev pub fail {ℓ} : {A : Type ℓ} → Error → M A
fail x e = (e, err x)

-- A read of the database.
abbrev pub query {ℓ} : {A : Type ℓ} → (Db → Result A) → M A
query q e = (e, q e.db)

-- The state after a write, if it succeeds.
abbrev pub written : Engine → Result Db → Engine
written e (ok d) = record e { db = d }
written e (err x) = e

abbrev pub exec : (Db → Result Db) → M (Unit {0})
exec w e = (written e (w e.db), elim (w e.db) [ ok d ↦ ok tt | err x ↦ err x ])

-- A write whose error the source ignores.
abbrev pub best_effort : (Db → Result Db) → M (Unit {0})
best_effort w e = (written e (w e.db), ok tt)

-- `if err != nil { … }`: a result as a value.
abbrev pub attempt {ℓ} : {A : Type ℓ} → M A → M (Result A)
attempt m e = ((m e).0, ok (m e).1)

abbrev pub lift {ℓ} : {A : Type ℓ} → Result A → M A
lift r e = (e, r)

-- The value of an `Option`, or an error.
abbrev pub require {ℓ} : {A : Type ℓ} → Error → Option A → M A
require x none = fail x
require x (some a) = pure a

module _ (env : Env) where
  -- `LogActivity` (activity.go) with `LogOperation` (operations.go); a failure is ignored.
  unfoldable pub log_activity : String → String → String → String → M (Unit {0})
  log_activity domain action details result = best_effort (λ d.
      if env.down Stmt.log_operation
      then err (plain "log operation: %w")
      else ok (record d {
        operations =
            d.operations
            ++ record { site_domain = domain; action = action; details = details; result = result }
              ∷ [];
      }))

-- Inversion of a step that ends well: so did its parts.
pub >>=-ok {ℓ κ} :
    {A : Type ℓ} {B : Type κ} (m : M A) (f : A → M B) (e : Engine) {b : B}
    → ((m >>= f) e).1 ≡ ok b
    → (a : A) × ((m e).1 ≡ ok a) × ((f a (m e).0).1 ≡ ok b) × ((m >>= f) e ≡ f a (m e).0)
>>=-ok {A} {B} m f e {b} h = go (m e).1 refl
  where
    go :
        (r : Result A)
        → (m e).1 ≡ r
        → (a : A) × ((m e).1 ≡ ok a) × ((f a (m e).0).1 ≡ ok b) × ((m >>= f) e ≡ f a (m e).0)
    go (ok a) p = (a, p, rw (p, ◌>>=◌) at h, rw (p, ◌>>=◌))
    go (err x) p = absurd (err_ok x (rw (p, ◌>>=◌) at h))
      where
        err_ok : (y : Error) → ◌≡◌ {A = Result B} (err y) (ok b) → ⊥
        err_ok y q = cc
