-- ===== src/Base/Effects.antt =====
-- Calls that change a state and may fail: the state is kept on an error too.
use mathlib.Core.Path.{◌≡◌}
use mathlib.Core.Logic.{inl, inr}
use apod.Base.Results.{Result, ok, err, Error, Result-cases}

abbrev pub M {ℓ} : Type 0 → Type ℓ → Type ℓ
M S A = S → S × Result A

infixl 5 ◌>>=◌ ◌>>◌
abbrev pub ◌>>=◌ {ℓ κ} : {S : Type 0} {A : Type ℓ} {B : Type κ} → M S A → (A → M S B) → M S B
◌>>=◌ m f s = elim (m s).1 [ ok a ↦ f a (m s).0 | err x ↦ ((m s).0, err x) ]

abbrev pub ◌>>◌ {ℓ} : {S : Type 0} {B : Type ℓ} → M S (Unit {0}) → M S B → M S B
m >> k = m >>= λ _. k

abbrev pub pure {ℓ} : {S : Type 0} {A : Type ℓ} → A → M S A
pure a s = (s, ok a)

abbrev pub fail {ℓ} : {S : Type 0} {A : Type ℓ} → Error → M S A
fail x s = (s, err x)

-- A read.
abbrev pub query {ℓ} : {S : Type 0} {A : Type ℓ} → (S → Result A) → M S A
query q s = (s, q s)

-- The state after a write, if it succeeds.
abbrev pub after {ℓ} : {S : Type ℓ} → S → Result S → S
after s (ok s') = s'
after s (err x) = s

abbrev pub outcome {ℓ} : {S : Type ℓ} → Result S → Result (Unit {0})
outcome (ok s) = ok tt
outcome (err x) = err x

abbrev pub exec : {S : Type 0} → (S → Result S) → M S (Unit {0})
exec w s = (after s (w s), outcome (w s))

-- A write whose error the source ignores.
abbrev pub best_effort : {S : Type 0} → (S → Result S) → M S (Unit {0})
best_effort w s = (after s (w s), ok tt)

-- `if err != nil { … }`: a result as a value.
abbrev pub attempt {ℓ} : {S : Type 0} {A : Type ℓ} → M S A → M S (Result A)
attempt m s = ((m s).0, ok (m s).1)

-- A check in front of a call: what holds of the state if it fails and of the call holds of both.
pub guard-keeps {ℓ κ} :
    {S : Type 0} {A : Type ℓ} (P : S → Type κ) (q : S → Result (Unit {0})) (k : M S A) (s : S)
    → P s
    → P (k s).0
    → P ((query q >> k) s).0
guard-keeps P q k s ps pk = elim (Result-cases (q s)) [
  | inl (x, e) ↦ rw (e, ◌>>=◌) ps
  | inr (u, e) ↦ rw (e, ◌>>=◌) pk
]

-- Inversion of a step that ends well: so did its parts, and the state is that of the second.
pub bind-ok {ℓ κ} :
    {S : Type 0} {A : Type ℓ} {B : Type κ} (m : M S A) (f : A → M S B) (s : S) {b : B}
    → ((m >>= f) s).1 ≡ ok b
    → (a : A) × ((m s).1 ≡ ok a) × ((f a (m s).0).1 ≡ ok b) × ((m >>= f) s ≡ f a (m s).0)
bind-ok {B = B} m f s {b} h = elim (Result-cases (m s).1) [
  | inr (a, e) ↦ (a, e, rw (e, ◌>>=◌) at h, rw (e, ◌>>=◌))
  | inl (x, e) ↦ absurd (stuck x (rw (e, ◌>>=◌) at h))
]
  where
    stuck : (x : Error) → ◌≡◌ {A = Result B} (err x) (ok b) → ⊥
    stuck x q = cc

-- A predicate of the state holds after two steps, if it holds after the first and, when that succeeds,
-- after the second.
pub bind-post {ℓ κ μ} :
    {S : Type 0} {A : Type ℓ} {B : Type κ} (P : S → Type μ) (m : M S A) (f : A → M S B) (s : S)
    → P (m s).0
    → ((a : A) → (m s).1 ≡ ok a → P (f a (m s).0).0)
    → P ((m >>= f) s).0
bind-post P m f s pm pf = elim (Result-cases (m s).1) [
  | inl (x, e) ↦ rw (e, ◌>>=◌) pm
  | inr (a, e) ↦ rw (e, ◌>>=◌) (pf a e)
]

-- A call that preserves a predicate of the state, whatever it answers.
pub record Preserves {ℓ κ} {S : Type 0} {A : Type ℓ} (P : S → Type κ) (m : M S A) : Type κ where
  pub preserved : (s : S) → P s → P (m s).0

module _ {κ} {S : Type 0} (P : S → Type κ) where
  pub query-Preserves {ℓ} : {A : Type ℓ} (q : S → Result A) → Preserves P (query q)
  query-Preserves q = record { preserved = λ s p. p }

  pub bind-Preserves {ℓ μ} :
      {A : Type ℓ} {B : Type μ} {m : M S A} {f : A → M S B}
      → Preserves P m
      → ((a : A) → Preserves P (f a))
      → Preserves P (m >>= f)
  bind-Preserves {m = m} {f = f} pm pf = record {
    preserved = λ s p.
        bind-post P m f s (pm.preserved s p) (λ a e. (pf a).preserved (m s).0 (pm.preserved s p));
  }

  pub then-Preserves {ℓ} :
      {B : Type ℓ} {m : M S (Unit {0})} {k : M S B}
      → Preserves P m
      → Preserves P k
      → Preserves P (m >> k)
  then-Preserves pm pk = bind-Preserves pm (λ u. pk)

  pub attempt-Preserves {ℓ} : {A : Type ℓ} {m : M S A} → Preserves P m → Preserves P (attempt m)
  attempt-Preserves p = record { preserved = p.preserved }

-- A predicate of the state and the result of two steps: of the first where it fails, of the second where
-- the first succeeds.
pub bind-outcome {ℓ κ μ} :
    {S : Type 0} {A : Type ℓ} {B : Type κ} (P : S × Result B → Type μ) (m : M S A) (f : A → M S B)
    (s : S)
    → ((x : Error) → (m s).1 ≡ err x → P ((m s).0, err x))
    → ((a : A) → (m s).1 ≡ ok a → P (f a (m s).0))
    → P ((m >>= f) s)
bind-outcome P m f s pe po = elim (Result-cases (m s).1) [
  | inl (x, e) ↦ rw (e, ◌>>=◌) (pe x e)
  | inr (a, e) ↦ rw (e, ◌>>=◌) (po a e)
]
