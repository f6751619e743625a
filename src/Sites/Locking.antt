-- ===== src/Sites/Locking.antt =====
-- What the lock of a site gives the operations that run under it.
use apod.Base.{
  ℕ, ◌≡◌, refl, inl, inr, false, String, some, Result, ok, err, Error, Result-cases, nat_eq,
  string_eq, arith, is_ok,
}
use apod.Base.Effects.{M}
use apod.Process.Locks.{LockState, acquire, release}
use apod.Sites.{State, SiteEngine, with_lock}

module _ {A : Type 0} (now : ℕ) (domain operation : String) (body : M State A) where
  stuck : (x : Error) (b : A) → ◌≡◌ {A = Result A} (err x) (ok b) → ⊥
  stuck x b q = cc

  -- An operation that succeeds is its body, run on the state.
  pub with_lock-ok :
      (e : SiteEngine) (b : A)
      → (with_lock now domain operation body e).1 ≡ ok b
      → ((body e.state).1 ≡ ok b)
        × ((with_lock now domain operation body e).0.state ≡ (body e.state).0)
  unfolding with_lock
  with_lock-ok e b h = elim (Result-cases (acquire domain operation now e.locks).1) [
    | inl (x, r) ↦ absurd (stuck x b (rw (r, with_lock) at h))
    | inr (u, r) ↦ (rw (r, with_lock) at h, rw (r, with_lock) refl)
  ]

  -- A predicate of the state that holds now and of the body's end holds at the end.
  pub with_lock-post :
      (P : State → Type 0) (e : SiteEngine)
      → P e.state
      → P (body e.state).0
      → P (with_lock now domain operation body e).0.state
  unfolding with_lock
  with_lock-post P e p q = elim (Result-cases (acquire domain operation now e.locks).1) [
    | inl (x, r) ↦ rw (r, with_lock) p
    | inr (u, r) ↦ rw (r, with_lock) q
  ]

  -- So does a predicate of the state and the result that holds of the state now with any error.
  pub with_lock-outcome :
      (P : State × Result A → Type 0) (e : SiteEngine)
      → ((x : Error) → P (e.state, err x))
      → P (body e.state)
      → P (
        (with_lock now domain operation body e).0.state,
        (with_lock now domain operation body e).1,
      )
  unfolding with_lock
  with_lock-outcome P e p q = elim (Result-cases (acquire domain operation now e.locks).1) [
    | inl (x, r) ↦ rw (r, with_lock) (p x)
    | inr (u, r) ↦ rw (r, with_lock) q
  ]

  -- However it ends, every lock is afterwards as it was before.
  pub with_lock-locks :
      (e : SiteEngine) (k : String) → (with_lock now domain operation body e).0.locks k ≡ e.locks k
  unfolding with_lock acquire release
  with_lock-locks e k = ground (arith, string_eq.beq_iff k domain)

  -- While the lock is held the body does not run.
  pub with_lock-busy :
      (e : SiteEngine) (st : LockState)
      → e.locks domain ≡ some st
      → ((with_lock now domain operation body e).0.state ≡ e.state)
        × (is_ok (with_lock now domain operation body e).1 ≡ false)
  unfolding with_lock acquire
  with_lock-busy e st h = ground arith
