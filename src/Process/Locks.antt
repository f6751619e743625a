-- ===== src/Process/Locks.antt =====
-- internal/engine/safety.go: the lock of a site. The map is a function from domains; its mutex makes each
-- call one step. The message of a conflict, which tells how long the lock has been held, is left out.
use apod.Base.{
  ℕ, Bool, true, false, String, Option, none, some, Result, ok, err, conflict, ◌==◌, nat_eq,
  string_eq, if◌then◌else◌,
}

pub record LockState : Type 0 where
  pub operation : String
  pub since : ℕ

-- `LockInfo`.
pub record LockInfo : Type 0 where
  pub operation : String
  pub since : ℕ
  pub held : Bool

-- `LockManager`.
abbrev pub LockManager : Type 0
LockManager = String → Option LockState

-- `NewLockManager`.
abbrev pub new_lock_manager : LockManager
new_lock_manager domain = none

-- `Acquire`.
unfoldable pub acquire : String → String → ℕ → LockManager → LockManager × Result (Unit {0})
acquire domain operation now locks = elim (locks domain) [
  | some st ↦ (locks, err (conflict "%s is busy: %s (started %s ago) — try again in a moment"))
  | none ↦ (
    λ k. if k == domain then some (record { operation = operation; since = now }) else locks k,
    ok tt,
  )
]

-- `Release`.
unfoldable pub release : String → LockManager → LockManager
release domain locks k = if k == domain then none else locks k

-- `Info`.
unfoldable pub info : String → LockManager → LockInfo
info domain locks = elim (locks domain) [
  | none ↦ record { operation = ""; since = 0; held = false }
  | some st ↦ record { operation = st.operation; since = st.since; held = true }
]
