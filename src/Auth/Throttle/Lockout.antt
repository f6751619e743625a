-- ===== src/Auth/Throttle/Lockout.antt =====
-- When the throttle locks an account, over any sequence of failed logins.
use apod.Base.{
  ℕ, ◌+◌, ◌≤◌, ◌<◌, ◌≡◌, ◌≢◌, ◌⊎◌, inl, inr, refl, subst, Bool, true, false, String, Option, none,
  some, List, [], ◌∷◌, ◌==◌, nat_eq, string_eq, if◌then◌else◌, arith, Bool-cases, All,
}
use apod.Auth.Throttle.{
  new_login_throttle, reset, max_login_failures, is_locked, locked, LoginAttempt, LoginThrottle,
  record_failure, failure_window, lockout_duration, current, count_failure, drop_stale,
}

-- A failed login: the submitted name and the time.
abbrev pub Failure : Type 0
Failure = String × ℕ

unfoldable pub record_all : LoginThrottle → List Failure → LoginThrottle
record_all t [] = t
record_all t ((name, now) ∷ fs) = record_all (record_failure t name now) fs

-- How many of the failures name the account.
abbrev pub failures_of : String → List Failure → ℕ
failures_of name [] = 0
failures_of name ((k, now) ∷ fs) = (if name == k then 1 else 0) + failures_of name fs

-- What is known of an account's record after `k` failures since `t0`, all within the window.
abbrev Tracks : ℕ → ℕ → Option LoginAttempt → Type 0
Tracks t0 k none = k ≡ 0
Tracks t0 k (some a) =
    (a.failures ≡ k)
    × (t0 ≤ a.first_fail)
    × (a.first_fail ≤ t0 + failure_window)
    × (10 ≤ k → t0 + lockout_duration ≤ a.locked_until)

Tracks-count_failure :
    (t0 k now : ℕ) (a : Option LoginAttempt)
    → t0 ≤ now
    → now ≤ t0 + failure_window
    → Tracks t0 k a
    → Tracks t0 (k + 1) (some (count_failure (current a now) now))
Tracks-count_failure t0 k now none h1 h2 h = ground arith
Tracks-count_failure t0 k now (some a) h1 h2 h = ground arith

Tracks-drop_stale :
    (t0 k now : ℕ) (a : Option LoginAttempt)
    → t0 ≤ now
    → now ≤ t0 + failure_window
    → Tracks t0 k a
    → Tracks t0 k (drop_stale now a)
Tracks-drop_stale t0 k now none h1 h2 h = h
Tracks-drop_stale t0 k now (some a) h1 h2 h = ground arith

-- The failures of the list lie in the window that opens at `t0`.
abbrev pub InWindow : ℕ → List Failure → Type 0
InWindow t0 fs = All (λ f. (t0 ≤ f.1) × (f.1 ≤ t0 + failure_window)) fs

Tracks-record_failure :
    (t0 k now : ℕ) (t : LoginThrottle) (name who : String)
    → t0 ≤ now
    → now ≤ t0 + failure_window
    → Tracks t0 k (t name)
    → Tracks t0 ((if name == who then 1 else 0) + k) (record_failure t who now name)
unfolding record_failure
Tracks-record_failure t0 k now t name who h1 h2 h = elim (Bool-cases (name == who)) [
  | inl same ↦ rw same (
      Tracks-drop_stale t0 (1 + k) now (some (count_failure (current (t name) now) now)) h1 h2 (
        subst (λ j. Tracks t0 j (some (count_failure (current (t name) now) now))) (omega arith)
          (Tracks-count_failure t0 k now (t name) h1 h2 h)))
  | inr other ↦ rw other (
      Tracks-drop_stale t0 (0 + k) now (t name) h1 h2
        (subst (λ j. Tracks t0 j (t name)) (omega arith) h))
]

Tracks-record_all :
    (t0 k : ℕ) (t : LoginThrottle) (name : String) (fs : List Failure)
    → InWindow t0 fs
    → Tracks t0 k (t name)
    → Tracks t0 (failures_of name fs + k) (record_all t fs name)
unfolding record_all
Tracks-record_all t0 k t name [] w h = subst (λ j. Tracks t0 j (t name)) (omega arith) h
Tracks-record_all t0 k t name ((who, now) ∷ fs) ((h1, h2), w) h =
    let one : ℕ = if name == who then 1 else 0 in
    subst (λ j. Tracks t0 j (record_all (record_failure t who now) fs name)) (omega arith)
      (Tracks-record_all t0 (one + k) (record_failure t who now) name fs w
        (Tracks-record_failure t0 k now t name who h1 h2 h))

locked_of_Tracks :
    (t0 k now : ℕ) (a : Option LoginAttempt)
    → 10 ≤ k
    → now < t0 + lockout_duration
    → Tracks t0 k a
    → is_locked a now ≡ true
locked_of_Tracks t0 k now none h1 h2 h = absurd (omega arith)
locked_of_Tracks t0 k now (some a) h1 h2 h = ground arith

-- Ten failed logins for an account that has no record, within fifteen minutes of an instant `t0` and
-- mixed with any failures for other accounts, lock the account until fifteen minutes after `t0`.
pub locked-record_all :
    (name : String) (t0 now : ℕ) (t : LoginThrottle) (fs : List Failure)
    → t name ≡ none
    → InWindow t0 fs
    → max_login_failures ≤ failures_of name fs
    → now < t0 + lockout_duration
    → locked (record_all t fs) name now ≡ true
unfolding locked
locked-record_all name t0 now t fs e w n h =
    locked_of_Tracks t0 (failures_of name fs + 0) now (record_all t fs name) (omega arith) h
      (Tracks-record_all t0 0 t name fs w (rw e refl))

-- What a record says of failures: a lock only stands where ten were counted, and no more are counted
-- than were recorded.
abbrev Counts : ℕ → Option LoginAttempt → Type 0
Counts k none = Unit
Counts k (some a) = (a.failures ≤ k) × ((a.locked_until ≡ 0) ⊎ (10 ≤ a.failures))

Counts-record_failure :
    (k now : ℕ) (t : LoginThrottle) (name who : String)
    → Counts k (t name)
    → Counts ((if name == who then 1 else 0) + k) (record_failure t who now name)
unfolding record_failure
Counts-record_failure k now t name who h = go (t name) h (name == who)
  where
    go :
        (a : Option LoginAttempt)
        → Counts k a
        → (b : Bool)
        → Counts
            ((if b then 1 else 0) + k)
            (drop_stale now (if b then some (count_failure (current a now) now) else a))
    go none h true = ground arith
    go none h false = tt
    go (some a) h true = ground arith
    go (some a) h false = ground arith

Counts-record_all :
    (k : ℕ) (t : LoginThrottle) (name : String) (fs : List Failure)
    → Counts k (t name)
    → Counts (failures_of name fs + k) (record_all t fs name)
unfolding record_all
Counts-record_all k t name [] h = subst (λ j. Counts j (t name)) (omega arith) h
Counts-record_all k t name ((who, now) ∷ fs) h =
    let one : ℕ = if name == who then 1 else 0 in
    subst (λ j. Counts j (record_all (record_failure t who now) fs name)) (omega arith)
      (Counts-record_all (one + k) (record_failure t who now) name fs
        (Counts-record_failure k now t name who h))

ten_of_Counts : (k now : ℕ) (a : Option LoginAttempt) → Counts k a → is_locked a now ≡ true → 10 ≤ k
ten_of_Counts k now none h e = cc
ten_of_Counts k now (some a) h e = ground arith

-- An account is locked, after any failed logins since the daemon started, only if at least ten of them
-- named that account: failures for other accounts never lock it.
pub ten-le_of_locked :
    (name : String) (now : ℕ) (fs : List Failure)
    → locked (record_all new_login_throttle fs) name now ≡ true
    → max_login_failures ≤ failures_of name fs
unfolding locked new_login_throttle
ten-le_of_locked name now fs h = omega (
  arith,
  ten_of_Counts (failures_of name fs + 0) now (record_all new_login_throttle fs name)
      (Counts-record_all 0 new_login_throttle name fs tt) h,
)

-- A failed login for one account, with the cleaning up that follows it, changes no other account's lock,
-- and a reset unlocks its own account and leaves the lock of every other one as it was.
pub locked-record_failure-reset :
    (t : LoginThrottle) (who name : String) (now : ℕ)
    → (name ≢ who → locked (record_failure t who now) name now ≡ locked t name now)
      × (locked (reset t who) who now ≡ false)
      × (name ≢ who → locked (reset t who) name now ≡ locked t name now)
unfolding locked record_failure reset
locked-record_failure-reset t who name now = (
  λ n. other n (t name),
  ground (arith, string_eq.beq_iff who who),
  λ n. ground (arith, string_eq.beq_iff name who),
)
  where
    other :
        name ≢ who
        → (a : Option LoginAttempt)
        → is_locked
            (drop_stale now (if name == who then some (count_failure (current a now) now) else a))
            now
          ≡ is_locked a now
    other n none = ground (arith, string_eq.beq_iff name who)
    other n (some a) = ground (arith, string_eq.beq_iff name who)
