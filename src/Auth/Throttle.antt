-- ===== src/Auth/Throttle.antt =====
-- internal/engine/loginthrottle.go. The map is a function from account names; its mutex makes each
-- method one step, and `now` is what `t.now()` shows in that step.
pub mod Lockout
use apod.Base.{
  ℕ, ◌+◌, ◌-◌, ◌*◌, Bool, false, ◌&&◌, String, Option, none, some, ◌==◌, nat_eq, string_eq,
  if◌then◌else◌, ltb, leb,
}

abbrev pub second : ℕ
second = 1000000000

abbrev pub minute : ℕ
minute = 60 * second

abbrev pub max_login_failures : ℕ
max_login_failures = 10

abbrev pub lockout_duration : ℕ
lockout_duration = 15 * minute

abbrev pub failure_window : ℕ
failure_window = 15 * minute

pub record LoginAttempt : Type 0 where
  pub failures : ℕ
  pub first_fail : ℕ
  pub locked_until : ℕ

-- `map[string]*loginAttempt`.
abbrev pub LoginThrottle : Type 0
LoginThrottle = String → Option LoginAttempt

unfoldable pub new_login_throttle : LoginThrottle
new_login_throttle name = none

abbrev pub is_locked : Option LoginAttempt → ℕ → Bool
is_locked none now = false
is_locked (some a) now = ltb now a.locked_until

-- `Locked`.
unfoldable pub locked : LoginThrottle → String → ℕ → Bool
locked t name now = is_locked (t name) now

-- The record that a failure counts in: a new one, if there is none or its window has passed.
abbrev pub current : Option LoginAttempt → ℕ → LoginAttempt
current none now = record { failures = 0; first_fail = now; locked_until = 0 }
current (some a) now =
    if ltb failure_window (now - a.first_fail)
    then record { failures = 0; first_fail = now; locked_until = 0 }
    else a

abbrev pub count_failure : LoginAttempt → ℕ → LoginAttempt
count_failure a now = record a {
  failures = a.failures + 1;
  locked_until =
      if leb max_login_failures (a.failures + 1) then now + lockout_duration else a.locked_until;
}

abbrev pub drop_stale : ℕ → Option LoginAttempt → Option LoginAttempt
drop_stale now none = none
drop_stale now (some a) =
    if ltb a.locked_until now && ltb failure_window (now - a.first_fail) then none else some a

unfoldable pub gc : LoginThrottle → ℕ → LoginThrottle
gc t now name = drop_stale now (t name)

-- `RecordFailure`.
unfoldable pub record_failure : LoginThrottle → String → ℕ → LoginThrottle
unfolding gc
record_failure t name now =
    gc (λ k. if k == name then some (count_failure (current (t k) now) now) else t k) now

-- `Reset`.
unfoldable pub reset : LoginThrottle → String → LoginThrottle
reset t name k = if k == name then none else t k
