-- ===== src/Tests/Auth.antt =====
-- Throttle, one-time passwords and logins on the test database.
use apod.Base.{ℕ, ◌≡◌, refl, true, String, some, List, [], ◌∷◌, codes, arith}
use apod.Totp.{
  step, hotp, truncate, six_digits, put_uint64, uint32_at, bytes_eq, first_match, verify,
}
use apod.Auth.Throttle.{new_login_throttle, locked, minute}
use apod.Auth.Throttle.Lockout.{Failure, record_all, locked-record_all}
use apod.Tests.Data.{totp, noon}

-- Ten failures for alice with one for root among them.
abbrev failures : List Failure
failures =
    ("alice", 0)
    ∷ ("alice", 1)
    ∷ ("root", 1)
    ∷ ("alice", 2)
    ∷ ("alice", 3)
    ∷ ("alice", 4)
    ∷ ("alice", 5)
    ∷ ("alice", 6)
    ∷ ("alice", 7)
    ∷ ("alice", 8)
    ∷ ("alice", 9)
    ∷ []

locked-record_all_example : locked (record_all new_login_throttle failures) "alice" minute ≡ true
unfolding new_login_throttle
locked-record_all_example =
    locked-record_all "alice" 0 minute new_login_throttle failures refl (omega arith) (omega arith)
      (omega arith)

abbrev who : String
who = "root"

-- The digits of a step whose low byte is 160, for the digest of the test data.
abbrev alice_code : String
alice_code = "870912"

abbrev alice_key : List ℕ
alice_key = codes "S"

verified : verify totp "S" (codes alice_code) noon ≡ some 1440
unfolding verify first_match bytes_eq hotp truncate uint32_at six_digits put_uint64 step
verified = refl
