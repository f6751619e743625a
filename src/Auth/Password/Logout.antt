-- ===== src/Auth/Password/Logout.antt =====
-- The end of a session.
use apod.Base.{
  ℕ, ◌≡◌, inl, inr, true, String, Option, none, ok, Result-cases, nat_eq, string_eq, find,
  delete_where, arith, find-delete_where-none,
}
use apod.Db.{Env, Db, Session}
use apod.Db.Users.{User}
use apod.Db.Sessions.{has_hash, is_live, get_session_user, delete_session}
use apod.Auth.{Crypto, Engine}
use apod.Auth.Password.{validate_session_token, logout}

-- A hash of which no live session is left has no user.
get_session_user_gone :
    (env : Env) (h n : String) (d : Db)
    → find (is_live h env.now) d.sessions ≡ none
    → get_session_user env h d ≡ ok n
    → n ≡ ""
unfolding get_session_user
get_session_user_gone env h n d gone e = ground arith

validate_gone :
    (c : Crypto) (env : Env) (raw : String) (e : Engine) (r : Option User)
    → find (is_live (c.sha256_hex raw) env.now) e.db.sessions ≡ none
    → (validate_session_token c env raw e).1 ≡ ok r
    → r ≡ none
unfolding validate_session_token
validate_gone c env raw e r gone v =
    elim (Result-cases (get_session_user env (c.sha256_hex raw) e.db)) [
      | inl (x, n) ↦ ground arith
      | inr (n, at) ↦ ground (
        arith,
        get_session_user_gone env (c.sha256_hex raw) n e.db gone at,
        string_eq.beq_iff n "",
      )
    ]

logout-sessions :
    (c : Crypto) (env : Env) (raw : String) (e : Engine)
    → (logout c env raw e).1 ≡ ok tt
    → (logout c env raw e).0.db.sessions ≡ delete_where (has_hash (c.sha256_hex raw)) e.db.sessions
unfolding logout delete_session
logout-sessions c env raw e h = ground arith

-- After a logout that succeeds no request with the token has a user, at any time.
pub validate-logout :
    (c : Crypto) (env env' : Env) (raw : String) (e : Engine) (r : Option User)
    → (logout c env raw e).1 ≡ ok tt
    → (validate_session_token c env' raw (logout c env raw e).0).1 ≡ ok r
    → r ≡ none
validate-logout c env env' raw e r h v =
    validate_gone c env' raw (logout c env raw e).0 r
      (rw (logout-sessions c env raw e h) (
        find-delete_where-none (is_live (c.sha256_hex raw) env'.now) (has_hash (c.sha256_hex raw))
          e.db.sessions (λ s q. live_has_hash s (c.sha256_hex raw) env'.now q)))
      v
  where
    live_has_hash :
        (s : Session) (k : String) (now : ℕ) → is_live k now s ≡ true → has_hash k s ≡ true
    live_has_hash s k now q = ground arith
