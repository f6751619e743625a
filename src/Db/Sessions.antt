-- ===== src/Db/Sessions.antt =====
-- internal/db/sessions.go.
use apod.Base.{
  ℕ, Bool, ◌&&◌, String, Option, none, some, [], ◌∷◌, ◌++◌, Result, ok, ◌==◌, nat_eq, string_eq,
  if◌then◌else◌, find, any, delete_where, ltb, leb,
}
use apod.Db.{Stmt, Env, Session, Db, failed, run}

-- `WHERE token_hash = ?`.
abbrev pub has_hash : String → Session → Bool
has_hash h s = s.token_hash == h

-- `WHERE token_hash = ? AND expires_at > ?`.
abbrev pub is_live : String → ℕ → Session → Bool
is_live h now s = s.token_hash == h && ltb now s.expires_at

-- No row is the empty name.
abbrev pub session_user : Option Session → String
session_user none = ""
session_user (some s) = s.user_name

module _ (env : Env) where
  -- The token hash is UNIQUE.
  unfoldable pub create_session : String → String → ℕ → Db → Result Db
  unfolding any
  create_session token_hash user_name expires_at d =
      run env Stmt.create_session "insert session: %w" (
        if any (has_hash token_hash) d.sessions
        then failed "insert session: %w"
        else ok (record d {
          sessions =
              d.sessions
              ++ record { token_hash = token_hash; user_name = user_name; expires_at = expires_at }
                ∷ [];
        }))

  unfoldable pub get_session_user : String → Db → Result String
  unfolding find
  get_session_user token_hash d =
      run env Stmt.get_session_user "query session: %w"
        (ok (session_user (find (is_live token_hash env.now) d.sessions)))

  unfoldable pub delete_session : String → Db → Result Db
  unfolding delete_where
  delete_session token_hash d =
      run env Stmt.delete_session "delete session: %w"
        (ok (record d { sessions = delete_where (has_hash token_hash) d.sessions }))

  unfoldable pub delete_sessions_for_user : String → Db → Result Db
  unfolding delete_where
  delete_sessions_for_user user_name d =
      run env Stmt.delete_sessions_for_user "delete user sessions: %w"
        (ok (record d { sessions = delete_where (λ s. s.user_name == user_name) d.sessions }))

  unfoldable pub delete_expired_sessions : Db → Result Db
  unfolding delete_where
  delete_expired_sessions d =
      run env Stmt.delete_expired_sessions "delete expired sessions: %w"
        (ok (record d { sessions = delete_where (λ s. leb s.expires_at env.now) d.sessions }))
