-- ===== src/Auth/Password.antt =====
-- internal/engine/auth.go: passwords, logins and sessions.
pub mod Login
pub mod Profiles
pub mod Sessions
pub mod Logout
pub mod Reset
pub mod Change
use apod.Base.{
  ℕ, ◌+◌, ◌*◌, Bool, not, ◌&&◌, ◌||◌, String, Option, none, some, ok, err, plain, wrapping,
  invalid_credentials, two_factor_required, account_locked, ◌==◌, nat_eq, string_eq, if◌then◌else◌,
  ltb, has_prefix, ◌<>◌, hex_encode,
}
use Prim.Native.String.{len}
use apod.Db.{Env, Db}
use apod.Db.Users.{User, get_user_by_name, get_user_password_hash, set_user_password_hash}
use apod.Db.Sessions.{
  create_session, get_session_user, delete_session, delete_sessions_for_user,
  delete_expired_sessions,
}
use apod.Auth.{
  Crypto, Engine, M, ◌>>=◌, ◌>>◌, pure, fail, query, exec, best_effort, attempt, lift, require,
  written, log_activity,
}
use apod.Auth.Throttle.{locked, record_failure, reset, second, minute}
use apod.Auth.SecondFactor.{stored_totp, consume_second_factor}

abbrev pub session_token_prefix : String
session_token_prefix = "apod_sess_"

abbrev pub session_ttl : ℕ
session_ttl = 24 * (60 * minute)

abbrev pub min_password_length : ℕ
min_password_length = 8

-- `IsSessionToken`.
abbrev pub is_session_token : String → Bool
is_session_token token = has_prefix token session_token_prefix

-- A wrapped error of a step, with the state that the step leaves.
abbrev pub wrapped {ℓ} : {A : Type ℓ} → String → M A → M A
wrapped msg m e = ((m e).0, wrapping msg (m e).1)

module _ (c : Crypto) (env : Env) where
  -- The failure is counted, and the caller learns no more than that the credentials are wrong.
  unfoldable pub reject {ℓ} : {A : Type ℓ} → String → M A
  reject name e =
      (record e { throttle = record_failure e.throttle name env.now }, err invalid_credentials)

  unfoldable pub clear_failures : String → M (Unit {0})
  clear_failures name e = (record e { throttle = reset e.throttle name }, ok tt)

  -- The part that a login and a password change share: where the second factor is enabled, a code is
  -- asked for and consumed.
  unfoldable pub check_second_factor : String → String → M (Unit {0})
  check_second_factor name code = do
    (secret, enabled) ← wrapped "verify second factor: %w" (stored_totp c env name)
    if enabled
        then (if code == "" then fail two_factor_required else (λ e.
            let r = consume_second_factor c env name secret code e in
            if r.1 then (r.0, ok tt) else reject name r.0))
        else pure tt

  -- `SetUserPassword`; the salt is drawn by bcrypt.
  unfoldable pub set_user_password : String → String → M (Unit {0})
  set_user_password name password =
      if ltb (len password) min_password_length
      then fail (plain "password must be at least %d characters")
      else (do
        user ← query (get_user_by_name env name)
        hash ← require (plain "hash password: %w") (c.bcrypt_generate (env.rand 0) password)
        exec (set_user_password_hash env name hash)
        exec (delete_sessions_for_user env name)
        log_activity env "server" "user_set_password" "password updated for %s" "success")

  -- `ChangeOwnPassword`.
  unfoldable pub change_own_password : String → String → String → String → M (Unit {0})
  change_own_password name current_password code new_password e =
      if locked e.throttle name env.now
      then (e, err account_locked)
      else (do
        hash ← query (get_user_password_hash env name)
        if not (hash == "") && not (c.bcrypt_matches hash current_password)
            then reject name
            else (do
              check_second_factor name code
              clear_failures name
              set_user_password name new_password))
          e

  -- The end of a login, once the credentials are right: the session.
  unfoldable pub open_session : String → User → M (String × User)
  open_session name user = do
    clear_failures name
    bytes ← require (plain "generate session token: %w") (env.rand 0)
    let raw = session_token_prefix <> hex_encode bytes
    best_effort (delete_expired_sessions env)
    wrapped "create session: %w"
        (exec (create_session env (c.sha256_hex raw) name (env.now + session_ttl)))
    log_activity env "server" "user_login" "session created for %s" "success"
    pure (raw, user)

  -- `LoginWithPassword`. The comparison with a fixed hash for unknown users, which only takes time, is
  -- left out.
  unfoldable pub login_with_password : String → String → String → M (String × User)
  login_with_password name password code e =
      if locked e.throttle name env.now
      then (e, err account_locked)
      else (do
        hash ← attempt (query (get_user_password_hash env name))
        elim hash [
          | err x ↦ reject name
          | ok h ↦ if h == "" || not (c.bcrypt_matches h password) then reject name else (do
            user ← attempt (query (get_user_by_name env name))
            elim user [
              | err x ↦ reject name
              | ok u ↦ do check_second_factor name code; open_session name u
            ])
        ])
          e

  -- `ValidateSessionToken`; `none` is the source's `nil, nil`.
  unfoldable pub validate_session_token : String → M (Option User)
  validate_session_token raw = if not (is_session_token raw) then pure none else (do
    name ← query (get_session_user env (c.sha256_hex raw))
    if name == "" then pure none else (do pure (some (← query (get_user_by_name env name)))))

  unfoldable pub logout : String → M (Unit {0})
  logout raw = exec (delete_session env (c.sha256_hex raw))
