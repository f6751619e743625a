-- ===== src/Auth/Password/Sessions.antt =====
-- The session that a login opens.
use apod.Base.{
  find-none_of_stricter, ℕ, ◌+◌, ◌<◌, ◌≡◌, ◌≢◌, inl, inr, sym, subst, ◌∙◌, true, false, String,
  none, some, List, [], ◌∷◌, ◌++◌, Result, ok, err, Error, Result-cases, nat_eq, string_eq, find,
  any, arith, Option-cases, has_prefix, ◌<>◌, hex_encode, has_prefix-append, find-append_none,
}
use apod.Db.{Env, Db, Stmt, Session}
use apod.Db.Users.{User}
use apod.Db.Users.Updates.{profile, get_user_by_name_of_profile, profile_of_get_user_by_name}
use apod.Db.Sessions.{
  has_hash, is_live, session_user, get_session_user, create_session, delete_expired_sessions,
}
use apod.Auth.{>>=-ok, Crypto, Engine, ◌>>=◌, written, log_activity}
use apod.Auth.Password.Login.{IsAuthentic, login_sound}
use apod.Auth.Password.{
  clear_failures, check_second_factor, open_session, login_with_password, session_token_prefix,
  session_ttl, is_session_token, validate_session_token,
}
use apod.Auth.Password.Profiles.{profile-check_second_factor}

module _ (c : Crypto) (env : Env) (name code : String) where
  -- What a login leaves: a row for the token's hash.
  record Opened (user : User) (token : String) (e e' : Engine) : Type 0 where
    bytes : List ℕ
    prefixed : token ≡ session_token_prefix <> hex_encode bytes
    before : List Session
    unused : any (has_hash (c.sha256_hex token)) before ≡ false
    rows :
        e'.db.sessions
        ≡ before
          ++ record {
            token_hash = c.sha256_hex token;
            user_name = name;
            expires_at = env.now + session_ttl;
          }
            ∷ []
    users : e'.db.users ≡ e.db.users

  create_session-frame :
      (hash n : String) (t : ℕ) (d d' : Db)
      → create_session env hash n t d ≡ ok d'
      → (any (has_hash hash) d.sessions ≡ false)
        × (d' ≡ record d {
          sessions = d.sessions ++ record { token_hash = hash; user_name = n; expires_at = t } ∷ [];
        })
  unfolding create_session
  create_session-frame hash n t d d' h = (ground arith, ground arith)

  delete_expired-users :
      (e : Engine) → (written e (delete_expired_sessions env e.db)).db.users ≡ e.db.users
  unfolding delete_expired_sessions
  delete_expired-users e = ground arith

  open_session_opens :
      (user u : User) (token : String) (e : Engine)
      → (open_session c env name user e).1 ≡ ok (token, u)
      → Opened user token e (open_session c env name user e).0
  unfolding open_session clear_failures log_activity
  open_session_opens user u token e h = elim (Option-cases (env.rand 0)) [
    | inl n ↦ absurd (no_bytes n)
    | inr (bytes, b) ↦
        let raw = session_token_prefix <> hex_encode bytes in
        let d = (written e (delete_expired_sessions env e.db)).db in
        elim (Result-cases (create_session env (c.sha256_hex raw) name (env.now + session_ttl) d)) [
          | inl (x, n) ↦ absurd (not_created bytes b x n)
          | inr (d', made) ↦
              let (unused, frame) =
                create_session-frame (c.sha256_hex raw) name (env.now + session_ttl) d d' made in
              let tok : token ≡ raw = ground arith in
              record {
                bytes = bytes;
                prefixed = tok;
                before = d.sessions;
                unused =
                    subst (λ t. any (has_hash (c.sha256_hex t)) d.sessions ≡ false) (sym tok)
                      unused;
                rows = ground (arith, frame, tok);
                users = ground (arith, frame, delete_expired-users e);
              }
        ]
  ]
    where
      no_bytes : env.rand 0 ≡ none → ⊥
      no_bytes n = ground arith

      not_created :
          (bytes : List ℕ)
          → env.rand 0 ≡ some bytes
          → (x : Error)
          → create_session env
              (c.sha256_hex (session_token_prefix <> hex_encode bytes))
              name
              (env.now + session_ttl)
              (written e (delete_expired_sessions env e.db)).db
            ≡ err x
          → ⊥
      not_created bytes b x n = ground arith

  module _ (env' : Env) (user : User) (token : String) (e e' : Engine) where
    session_of_Opened :
        Opened user token e e'
        → env'.now < env.now + session_ttl
        → env'.down Stmt.get_session_user ≡ false
        → get_session_user env' (c.sha256_hex token) e'.db ≡ ok name
    unfolding get_session_user
    session_of_Opened o soon w =
        let hash = c.sha256_hex token in
        let row : Session = record {
          token_hash = hash;
          user_name = name;
          expires_at = env.now + session_ttl;
        } in
        let skip = find-append_none (is_live hash env'.now) o.before (row ∷ []) (
          find-none_of_stricter (is_live hash env'.now) (has_hash hash) o.before
            (λ s. live_has_hash s hash) o.unused) in
        rw (w, o.rows, skip) (hit hash)
      where
        live_has_hash :
            (s : Session) (h : String) → is_live h env'.now s ≡ true → has_hash h s ≡ true
        live_has_hash s h q = ground arith

        hit :
            (h : String)
            → ◌≡◌ {A = Result String}
                (ok (
                  session_user (
                    find (is_live h env'.now) (
                      record {
                        token_hash = h;
                        user_name = name;
                        expires_at = env.now + session_ttl;
                      }
                      ∷ []))))
                (ok name)
        hit h = ground (arith, string_eq.beq_iff h h)

    validate_of_Opened :
        Opened user token e e'
        → profile name e.db.users ≡ some user
        → name ≢ ""
        → env'.now < env.now + session_ttl
        → env'.down Stmt.get_session_user ≡ false
        → env'.down Stmt.get_user_by_name ≡ false
        → validate_session_token c env' token e' ≡ (e', ok (some user))
    unfolding validate_session_token
    validate_of_Opened o p n soon w1 w2 = ground (
      arith,
      subst (λ t. has_prefix t session_token_prefix ≡ true) (sym o.prefixed)
          (has_prefix-append session_token_prefix (hex_encode o.bytes)),
      session_of_Opened o soon w1,
      get_user_by_name_of_profile env' name e'.db user w2
          (subst (λ rows. profile name rows ≡ some user) (sym o.users) p),
      string_eq.beq_iff name "",
    )

  module _ (password : String) (user : User) (token : String) (e : Engine) where
    login_runs :
        IsAuthentic c env name code password user e
        → login_with_password c env name password code e
          ≡ (check_second_factor c env name code >>= λ _. open_session c env name user) e
    unfolding login_with_password
    login_runs a = ground (
      arith,
      string_eq.beq_iff a.hash "",
      a.stored,
      a.found,
      a.unlocked,
      a.matches,
      a.has_password,
    )

    -- The token of a login is a session token, and in the state that the login leaves every request with
    -- it within the next 24 hours is answered with the user who logged in, if the two queries run.
    pub validate-login :
        (env' : Env)
        → (login_with_password c env name password code e).1 ≡ ok (token, user)
        → name ≢ ""
        → env'.now < env.now + session_ttl
        → env'.down Stmt.get_session_user ≡ false
        → env'.down Stmt.get_user_by_name ≡ false
        → let e' = (login_with_password c env name password code e).0 in
          (is_session_token token ≡ true)
          × (validate_session_token c env' token e' ≡ (e', ok (some user)))
    validate-login env' h n soon w1 w2 =
        let a = login_sound c env name code password user token e h in
        let runs = login_runs a in
        let (_, _, opened, step) =
          >>=-ok (check_second_factor c env name code) (λ _. open_session c env name user) e
            (rw runs at h) in
        let e1 : Engine = (check_second_factor c env name code e).0 in
        let o = open_session_opens user user token e1 opened in
        let p =
          profile-check_second_factor c env name code e
          ∙ profile_of_get_user_by_name env name e.db user a.found in
        let v =
          validate_of_Opened env' user token e1 (open_session c env name user e1).0 o p n soon w1
            w2 in
        (
          subst (λ t. has_prefix t session_token_prefix ≡ true) (sym o.prefixed)
              (has_prefix-append session_token_prefix (hex_encode o.bytes)),
          subst
              (λ (r : Engine × Result (String × User)).
                validate_session_token c env' token r.0 ≡ (r.0, ok (some user)))
              (sym (runs ∙ step)) v,
        )
