-- ===== src/Auth/Password/Change.antt =====
-- When a user may change their own password, and the sessions after it.
use apod.Base.{
  Result-cases, find-not_any, ◌≡◌, ◌≢◌, ◌⊎◌, inl, inr, subst, ◌∙◌, true, false, String, some,
  Result, ok, err, Error, Result-cases, ◌==◌, nat_eq, string_eq, find, arith, Option-cases,
}
use apod.Db.{Env, Db}
use apod.Db.Users.{User, get_user_password_hash}
use apod.Db.Users.Updates.{get_user_by_name-name}
use apod.Db.Sessions.{is_live, get_session_user}
use apod.Auth.{>>=-ok, Crypto, Engine, ◌>>=◌}
use apod.Auth.Throttle.{locked}
use apod.Auth.Password.{
  reject, clear_failures, check_second_factor, set_user_password, change_own_password,
  validate_session_token,
}
use apod.Auth.Password.Login.{PassesSecondFactor, check_second_factor_sound}
use apod.Auth.Password.Reset.{HasNoSession, set_user_password_sound}

module _ (c : Crypto) (env : Env) (name password : String) where
  get_session_user_other :
      (env' : Env) (h n : String) (d : Db)
      → HasNoSession name d
      → get_session_user env' h d ≡ ok n
      → (n ≡ "") ⊎ (n ≢ name)
  unfolding get_session_user
  get_session_user_other env' h n d gone e =
      elim (Option-cases (find (is_live h env'.now) d.sessions)) [
        | inl missing ↦ inl (ground arith)
        | inr (s, at) ↦
            let other =
              find-not_any (is_live h env'.now) (λ r. r.user_name == name) d.sessions s gone at in
            inr (ground (arith, string_eq.beq_iff s.user_name name))
      ]

  -- With no session of the user in the table, no token is a session of that user's.
  no_session_of_user :
      (env' : Env) (raw : String) (u : User) (e : Engine)
      → HasNoSession name e.db
      → (validate_session_token c env' raw e).1 ≡ ok (some u)
      → u.name ≢ name
  unfolding validate_session_token
  no_session_of_user env' raw u e gone h =
      elim (Result-cases (get_session_user env' (c.sha256_hex raw) e.db)) [
        | inl (x, n) ↦ absurd (failed_read x n)
        | inr (n, at) ↦ elim (get_session_user_other env' (c.sha256_hex raw) n e.db gone at) [
          | inl empty ↦ absurd (no_name n at empty)
          | inr other ↦
              let (_, _, _, same) =
                get_user_by_name-name env' n e.db u (ground (arith, string_eq.beq_iff n "")) in
              rw same other
        ]
      ]
    where
      failed_read : (x : Error) → get_session_user env' (c.sha256_hex raw) e.db ≡ err x → ⊥
      failed_read x n = ground arith

      no_name : (n : String) → get_session_user env' (c.sha256_hex raw) e.db ≡ ok n → n ≡ "" → ⊥
      no_name n at empty = ground (arith, string_eq.beq_iff n "")

  -- What a change of one's own password has established of the state in which it started.
  pub record IsOwner (current code : String) (e : Engine) : Type 0 where
    pub hash : String
    pub unlocked : locked e.throttle name env.now ≡ false
    pub stored : get_user_password_hash env name e.db ≡ ok hash
    pub proved : hash ≢ "" → c.bcrypt_matches hash current ≡ true
    pub second : PassesSecondFactor c env name code e

  module _ (current code : String) (e : Engine) where
    -- The change as its first part and the rest.
    change_rest :
        (hash : String)
        → get_user_password_hash env name e.db ≡ ok hash
        → (change_own_password c env name current code password e).1 ≡ ok tt
        → (locked e.throttle name env.now ≡ false)
          × (hash ≢ "" → c.bcrypt_matches hash current ≡ true)
          × (change_own_password c env name current code password e
              ≡ (check_second_factor c env name code >>= λ _.
                    clear_failures c env name >>= λ _. set_user_password c env name password)
                  e)
    unfolding change_own_password reject
    change_rest hash stored h =
        (ground arith, ground (arith, string_eq.beq_iff hash ""), ground arith)

    unread :
        (x : Error)
        → get_user_password_hash env name e.db ≡ err x
        → (change_own_password c env name current code password e).1 ≡ ok tt
        → ⊥
    unfolding change_own_password
    unread x n h = ground arith

    -- A user changes their own password only while the account is not locked, with the current password
    -- if there is one, and with a second factor if it is enabled; in the state that it
    -- leaves no session token is answered with that user, whatever the clock shows.
    pub change_own_password_sound :
        (change_own_password c env name current code password e).1 ≡ ok tt
        → IsOwner current code e
          × ((env' : Env) (raw : String) (u : User)
              → (validate_session_token c env' raw
                  (change_own_password c env name current code password e).0).1
                ≡ ok (some u)
              → u.name ≢ name)
    change_own_password_sound h = elim (Result-cases (get_user_password_hash env name e.db)) [
      | inl (x, n) ↦ absurd (unread x n h)
      | inr (hash, stored) ↦
          let (free, proved, same) = change_rest hash stored h in
          let (_, checked, rest, step1) =
            >>=-ok (check_second_factor c env name code)
              (λ _. clear_failures c env name >>= λ _. set_user_password c env name password) e
              (rw same at h) in
          let (_, _, set_ok, step2) =
            >>=-ok (clear_failures c env name) (λ _. set_user_password c env name password)
              (check_second_factor c env name code e).0 rest in
          let e2 : Engine =
            (clear_failures c env name (check_second_factor c env name code e).0).0 in
          let (_, _, _, gone, _) = set_user_password_sound c env name password e2 set_ok in
          (
            record {
              hash = hash;
              unlocked = free;
              stored = stored;
              proved = proved;
              second = check_second_factor_sound c env name code e checked;
            },
            λ env' raw u v.
                no_session_of_user env' raw u (set_user_password c env name password e2).0 gone (
                  subst
                    (λ (r : Engine × Result (Unit {0})).
                      (validate_session_token c env' raw r.0).1 ≡ ok (some u))
                    (same ∙ step1 ∙ step2) v),
          )
    ]
