-- ===== src/Auth/Password/Login.antt =====
-- What a login that succeeds has checked, and what one that fails reveals.
use apod.Base.{
  ◌≡◌, ◌≢◌, ◌⊎◌, inl, inr, Bool, true, false, not, ◌||◌, String, ok, err, Error,
  invalid_credentials, Result-cases, ◌==◌, nat_eq, string_eq, arith, Bool-cases,
}
use apod.Db.{Env}
use apod.Db.Users.{User, get_user_by_name, get_user_password_hash}
use apod.Auth.{>>=-ok, Crypto, Engine, ◌>>=◌}
use apod.Auth.Throttle.{locked, record_failure}
use apod.Auth.SecondFactor.{stored_totp, consume_second_factor}
use apod.Auth.Password.{
  reject, clear_failures, check_second_factor, open_session, login_with_password,
}

module _ (c : Crypto) (env : Env) (name code : String) where
  -- What the second step asks for: where the factor is enabled, a code that is consumed.
  abbrev pub PassesSecondFactor : Engine → Type 0
  PassesSecondFactor e =
      (secret : String) × (enabled : Bool) × ((stored_totp c env name e).1 ≡ ok (secret, enabled))
      × (enabled ≡ true → (code ≢ "") × ((consume_second_factor c env name secret code e).1 ≡ true))

  stored_totp-frame : (e : Engine) → (stored_totp c env name e).0 ≡ e
  unfolding stored_totp
  stored_totp-frame e = ground arith

  pub check_second_factor_sound :
      (e : Engine) → (check_second_factor c env name code e).1 ≡ ok tt → PassesSecondFactor e
  unfolding check_second_factor reject
  check_second_factor_sound e h = elim (Result-cases (stored_totp c env name e).1) [
    | inl (x, e1) ↦ absurd (refused x e1)
    | inr ((secret, enabled), e1) ↦
        (secret, enabled, e1, ground (arith, stored_totp-frame e, string_eq.beq_iff code ""))
  ]
    where
      refused : (x : Error) → (stored_totp c env name e).1 ≡ err x → ⊥
      refused x e1 = ground arith

  open_session-user :
      (user u : User) (token : String) (e : Engine)
      → (open_session c env name user e).1 ≡ ok (token, u)
      → u ≡ user
  unfolding open_session clear_failures
  open_session-user user u token e h = ground arith

  -- What a login has established of the state in which it started.
  pub record IsAuthentic (password : String) (user : User) (e : Engine) : Type 0 where
    pub hash : String
    pub unlocked : locked e.throttle name env.now ≡ false
    pub stored : get_user_password_hash env name e.db ≡ ok hash
    pub has_password : hash ≢ ""
    pub matches : c.bcrypt_matches hash password ≡ true
    pub found : get_user_by_name env name e.db ≡ ok user
    pub second : PassesSecondFactor e

  -- The part of a login after the password.
  module _ (password : String) (user : User) (token : String) (e : Engine) where
    login_user_sound :
        (hash : String)
        → locked e.throttle name env.now ≡ false
        → get_user_password_hash env name e.db ≡ ok hash
        → hash ≢ ""
        → c.bcrypt_matches hash password ≡ true
        → (login_with_password c env name password code e).1 ≡ ok (token, user)
        → IsAuthentic password user e
    unfolding login_with_password reject
    login_user_sound hash l p n m h = elim (Result-cases (get_user_by_name env name e.db)) [
      | inl (x, e1) ↦ absurd (unknown x e1)
      | inr (u, e1) ↦
          let (_, checked, opened, _) =
            >>=-ok (check_second_factor c env name code) (λ _. open_session c env name u) e
              (rest u e1) in
          let same =
            open_session-user u user token (check_second_factor c env name code e).0 opened in
          record {
            hash = hash;
            unlocked = l;
            stored = p;
            has_password = n;
            matches = m;
            found = rw same e1;
            second = check_second_factor_sound e checked;
          }
    ]
      where
        unknown : (x : Error) → get_user_by_name env name e.db ≡ err x → ⊥
        unknown x e1 = ground (arith, string_eq.beq_iff hash "")

        rest :
            (u : User)
            → get_user_by_name env name e.db ≡ ok u
            → ((check_second_factor c env name code >>= λ _. open_session c env name u) e).1
              ≡ ok (token, user)
        rest u e1 = ground (arith, string_eq.beq_iff hash "")

    -- A login succeeds only for an account that is not locked, that has a password, with a password that
    -- matches its hash, as the user of that name, and, where the second factor is enabled, with a code
    -- that is not empty and that is accepted as a second factor. A secret that cannot be read or decrypted
    -- counts against the login.
    pub login_sound :
        (login_with_password c env name password code e).1 ≡ ok (token, user)
        → IsAuthentic password user e
    unfolding login_with_password reject
    login_sound h = elim (Bool-cases (locked e.throttle name env.now)) [
      | inl shut ↦ absurd (not_locked shut)
      | inr free ↦ elim (Result-cases (get_user_password_hash env name e.db)) [
        | inl (x, e1) ↦ absurd (no_hash x free e1)
        | inr (hash, e1) ↦ elim (Bool-cases (hash == "" || not (c.bcrypt_matches hash password))) [
          | inl wrong ↦ absurd (mismatch hash free e1 wrong)
          | inr right ↦
              login_user_sound hash free e1 (ground (arith, string_eq.beq_iff hash ""))
                (ground arith) h
        ]
      ]
    ]
      where
        not_locked : locked e.throttle name env.now ≡ true → ⊥
        not_locked shut = ground arith

        no_hash :
            (x : Error)
            → locked e.throttle name env.now ≡ false
            → get_user_password_hash env name e.db ≡ err x
            → ⊥
        no_hash x free e1 = ground arith

        mismatch :
            (hash : String)
            → locked e.throttle name env.now ≡ false
            → get_user_password_hash env name e.db ≡ ok hash
            → (hash == "" || not (c.bcrypt_matches hash password)) ≡ true
            → ⊥
        mismatch hash free e1 wrong = ground arith

  -- A wrong password, an account with no password and an unknown name are answered alike: the same
  -- error, the same throttle, and an untouched database. So the answer does not tell which names exist.
  pub login_rejects :
      (password : String) (e : Engine)
      → locked e.throttle name env.now ≡ false
      → ((x : Error) × (get_user_password_hash env name e.db ≡ err x))
        ⊎ ((hash : String) × (get_user_password_hash env name e.db ≡ ok hash)
            × ((hash ≡ "") ⊎ (c.bcrypt_matches hash password ≡ false)))
      → login_with_password c env name password code e
        ≡ (record e { throttle = record_failure e.throttle name env.now }, err invalid_credentials)
  unfolding login_with_password reject
  login_rejects password e free (inl (x, e1)) = ground arith
  login_rejects password e free (inr (hash, e1, inl empty)) =
      ground (arith, string_eq.beq_iff hash "")
  login_rejects password e free (inr (hash, e1, inr wrong)) = ground arith
