-- ===== src/Auth/Password/Profiles.antt =====
-- The check of the second factor leaves the public columns of every user's row.
use apod.Base.{
  ℕ, ◌≡◌, inl, inr, refl, String, some, List, Result-cases, leb, arith, Bool-cases, Option-cases,
  codes,
}
use apod.Db.{Env, Stmt, UserRow}
use apod.Db.Users.{
  is_named, scan_user, update_user, set_user_totp_last_step, set_user_recovery_codes,
  get_user_recovery_codes, get_user_totp_last_step,
}
use apod.Db.Users.Updates.{profile, profile-update_where, update_user-frame}
use apod.Auth.{Crypto, Engine, written}
use apod.Totp.{verify}
use apod.Auth.SecondFactor.{
  readable, burn, or_zero, floor_for, stored_totp, consume_second_factor, consume_recovery_code,
}
use apod.Auth.Password.{reject, check_second_factor}

module _ (c : Crypto) (env : Env) (name code : String) where
  profile-written :
      (s : Stmt) (f : UserRow → UserRow) (e : Engine)
      → ((u : UserRow) → scan_user (f u) ≡ scan_user u)
      → profile name (written e (update_user env s name f e.db)).db.users ≡ profile name e.db.users
  profile-written s f e keep = elim (Result-cases (update_user env s name f e.db)) [
    | inl (x, n) ↦ rw n
    | inr (d, n) ↦ rw n (
        rw (update_user-frame env s name f e.db d n)
          (profile-update_where name (is_named name) f e.db.users keep))
  ]

  profile-set_user_recovery_codes :
      (hashes : List String) (e : Engine)
      → profile name (written e (set_user_recovery_codes env name hashes e.db)).db.users
        ≡ profile name e.db.users
  unfolding set_user_recovery_codes
  profile-set_user_recovery_codes hashes e =
      profile-written Stmt.set_user_recovery_codes (λ u. record u { recovery_codes = some hashes })
        e (λ u. refl)

  profile-set_user_totp_last_step :
      (n : ℕ) (e : Engine)
      → profile name (written e (set_user_totp_last_step env name n e.db)).db.users
        ≡ profile name e.db.users
  unfolding set_user_totp_last_step
  profile-set_user_totp_last_step n e =
      profile-written Stmt.set_user_totp_last_step (λ u. record u { totp_last_step = n }) e
        (λ u. refl)

  profile-consume_recovery_code :
      (e : Engine)
      → profile name (consume_recovery_code c env name code e).0.db.users ≡ profile name e.db.users
  unfolding consume_recovery_code
  profile-consume_recovery_code e =
      elim (Option-cases (readable (get_user_recovery_codes env name e.db))) [
        | inl n ↦ rw (n, consume_recovery_code)
        | inr (hashes, n) ↦ elim (Option-cases (burn c code hashes)) [
          | inl m ↦ rw (n, m, consume_recovery_code)
          | inr (rest, m) ↦
              rw (n, m, consume_recovery_code) (profile-set_user_recovery_codes rest e)
        ]
      ]

  profile-consume_second_factor :
      (secret : String) (e : Engine)
      → profile name (consume_second_factor c env name secret code e).0.db.users
        ≡ profile name e.db.users
  unfolding consume_second_factor
  profile-consume_second_factor secret e =
      elim (Option-cases (verify c.totp secret (codes code) env.now)) [
        | inl n ↦ rw (n, consume_second_factor) (profile-consume_recovery_code e)
        | inr (s, n) ↦ elim (Bool-cases (leb s (or_zero (get_user_totp_last_step env name e.db)))) [
          | inl old ↦ rw (n, old, consume_second_factor)
          | inr new ↦
              rw (n, new, consume_second_factor)
                (profile-set_user_totp_last_step (floor_for c env s) e)
        ]
      ]

  pub profile-check_second_factor :
      (e : Engine)
      → profile name (check_second_factor c env name code e).0.db.users ≡ profile name e.db.users
  unfolding check_second_factor stored_totp reject
  profile-check_second_factor e = elim (Result-cases (stored_totp c env name e).1) [
    | inl (x, n) ↦ ground arith
    | inr ((secret, enabled), n) ↦ ground (arith, profile-consume_second_factor secret e)
  ]
