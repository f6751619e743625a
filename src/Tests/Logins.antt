-- ===== src/Tests/Logins.antt =====
-- Second factors, logins and password changes on the test database.
use apod.Base.{
  ◌+◌, ◌≡◌, ◌≢◌, inl, refl, true, false, String, none, some, codes, ok, arith, find, any,
  delete_where, has_prefix, cut_prefix, hex_encode,
}
use apod.Totp.{
  step, hotp, truncate, six_digits, put_uint64, uint32_at, bytes_eq, first_match, verify,
}
use apod.Db.{Env, Stmt}
use apod.Db.Users.{
  User, get_user_by_name, get_user_password_hash, get_user_totp, get_user_totp_last_step,
  set_user_password_hash, update_user,
}
use apod.Db.Sessions.{
  create_session, delete_session, delete_expired_sessions, get_session_user,
  delete_sessions_for_user,
}
use apod.Auth.{Engine, log_activity}
use apod.Auth.Throttle.{new_login_throttle, locked, reset}
use apod.Auth.SecondFactor.{consume_second_factor, stored_totp, decrypt_secret_value}
use apod.Auth.SecondFactor.Replay.{consume-refuses-replay}
use apod.Auth.Password.{
  check_second_factor, clear_failures, open_session, login_with_password, set_user_password,
  change_own_password, validate_session_token, logout, is_session_token,
}
use apod.Auth.Password.Login.{IsAuthentic, login_sound}
use apod.Auth.Password.Sessions.{validate-login}
use apod.Auth.Password.Change.{IsOwner, change_own_password_sound}
use apod.Tests.Data.{crypto, totp, env, env_at, noon, root, engine}

abbrev alice_code : String
alice_code = "870912"

verified : verify totp "S" (codes alice_code) noon ≡ some 1440
unfolding verify first_match bytes_eq hotp truncate uint32_at six_digits put_uint64 step
verified = refl

abbrev after_code : Engine
after_code = (consume_second_factor crypto env "alice" "S" alice_code engine).0

accepted : (consume_second_factor crypto env "alice" "S" alice_code engine).1 ≡ true
unfolding consume_second_factor get_user_totp_last_step find verify first_match bytes_eq hotp
    truncate uint32_at six_digits put_uint64 step
accepted = refl

-- The same code again.
consume-refuses-replay_example :
    consume_second_factor crypto env "alice" "S" alice_code after_code ≡ (after_code, false)
unfolding consume_second_factor get_user_totp_last_step any find
consume-refuses-replay_example =
    consume-refuses-replay crypto env env "alice" "S" alice_code alice_code engine 1440 1440 refl
      refl refl verified accepted verified (inl (omega arith))

abbrev unreadable : Env
unreadable = record env { down = λ s. elim s [ Stmt.get_user_totp_last_step ↦ true | _ ↦ false ] }

-- The same code again, while the floor cannot be read.
replayed : (consume_second_factor crypto unreadable "alice" "S" alice_code after_code).1 ≡ true
unfolding consume_second_factor get_user_totp_last_step any find verify first_match bytes_eq hotp
    truncate uint32_at six_digits put_uint64 step
replayed = refl

abbrev root_token : String
root_token = "apod_sess_0102"

root_login :
    (login_with_password crypto env "root" "password-r" "" engine).1 ≡ ok (root_token, root)
unfolding login_with_password locked new_login_throttle get_user_password_hash get_user_by_name find
    check_second_factor stored_totp decrypt_secret_value get_user_totp has_prefix cut_prefix
    open_session clear_failures reset hex_encode delete_expired_sessions create_session log_activity
    any delete_where
root_login = refl

login_sound_example : IsAuthentic crypto env "root" "" "password-r" root engine
login_sound_example =
    login_sound crypto env "root" "" "password-r" root root_token engine root_login

abbrev logged_in : Engine
logged_in = (login_with_password crypto env "root" "password-r" "" engine).0

abbrev later : Env
later = env_at (noon + 1000000000)

validate-login_example :
    (is_session_token root_token ≡ true)
    × (validate_session_token crypto later root_token logged_in ≡ (logged_in, ok (some root)))
validate-login_example =
    validate-login crypto env "root" "" "password-r" root root_token engine later root_login
      (λ e. absurd (not_empty e)) (omega arith) refl refl
  where
    not_empty : ◌≡◌ {A = String} "root" "" → ⊥
    not_empty e = cc

logged_out : (logout crypto later root_token logged_in).1 ≡ ok tt
unfolding logout delete_session
logged_out = refl

after_logout :
    (validate_session_token crypto later root_token (logout crypto later root_token logged_in).0).1
    ≡ ok none
unfolding logout delete_session validate_session_token get_session_user find delete_where has_prefix
    login_with_password locked new_login_throttle get_user_password_hash get_user_by_name
    check_second_factor stored_totp decrypt_secret_value get_user_totp cut_prefix open_session
    clear_failures reset hex_encode delete_expired_sessions create_session log_activity any
after_logout = refl

password_set : (set_user_password crypto env "alice" "password-new" engine).1 ≡ ok tt
unfolding get_user_by_name set_user_password set_user_password_hash update_user any
    delete_sessions_for_user log_activity delete_where
password_set = refl

change_own_password_sound_example :
    IsOwner crypto env "root" "password-new" "password-r" "" engine
    × ((env' : Env) (raw : String) (u : User)
        → (validate_session_token crypto env' raw
            (change_own_password crypto env "root" "password-r" "" "password-new" engine).0).1
          ≡ ok (some u)
        → u.name ≢ "root")
unfolding get_user_by_name change_own_password check_second_factor clear_failures reset locked
    new_login_throttle get_user_password_hash find stored_totp decrypt_secret_value get_user_totp
    has_prefix cut_prefix set_user_password set_user_password_hash update_user any
    delete_sessions_for_user log_activity delete_where
change_own_password_sound_example =
    change_own_password_sound crypto env "root" "password-new" "password-r" "" engine refl
