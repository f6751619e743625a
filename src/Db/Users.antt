-- ===== src/Db/Users.antt =====
-- internal/db/users.go, and the second-factor columns of internal/db/tokens.go. The JSON text of the
-- recovery codes is kept decoded.
pub mod Updates
use mathlib.Core.Option
use apod.Base.{
  ℕ, ◌+◌, Bool, false, not, ◌&&◌, ◌||◌, String, Option, none, some, List, [], ◌∷◌, ◌++◌, Result, ok,
  err, plain, ◌>>=◌, ◌==◌, nat_eq, string_eq, if◌then◌else◌, find, any, update_where, delete_where,
  length, codes,
}
use apod.Db.{Stmt, Env, UserRow, Db, failed, run}

-- models.User, without the creation time.
pub record User : Type 0 where
  pub id : ℕ
  pub name : String
  pub uid : ℕ
  pub role : String
  pub can_create_sites : Bool

-- The columns that the queries for a user scan.
abbrev pub scan_user : UserRow → User
scan_user u = record {
  id = u.id;
  name = u.name;
  uid = u.uid;
  role = u.role;
  can_create_sites = u.can_create_sites;
}

-- `WHERE name = ?`.
abbrev pub is_named : String → UserRow → Bool
is_named n u = u.name == n

-- The error of a missing row, or the row.
abbrev pub or_not_found : Option UserRow → Result UserRow
or_not_found none = err (plain "user %q not found")
or_not_found (some u) = ok u

module _ (env : Env) where
  -- `updateUser`: an UPDATE of the row of that name, and an error if no row matched.
  unfoldable pub update_user : Stmt → String → (UserRow → UserRow) → Db → Result Db
  unfolding any update_where
  update_user s name f d = run env s "update user: %w" (
      if any (is_named name) d.users
      then ok (record d { users = update_where (is_named name) f d.users })
      else err (plain "user %q not found"))

  -- Name, uid and key hash are UNIQUE.
  unfoldable pub create_user : String → String → String → ℕ → Db → Result Db
  unfolding any
  create_user name api_key_hash role uid d = run env Stmt.create_user "insert user: %w" (
      if any (λ u. is_named name u || u.uid == uid || u.api_key_hash == api_key_hash) d.users
      then failed "insert user: %w"
      else ok (record d {
        users =
            d.users
            ++ record {
              id = d.next_user_id;
              name = name;
              uid = uid;
              role = role;
              api_key_hash = api_key_hash;
              password_hash = "";
              can_create_sites = false;
              totp_secret = "";
              totp_enabled = false;
              totp_last_step = 0;
              recovery_codes = some [];
            }
              ∷ [];
        next_user_id = d.next_user_id + 1;
      }))

  unfoldable pub get_user_by_name : String → Db → Result User
  unfolding find
  get_user_by_name name d =
      run env Stmt.get_user_by_name "query user: %w"
        (or_not_found (find (is_named name) d.users) >>= λ u. ok (scan_user u))

  -- `none` is the source's `nil, nil`.
  unfoldable pub get_user_by_api_key_hash : String → Db → Result (Option User)
  unfolding find
  get_user_by_api_key_hash hash d =
      run env Stmt.get_user_by_api_key_hash "query user by key: %w"
        (ok (Option.map scan_user (find (λ u. u.api_key_hash == hash) d.users)))

  unfoldable pub set_user_password_hash : String → String → Db → Result Db
  unfolding update_user
  set_user_password_hash name hash =
      update_user Stmt.set_user_password_hash name (λ u. record u { password_hash = hash })

  unfoldable pub get_user_password_hash : String → Db → Result String
  unfolding find
  get_user_password_hash name d =
      run env Stmt.get_user_password_hash "query password hash: %w"
        (or_not_found (find (is_named name) d.users) >>= λ u. ok u.password_hash)

  unfoldable pub set_user_can_create_sites : String → Bool → Db → Result Db
  unfolding update_user
  set_user_can_create_sites name allowed =
      update_user Stmt.set_user_can_create_sites name (λ u. record u { can_create_sites = allowed })

  unfoldable pub delete_user : String → Db → Result Db
  unfolding any delete_where
  delete_user name d = run env Stmt.delete_user "delete user: %w" (
      if any (is_named name) d.users
      then ok (record d { users = delete_where (is_named name) d.users })
      else err (plain "user %q not found"))

  -- The key hash is UNIQUE, so another user's hash is refused.
  unfoldable pub update_user_api_key_hash : String → String → Db → Result Db
  unfolding update_user any
  update_user_api_key_hash name new_hash d =
      if any (λ u. not (is_named name u) && u.api_key_hash == new_hash) d.users
        && any (is_named name) d.users
      then failed "update api key: %w"
      else update_user Stmt.update_user_api_key_hash name
          (λ u. record u { api_key_hash = new_hash }) d

  unfoldable pub count_sites_by_owner : String → Db → Result ℕ
  unfolding delete_where
  count_sites_by_owner owner d =
      run env Stmt.count_sites_by_owner "%w"
        (ok (length (delete_where (λ o. not (o == owner)) d.site_owners)))

  -- The secret as stored, and whether the second factor is enforced.
  unfoldable pub get_user_totp : String → Db → Result (String × Bool)
  unfolding find
  get_user_totp name d =
      run env Stmt.get_user_totp "query totp: %w"
        (or_not_found (find (is_named name) d.users) >>= λ u. ok (u.totp_secret, u.totp_enabled))

  unfoldable pub set_user_totp_secret : String → String → Db → Result Db
  unfolding update_user
  set_user_totp_secret name secret =
      update_user Stmt.set_user_totp_secret name (λ u. record u { totp_secret = secret })

  unfoldable pub set_user_totp_enabled : String → Bool → Db → Result Db
  unfolding update_user
  set_user_totp_enabled name enabled =
      update_user Stmt.set_user_totp_enabled name (λ u. record u { totp_enabled = enabled })

  unfoldable pub clear_user_totp : String → Db → Result Db
  unfolding update_user
  clear_user_totp name = update_user Stmt.clear_user_totp name (λ u. record u {
    totp_secret = "";
    totp_enabled = false;
    totp_last_step = 0;
    recovery_codes = some [];
  })

  unfoldable pub get_user_totp_last_step : String → Db → Result ℕ
  unfolding find
  get_user_totp_last_step name d =
      run env Stmt.get_user_totp_last_step "%w"
        (or_not_found (find (is_named name) d.users) >>= λ u. ok u.totp_last_step)

  unfoldable pub set_user_totp_last_step : String → ℕ → Db → Result Db
  unfolding update_user
  set_user_totp_last_step name step =
      update_user Stmt.set_user_totp_last_step name (λ u. record u { totp_last_step = step })

  unfoldable pub get_user_recovery_codes : String → Db → Result (Option (List String))
  unfolding find
  get_user_recovery_codes name d =
      run env Stmt.get_user_recovery_codes "%w"
        (or_not_found (find (is_named name) d.users) >>= λ u. ok u.recovery_codes)

  unfoldable pub set_user_recovery_codes : String → List String → Db → Result Db
  unfolding update_user
  set_user_recovery_codes name codes =
      update_user Stmt.set_user_recovery_codes name (λ u. record u { recovery_codes = some codes })
