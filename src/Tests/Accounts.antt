-- ===== src/Tests/Accounts.antt =====
-- Accounts of the test database.
use apod.Base.{
  ◌≡◌, ◌≢◌, refl, true, false, none, codes, ◌||◌, length, String, some, [], ◌∷◌, ok, ◌==◌, nat_eq,
  string_eq, find, any, update_where, delete_where, hex_encode,
}
use apod.Db.{Stmt, ApiToken}
use apod.Db.Users.{
  User, is_named, update_user, get_user_by_name, get_user_by_api_key_hash, update_user_api_key_hash,
  count_sites_by_owner, delete_user, create_user,
}
use apod.Db.Sessions.{delete_sessions_for_user}
use apod.Db.Tokens.{delete_api_tokens_for_user}
use apod.Auth.{log_activity}
use apod.Auth.Accounts.{
  Host, is_used, find_available_uid, generate_api_key, reset_api_key, delete_account,
  create_account, valid_username, all_name_chars, first_free,
}
use apod.Auth.Accounts.Creation.{create_account_sound}
use apod.Auth.Accounts.Deletion.{delete_account_sound}
use apod.Auth.Accounts.Reset.{reset_api_key_sound}
use apod.Auth.Password.Reset.{HasNoSession}
use apod.Tests.Data.{crypto, env, engine}

abbrev host : Host
host = record { useradd = λ name uid. true; passwd_uids = 5002 ∷ [] }

abbrev new_key : String
new_key = "apod_0102"

key_reset : (reset_api_key crypto env host "alice" engine).1 ≡ ok new_key
unfolding reset_api_key generate_api_key hex_encode update_user_api_key_hash update_user any
    update_where delete_where delete_sessions_for_user delete_api_tokens_for_user log_activity
key_reset = refl

reset_api_key_sound_example :
    let e' = (reset_api_key crypto env host "alice" engine).0 in
    ((user : User) × (get_user_by_api_key_hash env (crypto.sha256_hex new_key) e'.db
        ≡ ok (some user))
      × (user.name ≡ "alice"))
    × ((old : String) (user : User)
        → crypto.sha256_hex old ≢ crypto.sha256_hex new_key
        → get_user_by_api_key_hash env (crypto.sha256_hex old) e'.db ≡ ok (some user)
        → user.name ≢ "alice")
    × (env.down Stmt.delete_sessions_for_user ≡ false → HasNoSession "alice" e'.db)
    × (env.down Stmt.delete_api_tokens_for_user ≡ false
        → any (λ (t : ApiToken). t.user_name == "alice") e'.db.api_tokens ≡ false)
reset_api_key_sound_example =
    reset_api_key_sound crypto env host "alice" env new_key engine key_reset refl

abbrev user_role : String
user_role = "user"

abbrev carol : User
carol = record { id = 3; name = "carol"; uid = 5003; role = "user"; can_create_sites = false }

carol_created : (create_account crypto env host "carol" "user" engine).1 ≡ ok (some carol, new_key)
unfolding create_account valid_username all_name_chars length find_available_uid first_free is_used
    generate_api_key hex_encode create_user get_user_by_name any find log_activity
carol_created = refl

root_deleted : (delete_account crypto env host "root" engine).1 ≡ ok tt
unfolding delete_account get_user_by_name count_sites_by_owner find delete_user any delete_where
    delete_sessions_for_user delete_api_tokens_for_user log_activity
root_deleted = refl

create_account_sound_example :
    let e' = (create_account crypto env host "carol" "user" engine).0 in
    (valid_username (codes "carol") ≡ true)
    × ((user_role == "admin" || user_role == "user") ≡ true)
    × (find (is_named "carol") engine.db.users ≡ none)
    × ((user : User) × (get_user_by_api_key_hash env (crypto.sha256_hex new_key) e'.db
          ≡ ok (some user))
        × (user.name ≡ "carol")
        × (user.role ≡ "user"))
create_account_sound_example =
    create_account_sound crypto env host "carol" "user" env (some carol) new_key engine
      carol_created refl

delete_account_sound_example :
    let e' = (delete_account crypto env host "root" engine).0 in
    (any (is_named "root") engine.db.users ≡ true)
    × (any (λ o. o == "root") engine.db.site_owners ≡ false)
    × (e'.db.users ≡ delete_where (is_named "root") engine.db.users)
    × (env.down Stmt.delete_sessions_for_user ≡ false → HasNoSession "root" e'.db)
    × (env.down Stmt.delete_api_tokens_for_user ≡ false
        → any (λ (t : ApiToken). t.user_name == "root") e'.db.api_tokens ≡ false)
delete_account_sound_example = delete_account_sound crypto env host "root" engine root_deleted
