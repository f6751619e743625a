-- ===== src/Auth/Accounts.antt =====
-- internal/engine/user.go: the accounts. Commands on the host are parameters: whether `useradd` succeeds,
-- and the UIDs in /etc/passwd, none where it cannot be read. The home directories, the processes of a
-- deleted user and the SFTP configuration are left out, since nothing depends on whether they succeed.
pub mod Uids
pub mod Keys
pub mod Reset
pub mod Deletion
pub mod Creation
use apod.Base.{
  ℕ, zero, suc, ◌+◌, ◌-◌, Bool, true, false, not, ◌&&◌, ◌||◌, String, Option, none, some, List, [],
  ◌∷◌, ◌++◌, map, Result, ok, err, plain, invalid, not_found, ◌==◌, nat_eq, string_eq,
  if◌then◌else◌, length, ltb, leb, codes, ◌<>◌, hex_encode,
}
use apod.Db.{Db, Env, Stmt, UserRow}
use apod.Db.Users.{
  User, create_user, delete_user, get_user_by_name, set_user_can_create_sites,
  update_user_api_key_hash, count_sites_by_owner,
}
use apod.Db.Sessions.{delete_sessions_for_user}
use apod.Db.Tokens.{delete_api_tokens_for_user}
use apod.Auth.{
  Crypto, Engine, M, ◌>>=◌, ◌>>◌, pure, fail, query, exec, best_effort, attempt, require,
  log_activity,
}
use apod.Auth.Password.{wrapped}

abbrev pub uid_range_start : ℕ
uid_range_start = 5000

abbrev pub uid_range_end : ℕ
uid_range_end = 65000

-- What the host contributes.
pub record Host : Type 0 where
  pub useradd : String → ℕ → Bool
  pub passwd_uids : List ℕ

abbrev pub is_lower : ℕ → Bool
is_lower c = leb 97 c && leb c 122

-- The class `[a-z0-9\-]`.
abbrev pub is_name_char : ℕ → Bool
is_name_char c = is_lower c || (leb 48 c && leb c 57) || c == 45

unfoldable pub all_name_chars : List ℕ → Bool
all_name_chars [] = true
all_name_chars (c ∷ cs) = is_name_char c && all_name_chars cs

-- `validUsername.MatchString`.
unfoldable pub valid_username : List ℕ → Bool
unfolding all_name_chars
valid_username [] = false
valid_username (c ∷ cs) = is_lower c && all_name_chars cs && leb 2 (length cs) && leb (length cs) 31

-- A UID among those in use, `map[int]bool` as a list.
unfoldable pub is_used : ℕ → List ℕ → Bool
is_used uid [] = false
is_used uid (u ∷ used) = uid == u || is_used uid used

-- The loop over the range: `n` candidates from one on.
unfoldable pub first_free : ℕ → ℕ → List ℕ → Option ℕ
unfolding is_used
first_free zero uid used = none
first_free (suc n) uid used =
    let rest = first_free n (uid + 1) used in if is_used uid used then rest else some uid

-- The end of the search.
abbrev pub or_no_uid : Option ℕ → Result ℕ
or_no_uid none = err (plain "no available UIDs in range %d-%d")
or_no_uid (some uid) = ok uid

module _ (c : Crypto) (env : Env) (host : Host) where
  -- The UIDs in use: of the users, where they can be listed, and in /etc/passwd.
  abbrev pub used_uids : Db → List ℕ
  used_uids d =
      (if env.down Stmt.list_users then [] else map (λ (u : UserRow). u.uid) d.users)
      ++ host.passwd_uids

  -- `findAvailableUID`.
  unfoldable pub find_available_uid : M ℕ
  unfolding first_free
  find_available_uid e =
      (e, or_no_uid (first_free (uid_range_end - uid_range_start) uid_range_start (used_uids e.db)))

  -- `generateAPIKey`: the raw key and its hash.
  unfoldable pub generate_api_key : M (String × String)
  generate_api_key = do
    bytes ← require (plain "rand") (env.rand 0)
    let raw = "apod_" <> hex_encode bytes
    pure (raw, c.sha256_hex raw)

  -- `CreateUser`: the user, if it can be read back, and the raw key.
  unfoldable pub create_account : String → String → M (Option User × String)
  unfolding valid_username generate_api_key
  create_account name role =
      if not (valid_username (codes name))
      then fail (
          plain
            "invalid username: must be 3-32 lowercase alphanumeric/hyphens, starting with a letter")
      else if not (role == "admin") && not (role == "user")
      then fail (plain "invalid role: must be 'admin' or 'user'")
      else (do
        uid ← wrapped "find UID: %w" find_available_uid
        (raw, hash) ← wrapped "generate API key: %w" generate_api_key
        if not (host.useradd name uid) then fail (plain "create linux user: %s: %w") else (do
          wrapped "save user: %w" (exec (create_user env name hash role uid))
          user ← attempt (query (get_user_by_name env name))
          log_activity env "server" "user_create" "created user %s (role: %s, uid: %d)" "success"
          pure (elim user [ ok u ↦ some u | err x ↦ none ], raw)))

  -- `DeleteUser`.
  unfoldable pub delete_account : String → M (Unit {0})
  delete_account name = do
    user ← query (get_user_by_name env name)
    n ← wrapped "check sites: %w" (query (count_sites_by_owner env name))
    if ltb 0 n
        then fail (plain "user %q still owns %d site(s) — destroy or reassign them first")
        else (do
          best_effort (delete_sessions_for_user env name)
          best_effort (delete_api_tokens_for_user env name)
          exec (delete_user env name)
          log_activity env "server" "user_delete" "deleted user %s (uid: %d)" "success")

  -- `SetUserCanCreateSites`.
  unfoldable pub allow_site_creation : String → Bool → M (Unit {0})
  allow_site_creation name allowed = do
    user ← attempt (query (get_user_by_name env name))
    elim user [
      | err x ↦ fail (not_found "user %q not found")
      | ok u ↦
          if u.role == "admin"
          then fail (invalid "admins can always create sites")
          else exec (set_user_can_create_sites env name allowed)
    ]

  -- `ResetAPIKey`.
  unfoldable pub reset_api_key : String → M String
  unfolding generate_api_key
  reset_api_key name = do
    (raw, hash) ← wrapped "generate key: %w" generate_api_key
    exec (update_user_api_key_hash env name hash)
    best_effort (delete_sessions_for_user env name)
    best_effort (delete_api_tokens_for_user env name)
    log_activity env "server" "user_reset_key" "reset API key for %s" "success"
    pure raw
