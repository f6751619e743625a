-- ===== src/Db.antt =====
-- The database layer (internal/db): the rows of the tables `users`, `sessions` and `api_tokens` as
-- lists in the order of insertion. A statement is one constructor of `Stmt`; an environment says which
-- statements fail in the current call (a locked or broken database file), what the clock shows and
-- what `rand.Read` yields.
-- Instants are nanoseconds since 1970; the zero `time.Time` is 0.
pub mod Users
pub mod Sessions
pub mod Tokens
pub mod Sites
use apod.Base.{ℕ, Bool, String, Option, List, Result, err, plain, wrap, if◌then◌else◌}

-- The calls of the database layer, named after its methods.
pub data Stmt : Type 0 where
  create_user get_user_by_name get_user_by_api_key_hash set_user_password_hash : Stmt
  get_user_password_hash set_user_can_create_sites delete_user update_user_api_key_hash : Stmt
  create_session get_session_user delete_session delete_sessions_for_user : Stmt
  delete_expired_sessions create_api_token get_api_token_by_hash delete_api_token : Stmt
  delete_api_tokens_for_user get_user_totp set_user_totp_secret set_user_totp_enabled : Stmt
  clear_user_totp get_user_totp_last_step set_user_totp_last_step get_user_recovery_codes : Stmt
  set_user_recovery_codes count_sites_by_owner list_users log_operation : Stmt

-- The calls of the database layer about sites, named after its methods.
pub data SiteStmt : Type 0 where
  create_site get_site list_sites update_site_status update_site_owner delete_site : SiteStmt
  delete_site_child_data add_domain remove_domain_for_site list_domains get_site_by_domain :
      SiteStmt
  create_shared_network get_shared_network delete_shared_network add_network_member : SiteStmt
  remove_network_member list_site_networks remove_site_from_all_networks delete_operations :
      SiteStmt
  delete_uptime_check delete_process_scaling delete_site_secrets set_site_secret : SiteStmt
  log_operation get_user_by_name list_network_members : SiteStmt

pub record Env : Type 0 where
  pub now : ℕ
  pub down : Stmt → Bool
  -- The bytes of the n-th `rand.Read` of the call; `none` is its error.
  pub rand : ℕ → Option (List ℕ)

pub record UserRow : Type 0 where
  pub id : ℕ
  pub name : String
  pub uid : ℕ
  pub role : String
  pub api_key_hash : String
  pub password_hash : String
  pub can_create_sites : Bool
  pub totp_secret : String
  pub totp_enabled : Bool
  pub totp_last_step : ℕ
  -- The JSON array in the column, decoded; `none` is a text that does not decode to strings.
  pub recovery_codes : Option (List String)

pub record Session : Type 0 where
  pub token_hash : String
  pub user_name : String
  pub expires_at : ℕ

pub record ApiToken : Type 0 where
  pub id : ℕ
  pub user_name : String
  pub name : String
  pub token_hash : String
  pub abilities : String
  pub sensitive : Bool
  pub expires_at : Option ℕ

-- A row of the activity log.
pub record Operation : Type 0 where
  pub site_domain : String
  pub action : String
  pub details : String
  pub result : String

-- The tables, the next AUTOINCREMENT keys, and the owner column of `sites`.
pub record Db : Type 0 where
  pub users : List UserRow
  pub sessions : List Session
  pub api_tokens : List ApiToken
  pub next_user_id : ℕ
  pub next_token_id : ℕ
  pub site_owners : List String
  pub operations : List Operation

-- The error of a statement that fails, as the methods wrap it.
abbrev pub failed {ℓ} : {A : Type ℓ} → String → Result A
failed msg = err (wrap msg (plain "sql"))

module _ (env : Env) where
  -- A statement that runs unless the environment makes it fail.
  abbrev pub run {ℓ} : {A : Type ℓ} → Stmt → String → Result A → Result A
  run s msg r = if env.down s then failed msg else r
