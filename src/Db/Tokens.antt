-- ===== src/Db/Tokens.antt =====
-- The table of API tokens in internal/db/tokens.go.
use apod.Base.{
  ℕ, ◌+◌, Bool, false, ◌&&◌, String, Option, none, some, [], ◌∷◌, ◌++◌, Result, ok, err, plain,
  ◌==◌, nat_eq, string_eq, if◌then◌else◌, find, any, delete_where, ltb,
}
use apod.Db.{Stmt, Env, ApiToken, Db, failed, run}

-- `WHERE token_hash = ?`.
abbrev pub has_hash : String → ApiToken → Bool
has_hash h t = t.token_hash == h

-- `time.Now().After(expires.Time)`, where the column is not NULL.
abbrev pub is_expired : ℕ → ApiToken → Bool
is_expired now t = elim t.expires_at [ none ↦ false | some e ↦ ltb e now ]

-- A row that has expired is no token.
abbrev pub if_live : ℕ → Option ApiToken → Option ApiToken
if_live now none = none
if_live now (some t) = if is_expired now t then none else some t

module _ (env : Env) where
  -- The token hash is UNIQUE.
  unfoldable pub create_api_token :
      String → String → String → String → Bool → Option ℕ → Db → Result Db
  unfolding any
  create_api_token user_name name token_hash abilities sensitive expires_at d =
      run env Stmt.create_api_token "insert api token: %w" (
        if any (has_hash token_hash) d.api_tokens
        then failed "insert api token: %w"
        else ok (record d {
          api_tokens =
              d.api_tokens
              ++ record {
                id = d.next_token_id;
                user_name = user_name;
                name = name;
                token_hash = token_hash;
                abilities = abilities;
                sensitive = sensitive;
                expires_at = expires_at;
              }
                ∷ [];
          next_token_id = d.next_token_id + 1;
        }))

  unfoldable pub get_api_token_by_hash : String → Db → Result (Option ApiToken)
  unfolding find
  get_api_token_by_hash token_hash d =
      run env Stmt.get_api_token_by_hash "query api token: %w"
        (ok (if_live env.now (find (has_hash token_hash) d.api_tokens)))

  -- Scoped to the owner, so that users cannot revoke each other's tokens.
  unfoldable pub delete_api_token : String → ℕ → Db → Result Db
  unfolding any delete_where
  delete_api_token user_name id d = run env Stmt.delete_api_token "delete api token: %w" (
      if any (λ t. t.id == id && t.user_name == user_name) d.api_tokens
      then ok (record d {
        api_tokens = delete_where (λ t. t.id == id && t.user_name == user_name) d.api_tokens;
      })
      else err (plain "token not found"))

  unfoldable pub delete_api_tokens_for_user : String → Db → Result Db
  unfolding delete_where
  delete_api_tokens_for_user user_name d =
      run env Stmt.delete_api_tokens_for_user "delete user api tokens: %w"
        (ok (record d { api_tokens = delete_where (λ t. t.user_name == user_name) d.api_tokens }))
