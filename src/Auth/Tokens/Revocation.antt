-- ===== src/Auth/Tokens/Revocation.antt =====
-- What the revocation of a scoped token changes.
use apod.Base.{
  find-not_any, any-delete_where, find-delete_where_kept, ℕ, ◌≡◌, ◌≢◌, ◌⊎◌, inl, inr, sym, ap,
  subst, ◌∙◌, Bool, false, ◌&&◌, String, some, ok, ◌==◌, nat_eq, string_eq, find, delete_where,
  arith, Bool-cases, any-delete_where, find-not_any,
}
use apod.Db.{Env, ApiToken}
use apod.Db.Users.{User}
use apod.Db.Users.Updates.{get_user_by_name-users, get_user_by_name-name}
use apod.Db.Tokens.{has_hash, delete_api_token}
use apod.Auth.{Crypto, Engine, log_activity}
use apod.Auth.Tokens.{TokenInfo, info_of, validate_token, revoke_token}
use apod.Auth.Tokens.Validation.{validate_token-Accepted, validate_token_of_Accepted}

-- The queries after a revocation: the row is gone, and other rows are found as before.
module _ (c : Crypto) (env : Env) (user_name : String) (id : ℕ) (e : Engine) where
  abbrev is_revoked : ApiToken → Bool
  is_revoked t = t.id == id && t.user_name == user_name

  revoke_token-rows :
      (revoke_token c env user_name id e).1 ≡ ok tt
      → ((revoke_token c env user_name id e).0.db.api_tokens
          ≡ delete_where is_revoked e.db.api_tokens)
        × ((revoke_token c env user_name id e).0.db.users ≡ e.db.users)
  unfolding revoke_token delete_api_token log_activity
  revoke_token-rows h = (ground arith, ground arith)

  -- After a revocation that succeeds the token of that number and user is answered with nobody, at any
  -- time; and a token that was accepted as another user's, or under another number, is accepted still,
  -- with the same grants. So users cannot revoke each other's tokens.
  pub revoke_token_scoped :
      (env' : Env) (raw : String) (u : User) (info : TokenInfo)
      → (revoke_token c env user_name id e).1 ≡ ok tt
      → let e' = (revoke_token c env user_name id e).0 in
        ((validate_token c env' raw e').1 ≡ ok (some (u, info))
          → (info.id ≢ id) ⊎ (u.name ≢ user_name))
        × ((validate_token c env' raw e).1 ≡ ok (some (u, info))
            → (info.id ≢ id) ⊎ (u.name ≢ user_name)
            → validate_token c env' raw e' ≡ (e', ok (some (u, info))))
  revoke_token_scoped env' raw u info h =
      let e' : Engine = (revoke_token c env user_name id e).0 in
      let (rows, users) = revoke_token-rows h in
      let hash = c.sha256_hex raw in
      (
        (λ v.
            let a = validate_token-Accepted c env' raw u info e' v in
            let (_, _, _, named) = get_user_by_name-name env' a.row.user_name e'.db u a.owner in
            let left =
              find-not_any (has_hash hash) is_revoked (delete_where is_revoked e.db.api_tokens)
                a.row (any-delete_where is_revoked e.db.api_tokens)
                (subst (λ t. find (has_hash hash) t ≡ some a.row) rows a.found) in
            apart a.row u info left a.grants named),
        (λ v other.
            let a = validate_token-Accepted c env' raw u info e v in
            let (_, _, _, named) = get_user_by_name-name env' a.row.user_name e.db u a.owner in
            validate_token_of_Accepted c env' raw u info e' (record {
              row = a.row;
              prefixed = a.prefixed;
              working = a.working;
              found =
                  subst (λ t. find (has_hash hash) t ≡ some a.row) (sym rows)
                    (find-delete_where_kept (has_hash hash) is_revoked e.db.api_tokens a.row a.found
                      (spared a.row u info other a.grants named));
              live = a.live;
              owner = get_user_by_name-users env' a.row.user_name e.db e'.db users ∙ a.owner;
              grants = a.grants;
            })),
      )
    where
      apart :
          (t : ApiToken) (v : User) (i : TokenInfo)
          → is_revoked t ≡ false
          → i ≡ info_of t
          → v.name ≡ t.user_name
          → (i.id ≢ id) ⊎ (v.name ≢ user_name)
      apart t v i r g n = elim (Bool-cases (t.id == id)) [
        | inl same ↦ inr (ground (arith, string_eq.beq_iff t.user_name user_name))
        | inr other ↦ inl (ground (arith, ap (λ (x : TokenInfo). x.id) g))
      ]

      spared :
          (t : ApiToken) (v : User) (i : TokenInfo)
          → (i.id ≢ id) ⊎ (v.name ≢ user_name)
          → i ≡ info_of t
          → v.name ≡ t.user_name
          → is_revoked t ≡ false
      spared t v i other g n =
          ground (arith, ap (λ (x : TokenInfo). x.id) g, string_eq.beq_iff t.user_name user_name)
