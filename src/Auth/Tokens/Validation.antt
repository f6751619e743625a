-- ===== src/Auth/Tokens/Validation.antt =====
-- What it takes for a scoped token to be accepted.
use apod.Base.{
  ◌≡◌, inl, inr, ap, ◌∙◌, true, false, String, Option, none, some, ok, err, Error, Result-cases,
  find, arith, Option-cases,
}
use apod.Db.{Env, Db, Stmt, ApiToken}
use apod.Db.Users.{User, get_user_by_name}
use apod.Db.Tokens.{has_hash, is_expired, get_api_token_by_hash}
use apod.Auth.{Crypto, Engine}
use apod.Auth.Tokens.{TokenInfo, is_api_token, info_of, validate_token}

-- What an accepted token stands for.
pub record Accepted (c : Crypto) (env : Env) (raw : String) (u : User) (info : TokenInfo)
    (e : Engine) : Type 0 where
  pub row : ApiToken
  pub prefixed : is_api_token raw ≡ true
  pub working : env.down Stmt.get_api_token_by_hash ≡ false
  pub found : find (has_hash (c.sha256_hex raw)) e.db.api_tokens ≡ some row
  pub live : is_expired env.now row ≡ false
  pub owner : get_user_by_name env row.user_name e.db ≡ ok u
  pub grants : info ≡ info_of row

if_live_inv :
    (env : Env) (h : String) (d : Db) (t : ApiToken)
    → get_api_token_by_hash env h d ≡ ok (some t)
    → (env.down Stmt.get_api_token_by_hash ≡ false)
      × (find (has_hash h) d.api_tokens ≡ some t)
      × (is_expired env.now t ≡ false)
unfolding get_api_token_by_hash
if_live_inv env h d t e = elim (Option-cases (find (has_hash h) d.api_tokens)) [
  | inl n ↦ absurd (no_row n)
  | inr (row, at) ↦ (ground arith, ground arith, ground arith)
]
  where
    no_row : find (has_hash h) d.api_tokens ≡ none → ⊥
    no_row n = ground arith

pub validate_token-Accepted :
    (c : Crypto) (env : Env) (raw : String) (u : User) (info : TokenInfo) (e : Engine)
    → (validate_token c env raw e).1 ≡ ok (some (u, info))
    → Accepted c env raw u info e
unfolding validate_token
validate_token-Accepted c env raw u info e h =
    elim (Result-cases (get_api_token_by_hash env (c.sha256_hex raw) e.db)) [
      | inl (x, n) ↦ absurd (failed_read x n)
      | inr (found, at) ↦ elim (Option-cases found) [
        | inl n ↦ absurd (no_token found at n)
        | inr (t, is_t) ↦
            let at' : get_api_token_by_hash env (c.sha256_hex raw) e.db ≡ ok (some t) =
              at ∙ ap ok is_t in
            let (working, row, live) = if_live_inv env (c.sha256_hex raw) e.db t at' in
            elim (Result-cases (get_user_by_name env t.user_name e.db)) [
              | inl (x, n) ↦ absurd (no_user t at' x n)
              | inr (v, owner) ↦ record {
                row = t;
                prefixed = ground arith;
                working = working;
                found = row;
                live = live;
                owner = ground arith;
                grants = ground arith;
              }
            ]
      ]
    ]
  where
    failed_read : (x : Error) → get_api_token_by_hash env (c.sha256_hex raw) e.db ≡ err x → ⊥
    failed_read x n = ground arith

    no_token :
        (f : Option ApiToken)
        → get_api_token_by_hash env (c.sha256_hex raw) e.db ≡ ok f
        → f ≡ none
        → ⊥
    no_token f at n = ground arith

    no_user :
        (t : ApiToken)
        → get_api_token_by_hash env (c.sha256_hex raw) e.db ≡ ok (some t)
        → (x : Error) → get_user_by_name env t.user_name e.db ≡ err x
        → ⊥
    no_user t at x n = ground arith

pub validate_token_of_Accepted :
    (c : Crypto) (env : Env) (raw : String) (u : User) (info : TokenInfo) (e : Engine)
    → Accepted c env raw u info e
    → validate_token c env raw e ≡ (e, ok (some (u, info)))
unfolding validate_token get_api_token_by_hash
validate_token_of_Accepted c env raw u info e a =
    ground (arith, a.prefixed, a.working, a.found, a.live, a.owner, a.grants)
