-- ===== src/Auth/Accounts/Keys.antt =====
-- The API keys of accounts, and what a reset revokes.
use apod.Base.{
  ℕ, ◌≡◌, ◌≢◌, inl, inr, refl, Bool, true, false, not, ◌&&◌, String, none, some, List, [], ◌∷◌, ok,
  err, Error, Result-cases, ◌==◌, nat_eq, string_eq, find, any, update_where, delete_where, arith,
  Bool-cases, Option-cases, ◌<>◌, hex_encode,
}
use mathlib.Core.Option
use apod.Db.{Db, Env, Stmt, UserRow, Session, ApiToken}
use apod.Db.Users.{is_named, update_user, update_user_api_key_hash}
use apod.Db.Users.Updates.{update_user-frame, update_user-found}
use apod.Db.Sessions.{delete_sessions_for_user}
use apod.Db.Tokens.{delete_api_tokens_for_user}
use apod.Auth.{Crypto, Engine, log_activity}
use apod.Auth.Accounts.{Host, reset_api_key, generate_api_key}

abbrev pub has_key : String → UserRow → Bool
has_key hash u = u.api_key_hash == hash

abbrev pub with_key : String → UserRow → UserRow
with_key hash u = record u { api_key_hash = hash }

-- Another user's row with the hash.
abbrev pub others_with : String → String → UserRow → Bool
others_with name hash u = not (is_named name u) && u.api_key_hash == hash

-- The first row with the new hash is the row of that name.
pub find-with_key :
    (name hash : String) (rows : List UserRow)
    → any (others_with name hash) rows ≡ false
    → find (has_key hash) (update_where (is_named name) (with_key hash) rows)
      ≡ Option.map (with_key hash) (find (is_named name) rows)
unfolding any find update_where
find-with_key name hash [] h = refl
find-with_key name hash (u ∷ rows) h =
    ground (arith, find-with_key name hash rows, string_eq.beq_iff hash hash)

-- A row with any other hash has another name.
pub find-other_key :
    (name hash old : String) (rows : List UserRow) (r : UserRow)
    → old ≢ hash
    → find (has_key old) (update_where (is_named name) (with_key hash) rows) ≡ some r
    → is_named name r ≡ false
unfolding find update_where
find-other_key name hash old [] r n h = ground arith
find-other_key name hash old (u ∷ rows) r n h =
    ground (arith, find-other_key name hash old rows r n, string_eq.beq_iff hash old)

module _ (c : Crypto) (env : Env) (host : Host) (name : String) where
  -- The rows after a change of the key that succeeds.
  pub update_key-frame :
      (hash : String) (d d' : Db)
      → update_user_api_key_hash env name hash d ≡ ok d'
      → (any (is_named name) d.users ≡ true)
        × (any (others_with name hash) d.users ≡ false)
        × (d' ≡ record d { users = update_where (is_named name) (with_key hash) d.users })
  unfolding update_user_api_key_hash
  update_key-frame hash d d' h =
      elim (Bool-cases (any (others_with name hash) d.users && any (is_named name) d.users)) [
        | inl clash ↦ absurd (refused clash)
        | inr free ↦
            let up : update_user env Stmt.update_user_api_key_hash name (with_key hash) d ≡ ok d' =
              rw (free, update_user_api_key_hash) at h in
            let found =
              update_user-found env Stmt.update_user_api_key_hash name (with_key hash) d d' up in
            (
              found,
              ground (arith, found),
              update_user-frame env Stmt.update_user_api_key_hash name (with_key hash) d d' up,
            )
      ]
    where
      refused : (any (others_with name hash) d.users && any (is_named name) d.users) ≡ true → ⊥
      refused clash = ground arith

  -- What a reset that succeeds has done, the two deletions apart.
  pub record Renewed (raw : String) (e e' : Engine) : Type 0 where
    pub bytes : List ℕ
    pub key : raw ≡ "apod_" <> hex_encode bytes
    pub stored : Db
    pub stores : update_user_api_key_hash env name (c.sha256_hex raw) e.db ≡ ok stored
    pub users : e'.db.users ≡ stored.users
    pub sessions :
        env.down Stmt.delete_sessions_for_user ≡ false
        → e'.db.sessions ≡ delete_where (λ (s : Session). s.user_name == name) stored.sessions
    pub tokens :
        env.down Stmt.delete_api_tokens_for_user ≡ false
        → e'.db.api_tokens ≡ delete_where (λ (t : ApiToken). t.user_name == name) stored.api_tokens

  pub reset-Renewed :
      (raw : String) (e : Engine)
      → (reset_api_key c env host name e).1 ≡ ok raw
      → Renewed raw e (reset_api_key c env host name e).0
  unfolding reset_api_key generate_api_key log_activity delete_sessions_for_user
      delete_api_tokens_for_user
  reset-Renewed raw e h = elim (Option-cases (env.rand 0)) [
    | inl n ↦ absurd (no_bytes n)
    | inr (bytes, b) ↦
        elim (Result-cases
          (update_user_api_key_hash env name (c.sha256_hex ("apod_" <> hex_encode bytes)) e.db)) [
            | inl (x, n) ↦ absurd (unstored bytes b x n)
            | inr (d, n) ↦ record {
              bytes = bytes;
              key = ground arith;
              stored = d;
              stores = ground arith;
              users = ground arith;
              sessions = λ w. ground arith;
              tokens = λ w. ground arith;
            }
          ]
  ]
    where
      no_bytes : env.rand 0 ≡ none → ⊥
      no_bytes n = ground arith

      unstored :
          (bytes : List ℕ)
          → env.rand 0 ≡ some bytes
          → (x : Error)
          → update_user_api_key_hash env name (c.sha256_hex ("apod_" <> hex_encode bytes)) e.db
            ≡ err x
          → ⊥
      unstored bytes b x n = ground arith
