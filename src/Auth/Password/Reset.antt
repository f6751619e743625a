-- ===== src/Auth/Password/Reset.antt =====
-- What setting a password does to the tables.
use apod.Base.{
  Result-cases, ◌≤◌, ◌≡◌, inl, inr, ap, ◌∙◌, false, String, none, some, ok, err, Error,
  Result-cases, ◌==◌, nat_eq, string_eq, any, update_where, delete_where, ltb, arith, Option-cases,
  any-delete_where,
}
use Prim.Native.String.{len}
use apod.Db.{Env, Db, Stmt}
use apod.Db.Users.{is_named, set_user_password_hash}
use apod.Db.Users.Updates.{update_user-frame}
use apod.Db.Sessions.{delete_sessions_for_user}
use apod.Auth.{Crypto, Engine, log_activity}
use apod.Auth.Password.{set_user_password}

-- No session of the user is in the table.
abbrev pub HasNoSession : String → Db → Type 0
HasNoSession name d = any (λ s. s.user_name == name) d.sessions ≡ false

module _ (c : Crypto) (env : Env) (name password : String) where
  log_activity-sessions :
      (a b x y : String) (e : Engine) → (log_activity env a b x y e).0.db.sessions ≡ e.db.sessions
  unfolding log_activity
  log_activity-sessions a b x y e = ground arith

  log_activity-users :
      (a b x y : String) (e : Engine) → (log_activity env a b x y e).0.db.users ≡ e.db.users
  unfolding log_activity
  log_activity-users a b x y e = ground arith

  -- The writes of a password change that succeeds.
  record Ran (e : Engine) : Type 0 where
    hash : String
    hashed : c.bcrypt_generate (env.rand 0) password ≡ some hash
    long : ltb (len password) 8 ≡ false
    stored : Db
    stores : set_user_password_hash env name hash e.db ≡ ok stored
    revoked : Db
    revokes : delete_sessions_for_user env name stored ≡ ok revoked
    ends :
        (set_user_password c env name password e).0
        ≡ (log_activity env "server" "user_set_password" "password updated for %s" "success"
            (record e { db = revoked })).0

  set_user_password-Ran : (e : Engine) → (set_user_password c env name password e).1 ≡ ok tt → Ran e
  unfolding set_user_password
  set_user_password-Ran e h = elim (Option-cases (c.bcrypt_generate (env.rand 0) password)) [
    | inl n ↦ absurd (unhashed n)
    | inr (hash, hashed) ↦ elim (Result-cases (set_user_password_hash env name hash e.db)) [
      | inl (x, n) ↦ absurd (unstored hash hashed x n)
      | inr (d1, stores) ↦ elim (Result-cases (delete_sessions_for_user env name d1)) [
        | inl (x, n) ↦ absurd (unrevoked hash hashed d1 stores x n)
        | inr (d2, revokes) ↦ record {
          hash = hash;
          hashed = hashed;
          long = ground arith;
          stored = d1;
          stores = stores;
          revoked = d2;
          revokes = revokes;
          ends = ground arith;
        }
      ]
    ]
  ]
    where
      unhashed : c.bcrypt_generate (env.rand 0) password ≡ none → ⊥
      unhashed n = ground arith

      unstored :
          (hash : String)
          → c.bcrypt_generate (env.rand 0) password ≡ some hash
          → (x : Error) → set_user_password_hash env name hash e.db ≡ err x
          → ⊥
      unstored hash hashed x n = ground arith

      unrevoked :
          (hash : String)
          → c.bcrypt_generate (env.rand 0) password ≡ some hash
          → (d1 : Db) → set_user_password_hash env name hash e.db ≡ ok d1
          → (x : Error) → delete_sessions_for_user env name d1 ≡ err x
          → ⊥
      unrevoked hash hashed d1 stores x n = ground arith

  delete_sessions_for_user-frame :
      (d d' : Db)
      → delete_sessions_for_user env name d ≡ ok d'
      → d' ≡ record d { sessions = delete_where (λ s. s.user_name == name) d.sessions }
  unfolding delete_sessions_for_user
  delete_sessions_for_user-frame d d' h = ground arith

  set_user_password_hash-frame :
      (hash : String) (d d' : Db)
      → set_user_password_hash env name hash d ≡ ok d'
      → d' ≡ record d {
        users = update_where (is_named name) (λ u. record u { password_hash = hash }) d.users;
      }
  unfolding set_user_password_hash
  set_user_password_hash-frame hash d d' h =
      update_user-frame env Stmt.set_user_password_hash name
        (λ u. record u { password_hash = hash }) d d' h

  -- Setting a password that succeeds stores a hash of it in that user's row, changes no other column or
  -- row of the table, and leaves no session of the user. The password has at least eight bytes.
  pub set_user_password_sound :
      (e : Engine)
      → (set_user_password c env name password e).1 ≡ ok tt
      → let e' = (set_user_password c env name password e).0 in
        (hash : String) × (c.bcrypt_generate (env.rand 0) password ≡ some hash)
        × (e'.db.users
            ≡ update_where (is_named name) (λ u. record u { password_hash = hash }) e.db.users)
        × HasNoSession name e'.db
        × (8 ≤ len password)
  set_user_password_sound e h =
      let r = set_user_password-Ran e h in
      let d = (record e { db = r.revoked }) in
      let gone = delete_sessions_for_user-frame r.stored r.revoked r.revokes in
      let kept = set_user_password_hash-frame r.hash e.db r.stored r.stores in
      let last =
        log_activity-sessions "server" "user_set_password" "password updated for %s" "success" d in
      let rows =
        log_activity-users "server" "user_set_password" "password updated for %s" "success" d in
      (
        r.hash,
        r.hashed,
        ap (λ (x : Engine). x.db.users) r.ends
            ∙ rows
            ∙ ap (λ (x : Db). x.users) gone
            ∙ ap (λ (x : Db). x.users) kept,
        rw (r.ends)
            (rw last (rw gone (any-delete_where (λ s. s.user_name == name) r.stored.sessions))),
        ground (arith, r.long),
      )
