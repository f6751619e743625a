-- ===== src/Auth/Accounts/Creation.antt =====
-- What the creation of an account leaves.
use apod.Base.{
  ℕ, ◌≡◌, inl, inr, refl, ap, ◌∙◌, true, false, ◌||◌, String, Option, none, some, List, [], ◌∷◌,
  ◌++◌, ok, err, Error, Result-cases, ◌==◌, nat_eq, string_eq, find, any, arith, Bool-cases,
  Option-cases, codes, ◌<>◌, hex_encode, find-append_none, find-none_of_stricter,
}
use mathlib.Core.Option
use apod.Db.{Db, Env, Stmt, UserRow}
use apod.Db.Users.{User, is_named, scan_user, create_user, get_user_by_api_key_hash}
use apod.Auth.{Crypto, Engine, log_activity}
use apod.Auth.Accounts.{Host, valid_username, find_available_uid, generate_api_key, create_account}
use apod.Auth.Accounts.Keys.{has_key}
use apod.Auth.Accounts.Reset.{by_hash}

-- The columns of a new row that are not constant.
abbrev IsNew : String → String → String → ℕ → UserRow → Type 0
IsNew name hash role uid r =
    (r.name ≡ name)
    × (r.role ≡ role)
    × (r.uid ≡ uid)
    × (r.api_key_hash ≡ hash)
    × (r.password_hash ≡ "")
    × (r.can_create_sites ≡ false)

create_user-frame :
    (env : Env) (name hash role : String) (uid : ℕ) (d d' : Db)
    → create_user env name hash role uid d ≡ ok d'
    → (any (λ u. is_named name u || u.uid == uid || u.api_key_hash == hash) d.users ≡ false)
      × ((r : UserRow) × (d'.users ≡ d.users ++ r ∷ []) × IsNew name hash role uid r)
unfolding create_user
create_user-frame env name hash role uid d d' h = (
  ground arith,
  (
    record {
      id = d.next_user_id;
      name = name;
      uid = uid;
      role = role;
      api_key_hash = hash;
      password_hash = "";
      can_create_sites = false;
      totp_secret = "";
      totp_enabled = false;
      totp_last_step = 0;
      recovery_codes = some [];
    },
    ground arith,
    (refl, refl, refl, refl, refl, refl),
  ),
)

find-key :
    (hash : String) (r : UserRow) → r.api_key_hash ≡ hash → find (has_key hash) (r ∷ []) ≡ some r
unfolding find
find-key hash r h = ground (arith, string_eq.beq_iff r.api_key_hash hash)

module _ (c : Crypto) (env : Env) (host : Host) (name role : String) where
  -- What a creation that succeeds has done.
  record Created (key : String) (e e' : Engine) : Type 0 where
    valid : valid_username (codes name) ≡ true
    known_role : (role == "admin" || role == "user") ≡ true
    uid : ℕ
    chosen : (find_available_uid c env host e).1 ≡ ok uid
    stored : Db
    stores : create_user env name (c.sha256_hex key) role uid e.db ≡ ok stored
    users : e'.db.users ≡ stored.users

  find_available_uid-pure : (e : Engine) → (find_available_uid c env host e).0 ≡ e
  unfolding find_available_uid
  find_available_uid-pure e = refl

  create-Created :
      (u : Option User) (key : String) (e : Engine)
      → (create_account c env host name role e).1 ≡ ok (u, key)
      → Created key e (create_account c env host name role e).0
  unfolding create_account generate_api_key log_activity
  create-Created u key e h = elim (Bool-cases (valid_username (codes name))) [
    | inr off ↦ absurd (invalid_name off)
    | inl v ↦ elim (Bool-cases (role == "admin" || role == "user")) [
      | inr off ↦ absurd (invalid_role v off)
      | inl r ↦ elim (Result-cases (find_available_uid c env host e).1) [
        | inl (x, n) ↦ absurd (no_uid x n)
        | inr (uid, n) ↦ elim (Option-cases (env.rand 0)) [
          | inl b ↦ absurd (no_bytes uid n b)
          | inr (bytes, b) ↦ elim (Bool-cases (host.useradd name uid)) [
            | inr off ↦ absurd (not_added uid n bytes b off)
            | inl a ↦
                elim (Result-cases (
                  create_user env name (c.sha256_hex ("apod_" <> hex_encode bytes)) role uid
                    e.db)) [
                      | inl (x, n2) ↦ absurd (unstored uid v r n bytes b a x n2)
                      | inr (d, n2) ↦ record {
                        valid = v;
                        known_role = r;
                        uid = uid;
                        chosen = n;
                        stored = d;
                        stores = ground (arith, find_available_uid-pure e);
                        users = ground (arith, find_available_uid-pure e);
                      }
                    ]
          ]
        ]
      ]
    ]
  ]
    where
      invalid_name : valid_username (codes name) ≡ false → ⊥
      invalid_name n = ground arith

      invalid_role :
          valid_username (codes name) ≡ true → (role == "admin" || role == "user") ≡ false → ⊥
      invalid_role v n = ground arith

      no_uid : (x : Error) → (find_available_uid c env host e).1 ≡ err x → ⊥
      no_uid x n = ground arith

      no_bytes : (uid : ℕ) → (find_available_uid c env host e).1 ≡ ok uid → env.rand 0 ≡ none → ⊥
      no_bytes uid n b = ground arith

      not_added :
          (uid : ℕ)
          → (find_available_uid c env host e).1 ≡ ok uid
          → (bytes : List ℕ) → env.rand 0 ≡ some bytes
          → host.useradd name uid ≡ false
          → ⊥
      not_added uid n bytes b a = ground arith

      unstored :
          (uid : ℕ)
          → valid_username (codes name) ≡ true
          → (role == "admin" || role == "user") ≡ true
          → (find_available_uid c env host e).1 ≡ ok uid
          → (bytes : List ℕ) → env.rand 0 ≡ some bytes
          → host.useradd name uid ≡ true
          → (x : Error)
          → create_user env name (c.sha256_hex ("apod_" <> hex_encode bytes)) role uid e.db ≡ err x
          → ⊥
      unstored uid v r n bytes b a x n2 = ground (arith, find_available_uid-pure e)

  -- A creation that succeeds had a valid username and a known role, and no user had that name. The key that
  -- it returns identifies a user of the name and the role, even where the user could not be read back.
  pub create_account_sound :
      (env' : Env) (u : Option User) (key : String) (e : Engine)
      → (create_account c env host name role e).1 ≡ ok (u, key)
      → env'.down Stmt.get_user_by_api_key_hash ≡ false
      → let e' = (create_account c env host name role e).0 in
        (valid_username (codes name) ≡ true)
        × ((role == "admin" || role == "user") ≡ true)
        × (find (is_named name) e.db.users ≡ none)
        × ((user : User) × (get_user_by_api_key_hash env' (c.sha256_hex key) e'.db ≡ ok (some user))
            × (user.name ≡ name)
            × (user.role ≡ role))
  create_account_sound env' u key e h w =
      let e' : Engine = (create_account c env host name role e).0 in
      let hash = c.sha256_hex key in
      let r = create-Created u key e h in
      let (alone, (row, rows, (named, of_role, at_uid, of_hash, no_password, no_sites))) =
        create_user-frame env name hash role r.uid e.db r.stored r.stores in
      let taken = λ (x : UserRow). is_named name x || x.uid == r.uid || x.api_key_hash == hash in
      let unknown =
        find-none_of_stricter (has_key hash) taken e.db.users (hash_taken hash r.uid) alone in
      (
        r.valid,
        r.known_role,
        find-none_of_stricter (is_named name) taken e.db.users (name_taken hash r.uid) alone,
        (
          scan_user row,
          by_hash env' hash e'.db w
              ∙ ap (λ x. ok (Option.map scan_user (find (has_key hash) x))) (r.users ∙ rows)
              ∙ ap (λ x. ok (Option.map scan_user x))
                  (find-append_none (has_key hash) e.db.users (row ∷ []) unknown
                    ∙ find-key hash row of_hash),
          named,
          of_role,
        ),
      )
    where
      hash_taken :
          (hash : String) (uid : ℕ) (x : UserRow)
          → has_key hash x ≡ true
          → (is_named name x || x.uid == uid || x.api_key_hash == hash) ≡ true
      hash_taken hash uid x k = ground arith

      name_taken :
          (hash : String) (uid : ℕ) (x : UserRow)
          → is_named name x ≡ true
          → (is_named name x || x.uid == uid || x.api_key_hash == hash) ≡ true
      name_taken hash uid x k = ground arith
