-- ===== src/Auth/Accounts/Reset.antt =====
-- Who is known by which key after a reset.
use apod.Base.{
  ◌≡◌, ◌≢◌, refl, sym, ap, subst, ◌∙◌, false, String, Option, none, some, List, Result, ok, ◌==◌,
  nat_eq, string_eq, find, any, update_where, arith, find_sound, any-delete_where, find_of_any,
}
use mathlib.Core.Option
use apod.Db.{Db, Env, Stmt, UserRow, ApiToken}
use apod.Db.Users.{User, is_named, scan_user, get_user_by_api_key_hash}
use apod.Auth.{Crypto, Engine}
use apod.Auth.Accounts.{Host, reset_api_key}
use apod.Auth.Accounts.Keys.{
  has_key, with_key, find-with_key, find-other_key, update_key-frame, reset-Renewed,
}
use apod.Auth.Password.Reset.{HasNoSession}

pub by_hash :
    (env : Env) (hash : String) (d : Db)
    → env.down Stmt.get_user_by_api_key_hash ≡ false
    → get_user_by_api_key_hash env hash d ≡ ok (Option.map scan_user (find (has_key hash) d.users))
unfolding get_user_by_api_key_hash
by_hash env hash d w = rw (w, get_user_by_api_key_hash) refl

map-some :
    (o : Option UserRow) (u : User)
    → ◌≡◌ {A = Result (Option User)} (ok (Option.map scan_user o)) (ok (some u))
    → (r : UserRow) × (o ≡ some r) × (u ≡ scan_user r)
map-some none u h = absurd (no h)
  where
    no : ◌≡◌ {A = Result (Option User)} (ok none) (ok (some u)) → ⊥
    no q = cc
map-some (some r) u h = (r, refl, inj h)
  where
    inj : ◌≡◌ {A = Result (Option User)} (ok (some (scan_user r))) (ok (some u)) → u ≡ scan_user r
    inj q = cc

module _ (c : Crypto) (env : Env) (host : Host) (name : String) where
  -- After a reset that succeeds the new key identifies the user of that name, and no key with another hash
  -- does, so the old one is refused. No session and no scoped token of the user is left, if the deletion
  -- of each runs: a failure of these is not reported.
  pub reset_api_key_sound :
      (env' : Env) (raw : String) (e : Engine)
      → (reset_api_key c env host name e).1 ≡ ok raw
      → env'.down Stmt.get_user_by_api_key_hash ≡ false
      → let e' = (reset_api_key c env host name e).0 in
        ((user : User) × (get_user_by_api_key_hash env' (c.sha256_hex raw) e'.db ≡ ok (some user))
          × (user.name ≡ name))
        × ((old : String) (user : User)
            → c.sha256_hex old ≢ c.sha256_hex raw
            → get_user_by_api_key_hash env' (c.sha256_hex old) e'.db ≡ ok (some user)
            → user.name ≢ name)
        × (env.down Stmt.delete_sessions_for_user ≡ false → HasNoSession name e'.db)
        × (env.down Stmt.delete_api_tokens_for_user ≡ false
            → any (λ (t : ApiToken). t.user_name == name) e'.db.api_tokens ≡ false)
  reset_api_key_sound env' raw e h w =
      let e' : Engine = (reset_api_key c env host name e).0 in
      let hash = c.sha256_hex raw in
      let r = reset-Renewed c env host name raw e h in
      let (found, alone, frame) = update_key-frame c env host name hash e.db r.stored r.stores in
      let rows : e'.db.users ≡ update_where (is_named name) (with_key hash) e.db.users =
        r.users ∙ ap (λ (x : Db). x.users) frame in
      let (row, at) = find_of_any (is_named name) e.db.users found in
      let named =
        (string_eq.beq_iff row.name name).0 (find_sound (is_named name) e.db.users row at) in
      (
        (
          scan_user (with_key hash row),
          by_hash env' hash e'.db w
              ∙ ap (λ x. ok (Option.map scan_user (find (has_key hash) x))) rows
              ∙ ap (λ x. ok (Option.map scan_user x))
                  (find-with_key name hash e.db.users alone ∙ ap (Option.map (with_key hash)) at),
          named,
        ),
        λ old user other known.
            let (row', at', same) =
              map-some (find (has_key (c.sha256_hex old)) e'.db.users) user
                (sym (by_hash env' (c.sha256_hex old) e'.db w) ∙ known) in
            let apart =
              find-other_key name hash (c.sha256_hex old) e.db.users row' other
                (subst (λ x. find (has_key (c.sha256_hex old)) x ≡ some row') rows at') in
            unnamed row' user same apart,
        λ w1.
            subst (λ x. any (λ s. s.user_name == name) x ≡ false) (sym (r.sessions w1))
              (any-delete_where (λ s. s.user_name == name) r.stored.sessions),
        λ w2.
            subst (λ (x : List ApiToken). any (λ t. t.user_name == name) x ≡ false)
              (sym (r.tokens w2)) (any-delete_where (λ t. t.user_name == name) r.stored.api_tokens),
      )
    where
      unnamed : (r : UserRow) (u : User) → u ≡ scan_user r → is_named name r ≡ false → u.name ≢ name
      unnamed r u same apart = rw same (λ e. absurd (clash r e apart))
        where
          clash : (r : UserRow) → r.name ≡ name → is_named name r ≡ false → ⊥
          clash r e a = ground (arith, string_eq.beq_iff r.name name)
