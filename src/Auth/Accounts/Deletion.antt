-- ===== src/Auth/Accounts/Deletion.antt =====
-- What the deletion of an account leaves.
use apod.Base.{
  ◌≡◌, inl, inr, refl, sym, ap, subst, ◌∙◌, true, false, not, String, List, [], ◌∷◌, ok, err, Error,
  Result-cases, ◌==◌, nat_eq, string_eq, any, delete_where, length, arith, any-delete_where,
}
use apod.Db.{Db, Env, Stmt, Session, ApiToken}
use apod.Db.Users.{is_named, count_sites_by_owner, delete_user}
use apod.Db.Sessions.{delete_sessions_for_user}
use apod.Db.Tokens.{delete_api_tokens_for_user}
use apod.Auth.{Crypto, Engine, written, log_activity}
use apod.Auth.Accounts.{Host, delete_account}
use apod.Auth.Password.Reset.{HasNoSession}

-- The sites of an owner in the table.
owned_none :
    (owner : String) (owners : List String)
    → length (delete_where (λ o. not (o == owner)) owners) ≡ 0
    → any (λ o. o == owner) owners ≡ false
unfolding delete_where any
owned_none owner [] h = refl
owned_none owner (o ∷ owners) h = ground (arith, owned_none owner owners)

counted :
    (env : Env) (owner : String) (d : Db)
    → count_sites_by_owner env owner d ≡ ok 0
    → any (λ o. o == owner) d.site_owners ≡ false
unfolding count_sites_by_owner
counted env owner d h = owned_none owner d.site_owners (ground arith)

delete_user-frame :
    (env : Env) (name : String) (d d' : Db)
    → delete_user env name d ≡ ok d'
    → (any (is_named name) d.users ≡ true)
      × (d' ≡ record d { users = delete_where (is_named name) d.users })
unfolding delete_user
delete_user-frame env name d d' h = (ground arith, ground arith)

module _ (c : Crypto) (env : Env) (host : Host) (name : String) where
  -- What a deletion that succeeds has checked and done.
  record Deleted (e e' : Engine) : Type 0 where
    no_site : count_sites_by_owner env name e.db ≡ ok 0
    cleared : Db
    same_users : cleared.users ≡ e.db.users
    sessions :
        env.down Stmt.delete_sessions_for_user ≡ false
        → cleared.sessions ≡ delete_where (λ (s : Session). s.user_name == name) e.db.sessions
    tokens :
        env.down Stmt.delete_api_tokens_for_user ≡ false
        → cleared.api_tokens ≡ delete_where (λ (t : ApiToken). t.user_name == name) e.db.api_tokens
    deletes :
        (d' : Db) × (delete_user env name cleared ≡ ok d')
        × (e'.db.users ≡ d'.users)
        × (e'.db.sessions ≡ d'.sessions)
        × (e'.db.api_tokens ≡ d'.api_tokens)

  -- The database after the two deletions that may fail unnoticed.
  abbrev cleared_db : Engine → Db
  cleared_db e =
      (written (written e (delete_sessions_for_user env name e.db)) (
        delete_api_tokens_for_user env name
          (written e (delete_sessions_for_user env name e.db)).db)).db

  cleared-frame :
      (e : Engine)
      → ((cleared_db e).users ≡ e.db.users)
        × (env.down Stmt.delete_sessions_for_user ≡ false
            → (cleared_db e).sessions
              ≡ delete_where (λ (s : Session). s.user_name == name) e.db.sessions)
        × (env.down Stmt.delete_api_tokens_for_user ≡ false
            → (cleared_db e).api_tokens
              ≡ delete_where (λ (t : ApiToken). t.user_name == name) e.db.api_tokens)
  unfolding delete_sessions_for_user delete_api_tokens_for_user
  cleared-frame e = (ground arith, λ w. ground arith, λ w. ground arith)

  delete-Deleted :
      (e : Engine)
      → (delete_account c env host name e).1 ≡ ok tt
      → Deleted e (delete_account c env host name e).0
  unfolding delete_account log_activity
  delete-Deleted e h =
      let (u, s, t) = cleared-frame e in
      elim (Result-cases (delete_user env name (cleared_db e))) [
        | inl (x, n) ↦ absurd (undeleted x n)
        | inr (d', n) ↦ record {
          no_site = ground arith;
          cleared = cleared_db e;
          same_users = u;
          sessions = s;
          tokens = t;
          deletes = (d', n, ground arith, ground arith, ground arith);
        }
      ]
    where
      undeleted : (x : Error) → delete_user env name (cleared_db e) ≡ err x → ⊥
      undeleted x n = ground arith

  -- An account is deleted only if it exists and owns no site. Then exactly its row is gone from the
  -- table of users, and no session and no scoped token of it is left, if the deletion of each runs: a
  -- failure of these is not reported.
  pub delete_account_sound :
      (e : Engine)
      → (delete_account c env host name e).1 ≡ ok tt
      → let e' = (delete_account c env host name e).0 in
        (any (is_named name) e.db.users ≡ true)
        × (any (λ o. o == name) e.db.site_owners ≡ false)
        × (e'.db.users ≡ delete_where (is_named name) e.db.users)
        × (env.down Stmt.delete_sessions_for_user ≡ false → HasNoSession name e'.db)
        × (env.down Stmt.delete_api_tokens_for_user ≡ false
            → any (λ (t : ApiToken). t.user_name == name) e'.db.api_tokens ≡ false)
  delete_account_sound e h =
      let r = delete-Deleted e h in
      let (d', run, users, sessions, tokens) = r.deletes in
      let (found, frame) = delete_user-frame env name r.cleared d' run in
      (
        subst (λ x. any (is_named name) x ≡ true) r.same_users found,
        counted env name e.db r.no_site,
        users ∙ ap (λ (x : Db). x.users) frame ∙ ap (delete_where (is_named name)) r.same_users,
        λ w.
            subst (λ x. any (λ s. s.user_name == name) x ≡ false)
              (sym (sessions ∙ ap (λ (x : Db). x.sessions) frame ∙ r.sessions w))
              (any-delete_where (λ s. s.user_name == name) e.db.sessions),
        λ w.
            subst (λ (x : List ApiToken). any (λ t. t.user_name == name) x ≡ false)
              (sym (tokens ∙ ap (λ (x : Db). x.api_tokens) frame ∙ r.tokens w))
              (any-delete_where (λ t. t.user_name == name) e.db.api_tokens),
      )
