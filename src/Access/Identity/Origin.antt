-- ===== src/Access/Identity/Origin.antt =====
-- Where the identity that the authentication passes on comes from.
use apod.Base.{
  ℕ, ◌≡◌, ◌⊎◌, inl, inr, refl, sym, ap, ◌∙◌, Bool, true, false, not, ◌&&◌, String, Option, none,
  some, Result, ok, err, ◌==◌, nat_eq, string_eq, find, arith, Bool-cases, Option-cases, has_prefix,
  trim_prefix, ◌<>◌, append-cut_prefix,
}
use apod.Db.{Env, UserRow}
use apod.Db.Users.{User, scan_user, get_user_by_api_key_hash}
use apod.Auth.{Crypto, Engine, M}
use apod.Auth.Password.{is_session_token, validate_session_token}
use apod.Auth.Tokens.{TokenInfo, is_api_token, validate_token}
use apod.Access.{Request, Context, Outcome, respond, pass}
use apod.Access.Identity.{
  is_proxied_web, socket_peer_is_admin, local_admin, of_user, identified, authenticate_key,
  auth_middleware,
}

-- The context of a user without a scoped token, and the outcome of a run.
abbrev pub plainly : User → Context
plainly u = record { user = some u; token = none }

abbrev pub Passes : M Outcome → Engine → Context → Type 0
Passes m e ctx = (m e).1 ≡ ok (pass ctx)

identified-passes {ℓ} :
    {A : Type ℓ} (f : A → Outcome) (x : Result (Option A)) (ctx : Context)
    → ◌≡◌ {A = Result Outcome} (ok (identified f x)) (ok (pass ctx))
    → (a : A) × (x ≡ ok (some a)) × (f a ≡ pass ctx)
unfolding identified
identified-passes f (err x) ctx h = absurd (no h)
  where
    no : ◌≡◌ {A = Result Outcome} (ok (respond 401)) (ok (pass ctx)) → ⊥
    no q = cc
identified-passes f (ok none) ctx h = absurd (no h)
  where
    no : ◌≡◌ {A = Result Outcome} (ok (respond 401)) (ok (pass ctx)) → ⊥
    no q = cc
identified-passes f (ok (some a)) ctx h = (a, refl, inj h)
  where
    inj : {o : Outcome} → ◌≡◌ {A = Result Outcome} (ok o) (ok (pass ctx)) → o ≡ pass ctx
    inj q = cc

pass_inj : (x ctx : Context) → pass x ≡ pass ctx → ctx ≡ x
pass_inj x ctx h = cc

-- The command line on the local socket: not through the web proxy, and a peer with an admitted UID.
pub record FromSocket (admins : ℕ → Bool) (r : Request) (ctx : Context) : Type 0 where
  pub local : r.is_unix ≡ true
  pub direct : r.apod_proxied ≡ ""
  pub uid : ℕ
  pub peer : r.peer_uid ≡ some uid
  pub admitted : admins uid ≡ true
  pub context : ctx ≡ plainly local_admin

module _ (c : Crypto) (env : Env) where
  -- A session token that the validation knows.
  pub record FromSession (key : String) (e : Engine) (ctx : Context) : Type 0 where
    pub kind : is_session_token key ≡ true
    pub user : User
    pub valid : (validate_session_token c env key e).1 ≡ ok (some user)
    pub context : ctx ≡ plainly user

  -- A scoped token that the validation knows.
  pub record FromToken (key : String) (e : Engine) (ctx : Context) : Type 0 where
    pub kind : is_api_token key ≡ true
    pub user : User
    pub info : TokenInfo
    pub valid : (validate_token c env key e).1 ≡ ok (some (user, info))
    pub context : ctx ≡ record { user = some user; token = some info }

  -- The API key of the first row with its hash.
  pub record FromKey (key : String) (e : Engine) (ctx : Context) : Type 0 where
    pub no_session : is_session_token key ≡ false
    pub no_token : is_api_token key ≡ false
    pub row : UserRow
    pub found : find (λ u. u.api_key_hash == c.sha256_hex key) e.db.users ≡ some row
    pub context : ctx ≡ plainly (scan_user row)

  abbrev pub FromCredential : String → Engine → Context → Type 0
  FromCredential key e ctx = FromSession key e ctx ⊎ (FromToken key e ctx ⊎ FromKey key e ctx)

  abbrev pub Identified : (ℕ → Bool) → Request → Engine → Context → Type 0
  Identified admins r e ctx =
      FromSocket admins r ctx
      ⊎ ((key : String) × (r.authorization ≡ "Bearer " <> key) × FromCredential key e ctx)

  key_row :
      (key : String) (e : Engine) (u : User)
      → get_user_by_api_key_hash env (c.sha256_hex key) e.db ≡ ok (some u)
      → (row : UserRow) × (find (λ u. u.api_key_hash == c.sha256_hex key) e.db.users ≡ some row)
        × (u ≡ scan_user row)
  unfolding get_user_by_api_key_hash
  key_row key e u h =
      elim (Option-cases (find (λ u. u.api_key_hash == c.sha256_hex key) e.db.users)) [
        | inl n ↦ absurd (no n)
        | inr (row, n) ↦ (row, n, ground (arith))
      ]
    where
      no : find (λ u. u.api_key_hash == c.sha256_hex key) e.db.users ≡ none → ⊥
      no n = ground arith

  authenticate_key_sound :
      (key : String) (e : Engine) (ctx : Context)
      → Passes (authenticate_key c env key) e ctx
      → FromCredential key e ctx
  unfolding authenticate_key
  authenticate_key_sound key e ctx h = elim (Bool-cases (is_session_token key)) [
    | inl s ↦
        let (u, valid, p) =
          identified-passes of_user (validate_session_token c env key e).1 ctx
            (rw (authenticate_key, s) at h) in
        inl (record { kind = s; user = u; valid = valid; context = pass_inj (plainly u) ctx p })
    | inr s ↦ elim (Bool-cases (is_api_token key)) [
      | inl t ↦
          let ((u, info), valid, p) =
            identified-passes _ (validate_token c env key e).1 ctx
              (rw (authenticate_key, s, t) at h) in
          inr (
            inl (record {
              kind = t;
              user = u;
              info = info;
              valid = valid;
              context = pass_inj (record { user = some u; token = some info }) ctx p;
            }))
      | inr t ↦
          let (u, valid, p) =
            identified-passes of_user (get_user_by_api_key_hash env (c.sha256_hex key) e.db) ctx
              (rw (authenticate_key, s, t) at h) in
          let (row, found, of_row) = key_row key e u valid in
          inr (
            inr (record {
              no_session = s;
              no_token = t;
              row = row;
              found = found;
              context = pass_inj (plainly u) ctx p ∙ ap plainly of_row;
            }))
    ]
  ]

module _ (c : Crypto) (env : Env) (admins : ℕ → Bool) where
  bearer :
      (s : String)
      → (trim_prefix s "Bearer " == s) ≡ false
      → s ≡ "Bearer " <> trim_prefix s "Bearer "
  unfolding trim_prefix
  bearer s h = elim (Bool-cases (has_prefix s "Bearer ")) [
    | inl p ↦ rw p (sym (append-cut_prefix s "Bearer " p))
    | inr p ↦ absurd (no p)
  ]
    where
      no : has_prefix s "Bearer " ≡ false → ⊥
      no p = ground (arith, string_eq.beq_iff s s)

  refused : (ctx : Context) → ◌≡◌ {A = Result Outcome} (ok (respond 401)) (ok (pass ctx)) → ⊥
  refused ctx q = cc

  peer_of :
      (r : Request)
      → socket_peer_is_admin admins r ≡ true
      → (uid : ℕ) × (r.peer_uid ≡ some uid) × (admins uid ≡ true)
  unfolding socket_peer_is_admin
  peer_of r h = elim (Option-cases r.peer_uid) [
    | inl n ↦ absurd (no n)
    | inr (uid, n) ↦ (uid, n, ground arith)
  ]
    where
      no : r.peer_uid ≡ none → ⊥
      no n = ground arith

  from_socket :
      (r : Request) (e : Engine) (ctx : Context)
      → (r.is_unix && not (is_proxied_web r) && socket_peer_is_admin admins r) ≡ true
      → ◌≡◌ {A = Result Outcome} (ok (of_user local_admin)) (ok (pass ctx))
      → FromSocket admins r ctx
  from_socket r e ctx s h =
      let (uid, peer, admitted) = peer_of r (ground arith) in
      record {
        local = ground arith;
        direct = ground (arith, string_eq.beq_iff r.apod_proxied "");
        uid = uid;
        peer = peer;
        admitted = admitted;
        context = pass_inj (plainly local_admin) ctx (ok_inj h);
      }
    where
      ok_inj : {o : Outcome} → ◌≡◌ {A = Result Outcome} (ok o) (ok (pass ctx)) → o ≡ pass ctx
      ok_inj q = cc

  -- A request that the authentication passes on is either the command line on the local socket, not
  -- through the web proxy and from an admitted UID, and then has the local administrator; or it carries
  -- `Bearer ` with a session token or a scoped token that its validation answers with the user, or with
  -- an API key whose hash a row of the users has, and then has that user. Only a scoped token comes with
  -- grants, those of its validation.
  pub auth_middleware_sound :
      (r : Request) (e : Engine) (ctx : Context)
      → Passes (auth_middleware c env admins r) e ctx
      → Identified c env admins r e ctx
  unfolding auth_middleware
  auth_middleware_sound r e ctx h =
      let key = trim_prefix r.authorization "Bearer " in
      elim (Bool-cases (r.is_unix && not (is_proxied_web r) && socket_peer_is_admin admins r)) [
        | inl s ↦ inl (from_socket r e ctx s (rw (s, auth_middleware) at h))
        | inr s ↦ elim (Bool-cases (r.authorization == "")) [
          | inl a ↦ absurd (refused ctx (rw (s, a, auth_middleware) at h))
          | inr a ↦ elim (Bool-cases (key == r.authorization)) [
            | inl k ↦ absurd (refused ctx (rw (s, a, k, auth_middleware) at h))
            | inr k ↦ inr (
              key,
              bearer r.authorization k,
              authenticate_key_sound c env key e ctx (rw (s, a, k, auth_middleware) at h),
            )
          ]
        ]
      ]
