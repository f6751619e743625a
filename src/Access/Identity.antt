-- ===== src/Access/Identity.antt =====
-- internal/server/middleware.go: who a request is from.
pub mod Origin
pub mod Admins
use apod.Base.{
  ℕ, Bool, false, not, ◌&&◌, String, Option, none, some, Result, ok, err, ◌==◌, nat_eq, string_eq,
  if◌then◌else◌, trim_prefix,
}
use apod.Db.{Db, Env}
use apod.Db.Users.{User, get_user_by_api_key_hash}
use apod.Auth.{Crypto, Engine, M, ◌>>=◌, ◌>>◌, pure, fail, query, attempt, >>=-ok}
use apod.Auth.Password.{is_session_token, validate_session_token}
use apod.Auth.Tokens.{TokenInfo, is_api_token, validate_token}
use apod.Access.{Request, Context, Outcome, respond, pass, ◌>=>◌, is_admin, admin_only}

-- `isProxiedWeb`.
abbrev pub is_proxied_web : Request → Bool
is_proxied_web r = not (r.apod_proxied == "")

-- `socketPeerIsAdmin`, for the UIDs of `socketAdminUIDs`.
unfoldable pub socket_peer_is_admin : (ℕ → Bool) → Request → Bool
socket_peer_is_admin admins r = elim r.peer_uid [ none ↦ false | some uid ↦ admins uid ]

-- The user of the local command line. The fields that the source leaves out are zero.
abbrev pub local_admin : User
local_admin = record {
  id = 0;
  name = "__admin__";
  uid = 0;
  role = "admin";
  can_create_sites = false;
}

-- A context with a user and no token.
abbrev pub of_user : User → Outcome
of_user u = pass (record { user = some u; token = none })

-- What a validation leads to: 401 for an error or for no one.
unfoldable pub identified {ℓ} : {A : Type ℓ} → (A → Outcome) → Result (Option A) → Outcome
identified f (err x) = respond 401
identified f (ok none) = respond 401
identified f (ok (some a)) = f a

module _ (c : Crypto) (env : Env) where
  -- The switch on the kind of credential.
  unfoldable pub authenticate_key : String → M Outcome
  authenticate_key key =
      if is_session_token key
      then (do user ← attempt (validate_session_token c env key); pure (identified of_user user))
      else if is_api_token key
      then (do
        grant ← attempt (validate_token c env key)
        pure (identified (λ (u, info). pass (record { user = some u; token = some info })) grant))
      else (do
        user ← attempt (query (get_user_by_api_key_hash env (c.sha256_hex key)))
        pure (identified of_user user))

  -- `AuthMiddleware`, for the UIDs of `socketAdminUIDs`.
  unfoldable pub auth_middleware : (ℕ → Bool) → Request → M Outcome
  unfolding trim_prefix
  auth_middleware admins r =
      if r.is_unix && not (is_proxied_web r) && socket_peer_is_admin admins r
      then pure (of_user local_admin)
      else if r.authorization == ""
      then pure (respond 401)
      else let key = trim_prefix r.authorization "Bearer " in
        if key == r.authorization then pure (respond 401) else authenticate_key key
