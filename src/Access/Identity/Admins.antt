-- ===== src/Access/Identity/Admins.antt =====
-- Who reaches the routes of administrators.
use apod.Base.{
  ℕ, ◌≡◌, ◌≢◌, ◌⊎◌, inl, inr, refl, sym, subst, ◌∙◌, Bool, String, some, nat_eq, string_eq, arith,
  ◌<>◌,
}
use apod.Db.{Env}
use apod.Db.Users.{User, scan_user}
use apod.Auth.{Crypto, Engine}
use apod.Auth.Tokens.{TokenInfo}
use apod.Access.{Request, Context, respond, pass, ◌>=>◌, is_admin, admin_only}
use apod.Access.Scope.{ability_middleware}
use apod.Access.Scope.Policy.{ability_middleware-decides}
use apod.Access.Identity.{local_admin, auth_middleware}
use apod.Access.Identity.Origin.{
  plainly, Passes, FromSocket, FromSession, FromKey, auth_middleware_sound,
}

-- The two checks behind the authentication, for a user without a scoped token and for one with it.
checks-plainly :
    (method path : String) (u : User) (ctx' : Context)
    → (ability_middleware method path >=> admin_only) (plainly u) ≡ pass ctx'
    → (ctx' ≡ plainly u) × (u.role ≡ "admin")
unfolding ability_middleware admin_only is_admin
checks-plainly method path u ctx' h =
    (ground arith, ground (arith, string_eq.beq_iff u.role "admin"))

checks-scoped :
    (method path : String) (u : User) (info : TokenInfo) (ctx' : Context)
    → (ability_middleware method path >=> admin_only) (record { user = some u; token = some info })
      ≢ pass ctx'
unfolding admin_only
checks-scoped method path u info ctx' h =
    elim (ability_middleware-decides method path (record { user = some u; token = some info }) info
      refl) [ inl (_, p) ↦ absurd (admitted p) | inr (_, p) ↦ absurd (refused p) ]
  where
    admitted :
        ability_middleware method path (record { user = some u; token = some info })
          ≡ pass (record { user = some u; token = some info })
        → ⊥
    admitted p = ground arith

    refused :
        ability_middleware method path (record { user = some u; token = some info }) ≡ respond 403
        → ⊥
    refused p = ground arith

module _ (c : Crypto) (env : Env) (admins : ℕ → Bool) where
  -- A request that passes the authentication, the check of scopes and the check for administrators comes
  -- without a scoped token and keeps the context of the authentication: the local administrator of the
  -- socket, or a user with the role `admin`, by a session token or an API key.
  pub admin_routes_sound :
      (r : Request) (e : Engine) (ctx ctx' : Context)
      → Passes (auth_middleware c env admins r) e ctx
      → (ability_middleware r.method r.path >=> admin_only) ctx ≡ pass ctx'
      → (ctx' ≡ ctx)
        × (FromSocket admins r ctx
            ⊎ ((key : String) × (r.authorization ≡ "Bearer " <> key)
                × (FromSession c env key e ctx ⊎ FromKey c env key e ctx)
                × (user : User) × (ctx ≡ plainly user)
                × (user.role ≡ "admin")))
  admin_routes_sound r e ctx ctx' h a = elim (auth_middleware_sound c env admins r e ctx h) [
    | inl s ↦ (unchanged local_admin s.context, inl s)
    | inr (key, b, inl s) ↦
        (unchanged s.user s.context, inr (key, b, inl s, s.user, s.context, role s.user s.context))
    | inr (key, b, inr (inl t)) ↦
        absurd (checks-scoped r.method r.path t.user t.info ctx' (at_context t.context))
    | inr (key, b, inr (inr k)) ↦ (
      unchanged (scan_user k.row) k.context,
      inr (key, b, inr k, scan_user k.row, k.context, role (scan_user k.row) k.context),
    )
  ]
    where
      at_context :
          {x : Context}
          → ctx ≡ x
          → (ability_middleware r.method r.path >=> admin_only) x ≡ pass ctx'
      at_context p =
          subst (λ x. (ability_middleware r.method r.path >=> admin_only) x ≡ pass ctx') p a

      unchanged : (u : User) → ctx ≡ plainly u → ctx' ≡ ctx
      unchanged u p = (checks-plainly r.method r.path u ctx' (at_context p)).0 ∙ sym p

      role : (u : User) → ctx ≡ plainly u → u.role ≡ "admin"
      role u p = (checks-plainly r.method r.path u ctx' (at_context p)).1
