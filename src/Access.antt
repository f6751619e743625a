-- ===== src/Access.antt =====
-- Access control in the HTTP layer (internal/server): who a request is from, what a scoped token may
-- do, and how often a client may call. A middleware either answers with a status or passes the request
-- on with its context.
pub mod Identity
pub mod Scope
pub mod RateLimit
pub mod Streams
use apod.Base.{ℕ, Bool, false, String, Option, none, some, ◌==◌, nat_eq, string_eq, if◌then◌else◌}
use apod.Db.Users.{User}
use apod.Auth.Tokens.{TokenInfo}

-- What the middlewares read of a request. Headers that are missing are empty.
pub record Request : Type 0 where
  pub method : String
  pub path : String
  pub authorization : String
  pub apod_proxied : String
  pub forwarded_for : String
  pub remote_addr : String
  -- `ctxIsUnixSocket` and `ctxPeerUID`, which `UnixSocketMiddleware` sets.
  pub is_unix : Bool
  pub peer_uid : Option ℕ

-- `ctxUserKey` and `ctxTokenKey`.
pub record Context : Type 0 where
  pub user : Option User
  pub token : Option TokenInfo

pub data Outcome : Type 0 where
  respond : ℕ → Outcome
  pass : Context → Outcome

-- One middleware behind another.
infixl 5 ◌>=>◌
abbrev pub ◌>=>◌ : (Context → Outcome) → (Context → Outcome) → Context → Outcome
◌>=>◌ m k ctx = elim (m ctx) [ respond s ↦ respond s | pass ctx' ↦ k ctx' ]

-- `IsAdmin`.
unfoldable pub is_admin : Context → Bool
is_admin ctx = elim ctx.user [ none ↦ false | some u ↦ u.role == "admin" ]

-- `AdminOnlyMiddleware`.
unfoldable pub admin_only : Context → Outcome
unfolding is_admin
admin_only ctx = elim ctx.token [
  | some t ↦ respond 403
  | none ↦ if is_admin ctx then pass ctx else respond 403
]
