-- ===== src/Access/Scope.antt =====
-- internal/server/ability.go: the route policy for scoped tokens.
pub mod Classes
pub mod Policy
use apod.Base.{
  Bool, true, false, not, ◌&&◌, ◌||◌, String, none, some, List, [], ◌∷◌, ◌==◌, nat_eq, string_eq,
  if◌then◌else◌, trim_prefix, split, trim,
}
use apod.Auth.Tokens.{TokenInfo, has_ability, contains}
use apod.Access.{Context, Outcome, respond, pass}

-- `deployActions` and `sensitiveLeaf`.
abbrev pub deploy_actions : List String
deploy_actions = "deploy" ∷ "rollback" ∷ "restart" ∷ "start" ∷ "stop" ∷ []

abbrev pub sensitive_leaf : List String
sensitive_leaf =
    "env" ∷ "info" ∷ "webhook" ∷ "ftp" ∷ "db" ∷ "backups" ∷ "export" ∷ "clone" ∷ "terminal" ∷ []

pub record PatPolicy : Type 0 where
  pub management : Bool
  pub deploy : Bool
  pub sensitive : Bool

abbrev pub no_policy : PatPolicy
no_policy = record { management = false; deploy = false; sensitive = false }

-- The cases of the switch, on the segments after the first.
unfoldable pub auth_management : List String → Bool
auth_management [] = false
auth_management (a ∷ rest) = a == "2fa"

unfoldable pub users_management : String → List String → Bool
users_management method [] = false
users_management method (n ∷ []) = method == "DELETE"
users_management method (n ∷ a ∷ rest) = a == "password" || a == "reset-key" || a == "permissions"

unfoldable pub site_policy : List String → PatPolicy
site_policy (d ∷ action ∷ rest) = record {
  management = false;
  deploy = contains action deploy_actions;
  sensitive = contains action sensitive_leaf;
}
site_policy _ = no_policy

unfoldable pub classify : String → List String → PatPolicy
unfolding auth_management users_management site_policy
classify method [] = no_policy
classify method (s ∷ rest) =
    if s == "tokens"
    then record no_policy { management = true }
    else if s == "auth"
    then record no_policy { management = auth_management rest }
    else if s == "users"
    then record no_policy { management = users_management method rest }
    else if s == "terminal"
    then record no_policy { sensitive = true }
    else if s == "sites"
    then site_policy rest
    else no_policy

-- The segments of a request path.
unfoldable pub segments : String → List String
unfolding trim trim_prefix split
segments path = split (trim (trim_prefix path "/api/v1") b'/') b'/'

abbrev pub is_read : String → Bool
is_read method = method == "GET" || method == "HEAD"

-- What the middleware decides for a token, from the policy of the route.
unfoldable pub decide_scope : TokenInfo → String → PatPolicy → Context → Outcome
decide_scope info method p ctx =
    if p.management
    then respond 403
    else if is_read method && not (has_ability info "read")
    then respond 403
    else if not (is_read method)
        && not (has_ability info "write" || (p.deploy && has_ability info "deploy"))
    then respond 403
    else if p.sensitive && not info.sensitive
    then respond 403
    else pass ctx

-- `AbilityMiddleware`.
unfoldable pub ability_middleware : String → String → Context → Outcome
unfolding decide_scope classify segments
ability_middleware method path ctx = elim ctx.token [
  | none ↦ pass ctx
  | some info ↦ decide_scope info method (classify method (segments path)) ctx
]
