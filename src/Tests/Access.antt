-- ===== src/Tests/Access.antt =====
-- Requests to the HTTP layer on the test database.
use apod.Base.{
  ℕ, ◌≡◌, ◌⊎◌, refl, Bool, false, String, none, some, ◌==◌, string_eq, nat_eq, ◌<>◌, find,
  has_prefix, cut_prefix, trim_prefix, split, split_char,
}
use apod.Db.Users.{User, get_user_by_name, get_user_by_api_key_hash}
use apod.Db.Tokens.{get_api_token_by_hash}
use apod.Auth.Tokens.{validate_token, non_empty}
use apod.Access.{Request, Context, is_admin, admin_only}
use apod.Access.Identity.{authenticate_key, auth_middleware, identified}
use apod.Access.Identity.Origin.{
  Passes, Identified, FromSocket, FromSession, FromKey, auth_middleware_sound,
}
use apod.Access.Identity.Admins.{admin_routes_sound}
use apod.Access.Scope.{segments, ability_middleware}
use apod.Access.Scope.Policy.{ScopeDecision, ability_middleware-decides}
use apod.Tests.Data.{crypto, env, alice, root, engine}
use apod.Tests.Tokens.{reader_info, two_tokens}

abbrev scoped : Context
scoped = record { user = some alice; token = some reader_info }

ability_middleware-decides_example :
    ScopeDecision reader_info "POST"
      (segments "/api/v1/sites/example.com/deploy")
      scoped
      (ability_middleware "POST" "/api/v1/sites/example.com/deploy" scoped)
ability_middleware-decides_example =
    ability_middleware-decides "POST" "/api/v1/sites/example.com/deploy" scoped reader_info refl

abbrev request : String → Request
request authorization = record {
  method = "GET";
  path = "/api/v1/users";
  authorization = authorization;
  apod_proxied = "";
  forwarded_for = "";
  remote_addr = "10.0.0.1:5000";
  is_unix = false;
  peer_uid = none;
}

abbrev only_root : ℕ → Bool
only_root uid = uid == 0

reader-Passes :
    Passes (auth_middleware crypto env only_root (request "Bearer apod_pat_0102")) two_tokens scoped
unfolding auth_middleware trim_prefix has_prefix cut_prefix authenticate_key validate_token
    get_api_token_by_hash find get_user_by_name identified non_empty split split_char
reader-Passes = refl

auth_middleware_sound_example :
    Identified crypto env only_root (request "Bearer apod_pat_0102") two_tokens scoped
auth_middleware_sound_example =
    auth_middleware_sound crypto env only_root (request "Bearer apod_pat_0102") two_tokens scoped
      reader-Passes

abbrev by_key : Context
by_key = record { user = some root; token = none }

key-Passes : Passes (auth_middleware crypto env only_root (request "Bearer key-r")) engine by_key
unfolding auth_middleware trim_prefix has_prefix cut_prefix authenticate_key
    get_user_by_api_key_hash find identified
key-Passes = refl

admin_routes_sound_example :
    (by_key ≡ by_key)
    × (FromSocket only_root (request "Bearer key-r") by_key
        ⊎ ((key : String) × ((request "Bearer key-r").authorization ≡ "Bearer " <> key)
            × (FromSession crypto env key engine by_key ⊎ FromKey crypto env key engine by_key)
            × (user : User) × (by_key ≡ record { user = some user; token = none })
            × (user.role ≡ "admin")))
unfolding ability_middleware admin_only is_admin
admin_routes_sound_example =
    admin_routes_sound crypto env only_root (request "Bearer key-r") engine by_key by_key key-Passes
      refl
