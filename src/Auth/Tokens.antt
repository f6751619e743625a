-- ===== src/Auth/Tokens.antt =====
-- internal/engine/token.go: scoped personal access tokens.
pub mod Abilities
pub mod Creation
pub mod Validation
pub mod Revocation
use apod.Base.{
  ℕ, ◌+◌, ◌-◌, ◌*◌, ◌%◌, Bool, true, false, not, ◌&&◌, ◌||◌, String, Option, none, some, List, [],
  ◌∷◌, ok, err, plain, ◌==◌, nat_eq, string_eq, if◌then◌else◌, length, ltb, has_prefix, split, join,
  ◌<>◌, is_blank, hex_encode,
}
use apod.Db.{Env, Db, ApiToken}
use apod.Db.Users.{User, get_user_by_name}
use apod.Db.Tokens.{create_api_token, get_api_token_by_hash, delete_api_token}
use apod.Auth.{
  Crypto, Engine, M, ◌>>=◌, ◌>>◌, pure, fail, query, exec, attempt, require, log_activity,
}

abbrev pub api_token_prefix : String
api_token_prefix = "apod_pat_"

-- `validAbilities`, and the order of the stored list.
abbrev pub valid_abilities : List String
valid_abilities = "read" ∷ "write" ∷ "deploy" ∷ []

-- `map[string]bool` as the list of its keys.
unfoldable pub contains : String → List String → Bool
contains a [] = false
contains a (x ∷ xs) = a == x || contains a xs

-- The grants of a validated token.
pub record TokenInfo : Type 0 where
  pub id : ℕ
  pub name : String
  pub abilities : List String
  pub sensitive : Bool

-- `HasAbility`.
unfoldable pub has_ability : TokenInfo → String → Bool
unfolding contains
has_ability t a = contains a t.abilities

-- `IsAPIToken`.
abbrev pub is_api_token : String → Bool
is_api_token token = has_prefix token api_token_prefix

-- The loop that checks the asked-for abilities.
unfoldable pub all_valid : List String → Bool
unfolding contains
all_valid [] = true
all_valid (a ∷ asked) = contains a valid_abilities && all_valid asked

-- Those of a list of abilities that were asked for, in the order of the list.
unfoldable pub kept : List String → List String → List String
unfolding contains
kept [] asked = []
kept (a ∷ order) asked = if contains a asked then a ∷ kept order asked else kept order asked

-- The parts of the stored list that are not empty.
unfoldable pub non_empty : List String → List String
non_empty [] = []
non_empty (a ∷ parts) = if a == "" then non_empty parts else a ∷ non_empty parts

abbrev pub day : ℕ
day = 86400000000000

-- `now.Add(d)` for the 64 bits of a duration, of which the upper half are the negative ones. An instant before
-- 1970 counts as 1970.
abbrev pub add_duration : ℕ → ℕ → ℕ
add_duration now d = if ltb d 9223372036854775808 then now + d else now + d - 18446744073709551616

-- The expiry of a lifetime in days, with the wrap-around of the product; none for 0.
abbrev pub expiry : ℕ → ℕ → Option ℕ
expiry now ttl_days =
    if ltb 0 ttl_days
    then some (add_duration now ((ttl_days * day) % 18446744073709551616))
    else none

-- The grants of a row.
abbrev pub info_of : ApiToken → TokenInfo
info_of t = record {
  id = t.id;
  name = t.name;
  abilities = non_empty (split t.abilities b',');
  sensitive = t.sensitive;
}

module _ (c : Crypto) (env : Env) where
  -- `CreateAPIToken`: the raw token. A negative lifetime counts as 0 in the source too.
  unfoldable pub create_token : String → String → List String → Bool → ℕ → M String
  create_token user_name name asked sensitive ttl_days =
      if is_blank name
      then fail (plain "token name is required")
      else if length asked == 0
      then fail (plain "at least one ability is required")
      else if not (all_valid asked)
      then fail (plain "invalid ability %q (allowed: read, write, deploy)")
      else (do
        user ← query (get_user_by_name env user_name)
        bytes ← require (plain "generate token: %w") (env.rand 0)
        let raw = api_token_prefix <> hex_encode bytes
        exec (
            create_api_token env user_name name (c.sha256_hex raw)
              (join (kept valid_abilities asked) ",") sensitive (expiry env.now ttl_days))
        log_activity env "server" "token_create" "created API token %q for %s" "success"
        pure raw)

  -- `ValidateAPIToken`; `none` is the source's `nil, nil, nil`. A token whose user is gone is none.
  unfoldable pub validate_token : String → M (Option (User × TokenInfo))
  validate_token raw = if not (is_api_token raw) then pure none else (do
    tok ← query (get_api_token_by_hash env (c.sha256_hex raw))
    elim tok [
      | none ↦ pure none
      | some t ↦ do
        user ← attempt (query (get_user_by_name env t.user_name))
        elim user [ err x ↦ pure none | ok u ↦ pure (some (u, info_of t)) ]
    ])

  -- `RevokeAPIToken`.
  unfoldable pub revoke_token : String → ℕ → M (Unit {0})
  revoke_token user_name id = do
    exec (delete_api_token env user_name id)
    log_activity env "server" "token_revoke" "revoked API token %d for %s" "success"
