-- ===== src/Tests/Tokens.antt =====
-- A scoped token of the test database.
use apod.Base.{
  ◌+◌, ◌*◌, ◌≡◌, ◌≢◌, ◌⊎◌, refl, false, String, none, some, List, [], ◌∷◌, ok, arith, find, any,
  delete_where, join, hex_encode, is_blank,
}
use apod.Db.{Env, ApiToken}
use apod.Db.Users.{User, get_user_by_name}
use apod.Db.Tokens.{create_api_token, delete_api_token}
use apod.Auth.{Engine, log_activity}
use apod.Auth.Tokens.{
  TokenInfo, create_token, validate_token, revoke_token, has_ability, contains, kept, all_valid,
}
use apod.Auth.Tokens.Creation.{validate-create_token, create_token-wrapped}
use apod.Auth.Tokens.Revocation.{revoke_token_scoped}
use apod.Tests.Data.{crypto, env, env_at, noon, alice, db, engine}

abbrev pub reader : String
reader = "apod_pat_0102"

abbrev pub asked : List String
asked = "deploy" ∷ "read" ∷ []

pub created : (create_token crypto env "alice" "ci" asked false 1 engine).1 ≡ ok reader
unfolding create_token is_blank all_valid contains get_user_by_name find hex_encode create_api_token
    any kept join log_activity
created = refl

abbrev pub with_token : Engine
with_token = (create_token crypto env "alice" "ci" asked false 1 engine).0

abbrev in_the_evening : Env
in_the_evening = env_at (noon + 21600 * 1000000000)

validate-create_token_example :
    (user : User) × (info : TokenInfo) × (validate_token crypto in_the_evening reader with_token
      ≡ (with_token, ok (some (user, info))))
    × (user.name ≡ "alice")
    × (info.sensitive ≡ false)
    × ((a : String) → has_ability info a ≡ contains a asked)
validate-create_token_example =
    validate-create_token crypto env "alice" "ci" asked false 1 in_the_evening reader engine created
      refl refl (omega arith) (λ n. omega arith)

long_lived : (create_token crypto env "alice" "ci" asked false 106752 engine).1 ≡ ok reader
unfolding create_token is_blank all_valid contains get_user_by_name find hex_encode create_api_token
    any kept join log_activity
long_lived = refl

create_token-wrapped_example :
    let e' = (create_token crypto env "alice" "ci" asked false 106752 engine).0 in
    validate_token crypto env reader e' ≡ (e', ok none)
create_token-wrapped_example =
    create_token-wrapped crypto env "alice" "ci" asked false 106752 env reader engine long_lived
      refl (omega arith) (omega arith) (omega arith) (omega arith)

abbrev pub reader_info : TokenInfo
reader_info = record { id = 1; name = "ci"; abilities = "read" ∷ "deploy" ∷ []; sensitive = false }

abbrev pub reader_row : ApiToken
reader_row = record {
  id = 1;
  user_name = "alice";
  name = "ci";
  token_hash = "sha256:apod_pat_0102";
  abilities = "read,deploy";
  sensitive = false;
  expires_at = none;
}

abbrev pub two_tokens : Engine
two_tokens = record engine {
  db = record db {
    api_tokens =
        reader_row
        ∷ record reader_row { id = 2; user_name = "root"; token_hash = "sha256:other" }
        ∷ [];
    next_token_id = 3;
  };
}

revoked : (revoke_token crypto env "root" 2 two_tokens).1 ≡ ok tt
unfolding revoke_token delete_api_token log_activity any delete_where
revoked = refl

-- Another user's token goes, and this one stays.
revoke_token_scoped_example :
    let e' = (revoke_token crypto env "root" 2 two_tokens).0 in
    ((validate_token crypto env reader e').1 ≡ ok (some (alice, reader_info))
      → (reader_info.id ≢ 2) ⊎ (alice.name ≢ "root"))
    × ((validate_token crypto env reader two_tokens).1 ≡ ok (some (alice, reader_info))
        → (reader_info.id ≢ 2) ⊎ (alice.name ≢ "root")
        → validate_token crypto env reader e' ≡ (e', ok (some (alice, reader_info))))
revoke_token_scoped_example =
    revoke_token_scoped crypto env "root" 2 two_tokens env reader alice reader_info revoked
