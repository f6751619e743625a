-- ===== src/Tests/Data.antt =====
-- A database of two users, the primitives as readable functions, and an environment that never fails.
use apod.Base.{ℕ, ◌*◌, true, false, none, some, List, [], ◌∷◌, ◌==◌, string_eq, get_or, codes, ◌<>◌}
use apod.Totp.{Primitives}
use apod.Db.{Db, Env, UserRow}
use apod.Db.Users.{User, scan_user}
use apod.Auth.{Crypto, Engine}
use apod.Auth.Throttle.{new_login_throttle}

-- A digest whose last byte is 0 and whose first is the last byte of the counter.
abbrev pub digest : List ℕ → List ℕ → List ℕ
digest key msg = get_or 0 msg 7 ∷ 0 ∷ 0 ∷ 0 ∷ 0 ∷ []

abbrev pub totp : Primitives
totp = record {
  b32_decode = λ s. some (codes s);
  b32_encode = λ bytes. "SECRET";
  hmac_sha1 = digest;
}

abbrev pub crypto : Crypto
crypto = record {
  totp = totp;
  sha256_hex = λ s. "sha256:" <> s;
  bcrypt_generate = λ salt s. some ("bcrypt:" <> s);
  bcrypt_matches = λ h s. h == "bcrypt:" <> s;
  seal = λ nonce s. some s;
  unseal = λ s. some s;
}

abbrev pub noon : ℕ
noon = 43200 * 1000000000

abbrev pub env_at : ℕ → Env
env_at now = record { now = now; down = λ s. false; rand = λ n. some (1 ∷ 2 ∷ []) }

abbrev pub env : Env
env = env_at noon

abbrev pub alice_row : UserRow
alice_row = record {
  id = 1;
  name = "alice";
  uid = 5000;
  role = "user";
  api_key_hash = "sha256:key-a";
  password_hash = "bcrypt:password-a";
  can_create_sites = true;
  totp_secret = "S";
  totp_enabled = true;
  totp_last_step = 0;
  recovery_codes = some ("bcrypt:r1" ∷ "bcrypt:r2" ∷ []);
}

abbrev pub root_row : UserRow
root_row = record {
  id = 2;
  name = "root";
  uid = 5001;
  role = "admin";
  api_key_hash = "sha256:key-r";
  password_hash = "bcrypt:password-r";
  can_create_sites = true;
  totp_secret = "";
  totp_enabled = false;
  totp_last_step = 0;
  recovery_codes = none;
}

abbrev pub alice : User
alice = scan_user alice_row

abbrev pub root : User
root = scan_user root_row

abbrev pub db : Db
db = record {
  users = alice_row ∷ root_row ∷ [];
  sessions = [];
  api_tokens = [];
  next_user_id = 3;
  next_token_id = 1;
  site_owners = "alice" ∷ [];
  operations = [];
}

abbrev pub engine : Engine
engine = record { db = db; throttle = new_login_throttle }
