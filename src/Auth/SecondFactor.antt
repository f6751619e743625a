-- ===== src/Auth/SecondFactor.antt =====
-- internal/engine/totp.go, with the box for secrets of internal/engine/crypt.go.
pub mod Replay
use mathlib.Core.Option
use apod.Base.{
  ℕ, zero, suc, ◌+◌, ◌*◌, ◌%◌, Bool, true, false, not, String, Option, none, some, List, [], ◌∷◌,
  map, Result, ok, err, plain, invalid, ◌==◌, nat_eq, string_eq, if◌then◌else◌, ltb, leb, codes,
  has_prefix, cut_prefix, ◌<>◌, hex_encode,
}
use apod.Totp.{Primitives, verify, step, u64_mod}
use apod.Db.{Env, Db}
use apod.Db.Users.{
  get_user_by_name, get_user_totp, set_user_totp_secret, set_user_totp_enabled, clear_user_totp,
  get_user_totp_last_step, set_user_totp_last_step, get_user_recovery_codes,
  set_user_recovery_codes,
}
use apod.Auth.{
  Crypto, Engine, M, ◌>>=◌, ◌>>◌, pure, fail, query, exec, best_effort, attempt, lift, require,
  written, log_activity,
}

abbrev pub secret_enc_prefix : String
secret_enc_prefix = "enc:v1:"

abbrev pub recovery_code_count : ℕ
recovery_code_count = 8

-- The read that is ignored on an error leaves the zero value.
abbrev pub or_zero : Result ℕ → ℕ
or_zero (ok n) = n
or_zero (err x) = 0

-- The codes as stored, where they can be read.
abbrev pub readable : Result (Option (List String)) → Option (List String)
readable (ok codes) = codes
readable (err x) = none

module _ (c : Crypto) where
  -- The hashes that stay when the first that matches the code is taken out; `none` if none matches.
  unfoldable pub burn : String → List String → Option (List String)
  burn code [] = none
  burn code (h ∷ hashes) =
      if c.bcrypt_matches h code
      then some hashes
      else Option.map (λ rest. h ∷ rest) (burn code hashes)

  -- `decryptSecretValue`: a value with no prefix is legacy plaintext.
  unfoldable pub decrypt_secret_value : String → Result String
  unfolding has_prefix cut_prefix
  decrypt_secret_value stored =
      if has_prefix stored secret_enc_prefix
      then elim (c.unseal (cut_prefix stored secret_enc_prefix)) [
        | none ↦ err (plain "decrypt secret")
        | some s ↦ ok s
      ]
      else ok stored

  module _ (env : Env) where
    -- `encryptSecretValue`, with the n-th random draw of the call as its nonce.
    unfoldable pub encrypt_secret_value : ℕ → String → Result String
    encrypt_secret_value n plaintext = elim (c.seal (env.rand n) plaintext) [
      | none ↦ err (plain "encrypt secret")
      | some box ↦ ok (secret_enc_prefix <> box)
    ]

    -- `getUserTOTP`.
    unfoldable pub stored_totp : String → M (String × Bool)
    stored_totp name = do
      (stored, enabled) ← query (get_user_totp env name)
      secret ← lift (decrypt_secret_value stored)
      pure (secret, enabled)

    -- Whether the flag is set, where it can be read.
    abbrev pub is_enabled : Result (String × Bool) → Bool
    is_enabled (ok (stored, enabled)) = enabled
    is_enabled (err x) = false

    -- `Setup2FA`: the new secret (`totp.NewSecret` of the first draw). The otpauth URI is left out.
    unfoldable pub setup_2fa : String → M String
    setup_2fa name = do
      user ← query (get_user_by_name env name)
      flag ← attempt (query (get_user_totp env name))
      if is_enabled flag
          then fail (invalid "2FA is already enabled; disable it before re-enrolling")
          else (do
            bytes ← require (plain "generate totp secret: %w") (env.rand 0)
            let secret = c.totp.b32_encode bytes
            enc ← lift (encrypt_secret_value 1 secret)
            exec (set_user_totp_secret env name enc)
            pure secret)

    -- `generateRecoveryCodes` from the i-th code on: the plain codes and their hashes, two draws each.
    unfoldable pub recovery_codes_from : ℕ → ℕ → Option (List String × List String)
    recovery_codes_from i zero = some ([], [])
    recovery_codes_from i (suc n) = elim (env.rand (2 * i)) [
      | none ↦ none
      | some bytes ↦ elim (c.bcrypt_generate (env.rand (2 * i + 1)) (hex_encode bytes)) [
        | none ↦ none
        | some h ↦
            Option.map (λ r. (hex_encode bytes ∷ r.0, h ∷ r.1)) (recovery_codes_from (i + 1) n)
      ]
    ]

    -- `Enable2FA`.
    unfoldable pub enable_2fa : String → String → M (List String)
    enable_2fa name code = do
      (secret, enabled) ← stored_totp name
      if secret == ""
          then fail (plain "run 2FA setup first")
          else elim (verify c.totp secret (codes code) env.now) [
            | none ↦ fail (plain "invalid code")
            | some s ↦ do
              (plain_codes, hashed) ←
                  require (plain "generate recovery code: %w")
                    (recovery_codes_from 0 recovery_code_count)
              exec (set_user_recovery_codes env name hashed)
              exec (set_user_totp_enabled env name true)
              log_activity env "server" "user_2fa_enabled" "2FA enabled for %s" "success"
              pure plain_codes
          ]

    -- `Disable2FA`.
    unfoldable pub disable_2fa : String → String → M (Unit {0})
    disable_2fa name code = do
      (secret, enabled) ← stored_totp name
      if enabled
          then elim (verify c.totp secret (codes code) env.now) [
            | none ↦ fail (plain "invalid code")
            | some s ↦ do
              exec (clear_user_totp env name)
              log_activity env "server" "user_2fa_disabled" "2FA disabled for %s" "success"
          ]
          else fail (plain "2FA is not enabled")

    -- `consumeRecoveryCode`: the write of the shorter list may fail unnoticed.
    unfoldable pub consume_recovery_code : String → String → Engine → Engine × Bool
    consume_recovery_code name code e = elim (readable (get_user_recovery_codes env name e.db)) [
      | none ↦ (e, false)
      | some hashes ↦ elim (burn code hashes) [
        | none ↦ (e, false)
        | some rest ↦ (written e (set_user_recovery_codes env name rest e.db), true)
      ]
    ]

    -- The new replay floor: the highest step that is accepted now, or the matched one.
    abbrev pub floor_for : ℕ → ℕ
    floor_for s = let top = (step env.now + 1) % u64_mod in if ltb top s then s else top

    -- `consumeSecondFactor`: a read of the floor that fails counts as 0, and the write may fail unnoticed.
    unfoldable pub consume_second_factor : String → String → String → Engine → Engine × Bool
    consume_second_factor name secret code e = elim (verify c.totp secret (codes code) env.now) [
      | none ↦ consume_recovery_code name code e
      | some s ↦
          if leb s (or_zero (get_user_totp_last_step env name e.db))
          then (e, false)
          else (written e (set_user_totp_last_step env name (floor_for s) e.db), true)
    ]
