-- ===== src/Auth/SecondFactor/Replay.antt =====
-- A second factor serves once.
use mathlib.Core.Option
use mathlib.Core.List.{Perm}
use mathlib.Core.List.Perm
use apod.Base.{
  any_of_find, Option-cases, find, ℕ, ◌+◌, ◌%◌, ◌≤◌, ◌≡◌, ◌⊎◌, inl, inr, subst, true, false, String,
  none, some, List, [], ◌∷◌, ok, if◌then◌else◌, find, any, arith, Bool-cases, Option-cases, codes,
  any_of_find, find-update_where, find_of_any,
}
use apod.Totp.{verify, step, u64_mod}
use apod.Db.{Env, Stmt, UserRow}
use apod.Db.Users.{
  is_named, set_user_totp_last_step, get_user_totp_last_step, get_user_recovery_codes,
  set_user_recovery_codes,
}
use apod.Auth.{Crypto, Engine, written}
use apod.Auth.SecondFactor.{readable, burn, consume_recovery_code, consume_second_factor, floor_for}

module _ (c : Crypto) where
  -- The floor that is read after it was written.
  get-set_user_totp_last_step :
      (env env' : Env) (name : String) (n : ℕ) (e : Engine)
      → env.down Stmt.set_user_totp_last_step ≡ false
      → env'.down Stmt.get_user_totp_last_step ≡ false
      → any (is_named name) e.db.users ≡ true
      → get_user_totp_last_step env' name (written e (set_user_totp_last_step env name n e.db)).db
        ≡ ok n
  unfolding get_user_totp_last_step set_user_totp_last_step
  get-set_user_totp_last_step env env' name n e w r found =
      let (u, at) = find_of_any (is_named name) e.db.users found in
      let row : UserRow = record u { totp_last_step = n } in
      let again =
        find-update_where (is_named name) (λ v. record v { totp_last_step = n }) e.db.users u
          (λ v h. h) at in
      rw (w, found, r, again)

  -- Once a time-based code has been accepted and the floor could be written, no code of a step up to the
  -- highest one accepted at that time is accepted again, whatever the clock shows later: in particular
  -- not the same code, as long as the floor can be read.
  pub consume-refuses-replay :
      (env env' : Env) (name secret code code' : String) (e : Engine) (s s' : ℕ)
      → env.down Stmt.set_user_totp_last_step ≡ false
      → env'.down Stmt.get_user_totp_last_step ≡ false
      → any (is_named name) e.db.users ≡ true
      → verify c.totp secret (codes code) env.now ≡ some s
      → (consume_second_factor c env name secret code e).1 ≡ true
      → verify c.totp secret (codes code') env'.now ≡ some s'
      → (s' ≤ s) ⊎ (s' ≤ (step env.now + 1) % u64_mod)
      → let e' = (consume_second_factor c env name secret code e).0 in
        consume_second_factor c env' name secret code' e' ≡ (e', false)
  unfolding consume_second_factor
  consume-refuses-replay env env' name secret code code' e s s' w r found v accepted v' old =
      ground (arith, get-set_user_totp_last_step env env' name (floor_for c env s) e w r found)

  -- A recovery code takes out one hash that it matches, and leaves the others as they were.
  pub burn-perm :
      (code : String) (hashes rest : List String)
      → burn c code hashes ≡ some rest
      → (h : String) × (c.bcrypt_matches h code ≡ true) × Perm hashes (h ∷ rest)
  unfolding burn
  burn-perm code [] rest e = absurd (none_some e)
    where
      none_some : none ≡ some rest → ⊥
      none_some e = cc
  burn-perm code (x ∷ hashes) rest e = elim (Bool-cases (c.bcrypt_matches x code)) [
    | inl hit ↦
        (x, hit, subst (λ r. Perm (x ∷ hashes) (x ∷ r)) (ground arith) (Perm.refl (x ∷ hashes)))
    | inr miss ↦
        let (less, found, same) = (Option.map-eq-some_iff _ _).0 (rw miss at e) in
        let (h, m, p) = burn-perm code hashes less found in
        (
          h,
          m,
          subst (λ r. Perm (x ∷ hashes) (h ∷ r)) same
              (Perm.trans (Perm.cons x p) (Perm.swap h x less)),
        )
  ]

  -- The recovery codes that are read after they were written, if they can be read.
  get-set_user_recovery_codes :
      (env env' : Env) (name : String) (e : Engine) (hashes rest : List String)
      → env.down Stmt.set_user_recovery_codes ≡ false
      → get_user_recovery_codes env name e.db ≡ ok (some hashes)
      → readable (
          get_user_recovery_codes env' name
            (written e (set_user_recovery_codes env name rest e.db)).db)
        ≡ (if env'.down Stmt.get_user_recovery_codes then none else some rest)
  unfolding get_user_recovery_codes set_user_recovery_codes
  get-set_user_recovery_codes env env' name e hashes rest w read =
      elim (Option-cases (find (is_named name) e.db.users)) [
        | inl missing ↦ absurd (no_row missing)
        | inr (u, at) ↦
            let again =
              find-update_where (is_named name) (λ v. record v { recovery_codes = some rest })
                e.db.users u (λ v h. h) at in
            let found = any_of_find (is_named name) e.db.users u at in
            elim (Bool-cases (env'.down Stmt.get_user_recovery_codes)) [
              | inl broken ↦ rw broken
              | inr working ↦ rw (w, found, working, again)
            ]
      ]
    where
      no_row : find (is_named name) e.db.users ≡ none → ⊥
      no_row missing = ground arith

  -- A recovery code is refused the second time it is given, if the shorter list could be written and
  -- no other stored hash matches it.
  pub consume-refuses-recovery_code :
      (env env' : Env) (name code : String) (e : Engine) (hashes rest : List String)
      → env.down Stmt.set_user_recovery_codes ≡ false
      → get_user_recovery_codes env name e.db ≡ ok (some hashes)
      → burn c code hashes ≡ some rest
      → burn c code rest ≡ none
      → let r = consume_recovery_code c env name code e in
        (r.1 ≡ true) × (consume_recovery_code c env' name code r.0 ≡ (r.0, false))
  unfolding consume_recovery_code
  consume-refuses-recovery_code env env' name code e hashes rest w read hit no_more =
      ground (arith, get-set_user_recovery_codes env env' name e hashes rest w read)
