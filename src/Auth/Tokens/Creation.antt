-- ===== src/Auth/Tokens/Creation.antt =====
-- A scoped token from its creation on.
use apod.Base.{
  ℕ, ◌+◌, ◌*◌, ◌≤◌, ◌<◌, ◌≡◌, ◌≢◌, inl, inr, refl, sym, subst, ◌∙◌, Bool, true, false, ◌&&◌, String,
  Option, none, some, List, [], ◌∷◌, ◌++◌, Result, ok, err, Error, Result-cases, nat_eq, string_eq,
  find, any, arith, Option-cases, has_prefix, join, ◌<>◌, hex_encode, has_prefix-append,
  find-none_of_any, find-append_none,
}
use apod.Db.{Env, Db, Stmt, ApiToken}
use apod.Db.Users.{User, get_user_by_name}
use apod.Db.Users.Updates.{
  profile, get_user_by_name_of_profile, profile_of_get_user_by_name, get_user_by_name-name,
}
use apod.Db.Tokens.{has_hash, is_expired, if_live, create_api_token, get_api_token_by_hash}
use apod.Auth.{Crypto, Engine, log_activity}
use apod.Auth.Tokens.{
  api_token_prefix, valid_abilities, contains, TokenInfo, has_ability, all_valid, kept, day, expiry,
  info_of, create_token, validate_token,
}
use apod.Auth.Tokens.Abilities.{split-join-kept, contains-kept, contains_of_all_valid}

found_expired :
    (now : ℕ) (k : String) (row : ApiToken)
    → has_hash k row ≡ true
    → is_expired now row ≡ true
    → ◌≡◌ {A = Result (Option ApiToken)} (ok (if_live now (find (has_hash k) (row ∷ [])))) (ok none)
unfolding find
found_expired now k row h x = ground arith

found_live :
    (now : ℕ) (k : String) (row : ApiToken)
    → has_hash k row ≡ true
    → is_expired now row ≡ false
    → ◌≡◌ {A = Result (Option ApiToken)}
        (ok (if_live now (find (has_hash k) (row ∷ []))))
        (ok (some row))
unfolding find
found_live now k row h x = ground arith

module _ (c : Crypto) (env : Env) (user_name name : String) (asked : List String) (sensitive : Bool)
    (ttl_days : ℕ) where
  -- The row of a new token.
  abbrev row_for : ℕ → String → ApiToken
  row_for id raw = record {
    id = id;
    user_name = user_name;
    name = name;
    token_hash = c.sha256_hex raw;
    abilities = join (kept valid_abilities asked) ",";
    sensitive = sensitive;
    expires_at = expiry env.now ttl_days;
  }

  not_expired :
      (env' : Env) (id : ℕ) (raw : String)
      → ttl_days ≤ 106751
      → (ttl_days ≢ 0 → env'.now ≤ env.now + ttl_days * day)
      → is_expired env'.now (row_for id raw) ≡ false
  not_expired env' id raw fits live = ground arith

  -- What a creation that succeeds has checked, and the row that it leaves.
  record Created (raw : String) (e e' : Engine) : Type 0 where
    bytes : List ℕ
    prefixed : raw ≡ api_token_prefix <> hex_encode bytes
    valid : all_valid asked ≡ true
    user : User
    found : get_user_by_name env user_name e.db ≡ ok user
    unused : any (has_hash (c.sha256_hex raw)) e.db.api_tokens ≡ false
    rows : e'.db.api_tokens ≡ e.db.api_tokens ++ row_for e.db.next_token_id raw ∷ []
    users : e'.db.users ≡ e.db.users

  create_api_token-frame :
      (hash abilities : String) (x : Option ℕ) (d d' : Db)
      → create_api_token env user_name name hash abilities sensitive x d ≡ ok d'
      → (any (has_hash hash) d.api_tokens ≡ false)
        × (d'.api_tokens
            ≡ d.api_tokens
              ++ record {
                id = d.next_token_id;
                user_name = user_name;
                name = name;
                token_hash = hash;
                abilities = abilities;
                sensitive = sensitive;
                expires_at = x;
              }
                ∷ [])
        × (d'.users ≡ d.users)
  unfolding create_api_token
  create_api_token-frame hash abilities x d d' h = (ground arith, ground arith, ground arith)

  create_token_creates :
      (raw : String) (e : Engine)
      → (create_token c env user_name name asked sensitive ttl_days e).1 ≡ ok raw
      → Created raw e (create_token c env user_name name asked sensitive ttl_days e).0
  unfolding create_token log_activity
  create_token_creates raw e h = elim (Result-cases (get_user_by_name env user_name e.db)) [
    | inl (x, n) ↦ absurd (no_user x n)
    | inr (user, found) ↦ elim (Option-cases (env.rand 0)) [
      | inl n ↦ absurd (no_bytes user found n)
      | inr (bytes, b) ↦
          let fresh = api_token_prefix <> hex_encode bytes in
          let list = join (kept valid_abilities asked) "," in
          let result =
            create_api_token env user_name name (c.sha256_hex fresh) list sensitive
              (expiry env.now ttl_days) e.db in
          elim (Result-cases result) [
            | inl (x, n) ↦ absurd (not_created user found bytes b x n)
            | inr (d', made) ↦
                let (unused, rows, users) =
                  create_api_token-frame (c.sha256_hex fresh) list (expiry env.now ttl_days) e.db d'
                    made in
                let tok : raw ≡ fresh = ground arith in
                record {
                  bytes = bytes;
                  prefixed = tok;
                  valid = ground arith;
                  user = user;
                  found = found;
                  unused =
                      subst (λ t. any (has_hash (c.sha256_hex t)) e.db.api_tokens ≡ false) (sym tok)
                        unused;
                  rows = ground (arith, rows, tok);
                  users = ground (arith, users);
                }
          ]
    ]
  ]
    where
      no_user : (x : Error) → get_user_by_name env user_name e.db ≡ err x → ⊥
      no_user x n = ground arith

      no_bytes : (u : User) → get_user_by_name env user_name e.db ≡ ok u → env.rand 0 ≡ none → ⊥
      no_bytes u f n = ground arith

      not_created :
          (u : User)
          → get_user_by_name env user_name e.db ≡ ok u
          → (bytes : List ℕ) → env.rand 0 ≡ some bytes
          → (x : Error)
          → create_api_token env user_name name
              (c.sha256_hex (api_token_prefix <> hex_encode bytes))
              (join (kept valid_abilities asked) ",")
              sensitive
              (expiry env.now ttl_days)
              e.db
            ≡ err x
          → ⊥
      not_created u f bytes b x n = ground arith

  module _ (env' : Env) (raw : String) (e e' : Engine) (o : Created raw e e') where
    -- A token that never expires, or not before now, is read back.
    token_of_Created :
        env'.down Stmt.get_api_token_by_hash ≡ false
        → ttl_days ≤ 106751
        → (ttl_days ≢ 0 → env'.now ≤ env.now + ttl_days * day)
        → get_api_token_by_hash env' (c.sha256_hex raw) e'.db
          ≡ ok (some (row_for e.db.next_token_id raw))
    unfolding get_api_token_by_hash
    token_of_Created w fits live =
        let hash = c.sha256_hex raw in
        let row = row_for e.db.next_token_id raw in
        let skip =
          find-append_none (has_hash hash) e.db.api_tokens (row ∷ [])
            (find-none_of_any (has_hash hash) e.db.api_tokens o.unused) in
        rw (w, o.rows, skip)
          (found_live env'.now hash row ((string_eq.beq_iff hash hash).1 refl)
            (not_expired env' e.db.next_token_id raw fits live))

    -- The token's grants are exactly those asked for, and it speaks for the user it was created for.
    -- Nothing but the two queries can fail.
    validate_of_Created :
        env'.down Stmt.get_api_token_by_hash ≡ false
        → env'.down Stmt.get_user_by_name ≡ false
        → ttl_days ≤ 106751
        → (ttl_days ≢ 0 → env'.now ≤ env.now + ttl_days * day)
        → validate_token c env' raw e'
          ≡ (e', ok (some (o.user, info_of (row_for e.db.next_token_id raw))))
    unfolding validate_token
    validate_of_Created w1 w2 fits live = ground (
      arith,
      subst (λ t. has_prefix t api_token_prefix ≡ true) (sym o.prefixed)
          (has_prefix-append api_token_prefix (hex_encode o.bytes)),
      token_of_Created w1 fits live,
      get_user_by_name_of_profile env' user_name e'.db o.user w2 (
          subst (λ rows. profile user_name rows ≡ some o.user) (sym o.users)
            (profile_of_get_user_by_name env user_name e.db o.user o.found)),
    )

    info-has_ability :
        (a : String) → has_ability (info_of (row_for e.db.next_token_id raw)) a ≡ contains a asked
    unfolding has_ability
    info-has_ability a =
        rw (split-join-kept asked)
          (contains-kept a asked valid_abilities ∙ both a (contains_of_all_valid a asked o.valid))
      where
        both :
            (b : String)
            → (contains b asked ≡ true → contains b valid_abilities ≡ true)
            → (contains b valid_abilities && contains b asked) ≡ contains b asked
        both b h = ground arith

  -- A token that a creation returned is, until it expires, answered with the user it was created for,
  -- with exactly the abilities that were asked for and the sensitive flag that was asked for, if the two
  -- queries run and its lifetime is at most 106751 days, the longest one that 64 bits of nanoseconds hold.
  pub validate-create_token :
      (env' : Env) (raw : String) (e : Engine)
      → (create_token c env user_name name asked sensitive ttl_days e).1 ≡ ok raw
      → env'.down Stmt.get_api_token_by_hash ≡ false
      → env'.down Stmt.get_user_by_name ≡ false
      → ttl_days ≤ 106751
      → (ttl_days ≢ 0 → env'.now ≤ env.now + ttl_days * day)
      → let e' = (create_token c env user_name name asked sensitive ttl_days e).0 in
        (user : User) × (info : TokenInfo) × (validate_token c env' raw e'
          ≡ (e', ok (some (user, info))))
        × (user.name ≡ user_name)
        × (info.sensitive ≡ sensitive)
        × ((a : String) → has_ability info a ≡ contains a asked)
  validate-create_token env' raw e h w1 w2 fits live =
      let e' : Engine = (create_token c env user_name name asked sensitive ttl_days e).0 in
      let o = create_token_creates raw e h in
      let (_, _, _, named) = get_user_by_name-name env user_name e.db o.user o.found in
      (
        o.user,
        info_of (row_for e.db.next_token_id raw),
        validate_of_Created env' raw e e' o w1 w2 fits live,
        named,
        refl,
        info-has_ability env' raw e e' o,
      )

  wrapped :
      (env' : Env) (id : ℕ) (raw : String)
      → 106752 ≤ ttl_days
      → ttl_days ≤ 213503
      → 0 < env.now
      → env.now ≤ env'.now
      → is_expired env'.now (row_for id raw) ≡ true
  wrapped env' id raw low high set later = ground arith

  -- A token with a lifetime of 106752 to 213503 days is created, and answered with nobody from then on: the
  -- lifetime in nanoseconds wraps around to a negative one, so that the token has expired before it is made.
  pub create_token-wrapped :
      (env' : Env) (raw : String) (e : Engine)
      → (create_token c env user_name name asked sensitive ttl_days e).1 ≡ ok raw
      → env'.down Stmt.get_api_token_by_hash ≡ false
      → 106752 ≤ ttl_days
      → ttl_days ≤ 213503
      → 0 < env.now
      → env.now ≤ env'.now
      → let e' = (create_token c env user_name name asked sensitive ttl_days e).0 in
        validate_token c env' raw e' ≡ (e', ok none)
  unfolding validate_token get_api_token_by_hash
  create_token-wrapped env' raw e h w low high set later =
      let e' : Engine = (create_token c env user_name name asked sensitive ttl_days e).0 in
      let o = create_token_creates raw e h in
      let hash = c.sha256_hex raw in
      let row = row_for e.db.next_token_id raw in
      let skip =
        find-append_none (has_hash hash) e.db.api_tokens (row ∷ [])
          (find-none_of_any (has_hash hash) e.db.api_tokens o.unused) in
      let gone : get_api_token_by_hash env' hash e'.db ≡ ok none =
        rw (w, o.rows, skip)
          (found_expired env'.now hash row ((string_eq.beq_iff hash hash).1 refl)
            (wrapped env' e.db.next_token_id raw low high set later)) in
      ground (
        arith,
        subst (λ t. has_prefix t api_token_prefix ≡ true) (sym o.prefixed)
            (has_prefix-append api_token_prefix (hex_encode o.bytes)),
        gone,
      )
