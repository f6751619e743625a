-- ===== src/Access/Scope/Policy.antt =====
-- Which requests a scoped token can make.
use apod.Base.{
  ◌≡◌, ◌↔◌, ◌⊎◌, inl, inr, refl, Bool, true, false, not, ◌&&◌, ◌||◌, String, Option, none, some,
  List, arith, Bool-cases,
}
use apod.Auth.Tokens.{TokenInfo, has_ability}
use apod.Access.{Context, Outcome, respond, pass}
use apod.Access.Scope.{
  deploy_actions, PatPolicy, classify, segments, is_read, decide_scope, ability_middleware,
}
use apod.Access.Scope.Classes.{Mints, ActsOnSite, Reveals, classify_meaning}

-- What a request needs of a token.
pub record Permits (info : TokenInfo) (method : String) (segs : List String) : Type 0 where
  pub no_minting : ¬ (Mints method segs)
  pub reading : is_read method ≡ true → has_ability info "read" ≡ true
  pub writing :
      is_read method ≡ false
      → (has_ability info "write" ≡ true)
        ⊎ (ActsOnSite deploy_actions segs × (has_ability info "deploy" ≡ true))
  pub secrets : Reveals segs → info.sensitive ≡ true

-- The request passes with its context and the token permits it, or it is answered with 403 and the
-- token does not.
abbrev pub ScopeDecision : TokenInfo → String → List String → Context → Outcome → Type 0
ScopeDecision info method segs ctx o =
    (Permits info method segs × (o ≡ pass ctx))
    ⊎ ((¬ (Permits info method segs)) × (o ≡ respond 403))

decide_scope-decides :
    (info : TokenInfo) (method : String) (segs : List String) (p : PatPolicy) (ctx : Context)
    → ((p.management ≡ true) ↔ Mints method segs)
    → ((p.deploy ≡ true) ↔ ActsOnSite deploy_actions segs)
    → ((p.sensitive ≡ true) ↔ Reveals segs)
    → ScopeDecision info method segs ctx (decide_scope info method p ctx)
unfolding decide_scope
decide_scope-decides info method segs p ctx m d r = elim (Bool-cases p.management) [
  | inl e ↦ inr (λ q. q.no_minting (m.0 e), ground arith)
  | inr e ↦ elim (Bool-cases (is_read method && not (has_ability info "read"))) [
    | inl e2 ↦ inr (λ q. absurd (unread q.reading e2), rw (e, e2) refl)
    | inr e2 ↦
        elim (Bool-cases (
          not (is_read method)
          && not (has_ability info "write" || (p.deploy && has_ability info "deploy")))) [
            | inl e3 ↦ inr (λ q. absurd (unwritten (λ a. d.1 a) q.writing e3), rw (e, e2, e3) refl)
            | inr e3 ↦ elim (Bool-cases (p.sensitive && not info.sensitive)) [
              | inl e4 ↦
                  inr (λ q. absurd (hidden (λ v. q.secrets (r.0 v)) e4), rw (e, e2, e3, e4) refl)
              | inr e4 ↦ inl (
                record {
                  no_minting = λ mint. absurd (clash e (m.1 mint));
                  reading = λ h. read_of h e2;
                  writing = λ h. written_of d.0 h e3;
                  secrets = λ v. shown (r.1 v) e4;
                },
                rw (e, e2, e3, e4) refl,
              )
            ]
          ]
  ]
]
  where
    clash : {b : Bool} → b ≡ false → b ≡ true → ⊥
    clash e h = ground arith

    unread : {a b : Bool} → (a ≡ true → b ≡ true) → (a && not b) ≡ true → ⊥
    unread h e = ground arith

    unwritten :
        {D : Type 0} {a w p' q : Bool}
        → (D → p' ≡ true)
        → (a ≡ false → (w ≡ true) ⊎ (D × (q ≡ true)))
        → (not a && not (w || (p' && q))) ≡ true
        → ⊥
    unwritten h k e = ground arith

    hidden : {a b : Bool} → (a ≡ true → b ≡ true) → (a && not b) ≡ true → ⊥
    hidden h e = ground arith

    read_of : {a b : Bool} → a ≡ true → (a && not b) ≡ false → b ≡ true
    read_of h e = ground arith

    written_of :
        {D : Type 0} {a w p' q : Bool}
        → (p' ≡ true → D)
        → a ≡ false
        → (not a && not (w || (p' && q))) ≡ false
        → (w ≡ true) ⊎ (D × (q ≡ true))
    written_of h k e = ground arith

    shown : {a b : Bool} → a ≡ true → (a && not b) ≡ false → b ≡ true
    shown h e = ground arith

-- Behind the middleware, a request that comes with a scoped token passes with its context unchanged
-- when the token permits it: no minting of credentials, the reading ability for GET and HEAD, the
-- writing ability for any other method or the deploying ability for a deploying action on a site, and
-- the sensitive flag for a route that can reveal a secret. Every other request is answered with 403.
pub ability_middleware-decides :
    (method path : String) (ctx : Context) (info : TokenInfo)
    → ctx.token ≡ some info
    → ScopeDecision info method (segments path) ctx (ability_middleware method path ctx)
unfolding ability_middleware
ability_middleware-decides method path ctx info h = go ctx.token h
  where
    go :
        (t : Option TokenInfo)
        → t ≡ some info
        → ScopeDecision info method (segments path) ctx (elim t [
          | none ↦ pass ctx
          | some i ↦ decide_scope i method (classify method (segments path)) ctx
        ])
    go t e =
        let (m, d, r) = classify_meaning method (segments path) in
        rw e (
          decide_scope-decides info method (segments path) (classify method (segments path)) ctx m d
            r)
