-- ===== src/Access/Scope/Classes.antt =====
-- What the policy of a route says, stated without the code.
use apod.Base.{
  ◌≡◌, ◌↔◌, ◌⊎◌, inl, inr, sym, subst, true, false, String, List, [], ◌∷◌, ◌==◌, nat_eq, string_eq,
  arith, Bool-cases,
}
use apod.Auth.Tokens.{contains}
use apod.Access.Scope.{deploy_actions, sensitive_leaf, no_policy, classify}

-- A route that mints credentials or changes how a user authenticates.
abbrev pub Mints : String → List String → Type 0
Mints method [] = ⊥
Mints method (s ∷ []) = s ≡ "tokens"
Mints method (s ∷ a ∷ []) =
    (s ≡ "tokens") ⊎ (((s ≡ "auth") × (a ≡ "2fa")) ⊎ ((s ≡ "users") × (method ≡ "DELETE")))
Mints method (s ∷ a ∷ b ∷ rest) =
    (s ≡ "tokens")
    ⊎ (((s ≡ "auth") × (a ≡ "2fa"))
        ⊎ ((s ≡ "users") × ((b ≡ "password") ⊎ ((b ≡ "reset-key") ⊎ (b ≡ "permissions")))))

-- An action on a site.
abbrev pub ActsOnSite : List String → List String → Type 0
ActsOnSite actions (s ∷ d ∷ a ∷ rest) = (s ≡ "sites") × (contains a actions ≡ true)
ActsOnSite actions _ = ⊥

-- A route that can reveal a secret: an action on a site, or the execution in a terminal.
abbrev pub Reveals : List String → Type 0
Reveals [] = ⊥
Reveals (s ∷ rest) = (s ≡ "terminal") ⊎ ActsOnSite sensitive_leaf (s ∷ rest)

-- A first segment that the switch does not know.
record IsOther (s : String) : Type 0 where
  not_tokens : (s == "tokens") ≡ false
  not_auth : (s == "auth") ≡ false
  not_users : (s == "users") ≡ false
  not_terminal : (s == "terminal") ≡ false
  not_sites : (s == "sites") ≡ false

-- To prove something of every first segment: the cases of the switch.
module _ (P : String → Type 0) (on_tokens : P "tokens") (on_auth : P "auth") (on_users : P "users")
    (on_terminal : P "terminal") (on_sites : P "sites")
    (on_other : (s : String) → IsOther s → P s) where
  first_segment : (s : String) → P s
  first_segment s = elim (Bool-cases (s == "tokens")) [
    | inl e ↦ subst P (sym ((string_eq.beq_iff s "tokens").0 e)) on_tokens
    | inr t ↦ elim (Bool-cases (s == "auth")) [
      | inl e ↦ subst P (sym ((string_eq.beq_iff s "auth").0 e)) on_auth
      | inr a ↦ elim (Bool-cases (s == "users")) [
        | inl e ↦ subst P (sym ((string_eq.beq_iff s "users").0 e)) on_users
        | inr u ↦ elim (Bool-cases (s == "terminal")) [
          | inl e ↦ subst P (sym ((string_eq.beq_iff s "terminal").0 e)) on_terminal
          | inr x ↦ elim (Bool-cases (s == "sites")) [
            | inl e ↦ subst P (sym ((string_eq.beq_iff s "sites").0 e)) on_sites
            | inr o ↦ on_other s (record {
              not_tokens = t;
              not_auth = a;
              not_users = u;
              not_terminal = x;
              not_sites = o;
            })
          ]
        ]
      ]
    ]
  ]

classify_other :
    (method s : String) (rest : List String) → IsOther s → classify method (s ∷ rest) ≡ no_policy
unfolding classify
classify_other method s rest o =
    rw (o.not_tokens, o.not_auth, o.not_users, o.not_terminal, o.not_sites)

abbrev ManagementIff : String → List String → String → Type 0
ManagementIff method rest s =
    ((classify method (s ∷ rest)).management ≡ true) ↔ Mints method (s ∷ rest)

-- No segment is two of the words.
ne_words :
    (s : String)
    → (s ≡ "tokens" → (s == "tokens") ≡ true)
      × (s ≡ "auth" → (s == "auth") ≡ true)
      × (s ≡ "users" → (s == "users") ≡ true)
      × (s ≡ "terminal" → (s == "terminal") ≡ true)
      × (s ≡ "sites" → (s == "sites") ≡ true)
ne_words s = (
  (string_eq.beq_iff s "tokens").1,
  (string_eq.beq_iff s "auth").1,
  (string_eq.beq_iff s "users").1,
  (string_eq.beq_iff s "terminal").1,
  (string_eq.beq_iff s "sites").1,
)

management_other :
    (method s : String) (rest : List String) → IsOther s → ManagementIff method rest s
management_other method s [] o = rw (classify_other method s [] o) (ground (arith, ne_words s))
management_other method s (a ∷ []) o =
    rw (classify_other method s (a ∷ []) o) (ground (arith, ne_words s))
management_other method s (a ∷ b ∷ rest) o =
    rw (classify_other method s (a ∷ b ∷ rest) o) (ground (arith, ne_words s))

management_iff : (method : String) (rest : List String) (s : String) → ManagementIff method rest s
unfolding classify
management_iff method [] =
    first_segment (ManagementIff method []) (ground arith) (ground (arith, ne_words "auth"))
      (ground (arith, ne_words "users")) (ground (arith, ne_words "terminal"))
      (ground (arith, ne_words "sites")) (λ s. management_other method s [])
management_iff method (a ∷ []) =
    first_segment (ManagementIff method (a ∷ [])) (ground arith)
      (ground (arith, ne_words "auth", string_eq.beq_iff a "2fa"))
      (ground (arith, ne_words "users", string_eq.beq_iff method "DELETE"))
      (ground (arith, ne_words "terminal")) (ground (arith, ne_words "sites"))
      (λ s. management_other method s (a ∷ []))
management_iff method (a ∷ b ∷ rest) =
    first_segment (ManagementIff method (a ∷ b ∷ rest)) (ground arith)
      (ground (arith, ne_words "auth", string_eq.beq_iff a "2fa"))
      (ground (
        arith,
        ne_words "users",
        string_eq.beq_iff b "password",
        string_eq.beq_iff b "reset-key",
        string_eq.beq_iff b "permissions",
      ))
      (ground (arith, ne_words "terminal")) (ground (arith, ne_words "sites"))
      (λ s. management_other method s (a ∷ b ∷ rest))

abbrev DeployIff : String → List String → String → Type 0
DeployIff method rest s =
    ((classify method (s ∷ rest)).deploy ≡ true) ↔ ActsOnSite deploy_actions (s ∷ rest)

deploy_other : (method s : String) (rest : List String) → IsOther s → DeployIff method rest s
deploy_other method s [] o = rw (classify_other method s [] o) (ground (arith, ne_words s))
deploy_other method s (a ∷ []) o =
    rw (classify_other method s (a ∷ []) o) (ground (arith, ne_words s))
deploy_other method s (a ∷ b ∷ rest) o =
    rw (classify_other method s (a ∷ b ∷ rest) o) (ground (arith, ne_words s))

deploy_iff : (method : String) (rest : List String) (s : String) → DeployIff method rest s
unfolding classify
deploy_iff method [] =
    first_segment (DeployIff method []) (ground arith) (ground arith) (ground arith) (ground arith)
      (ground arith) (λ s. deploy_other method s [])
deploy_iff method (a ∷ []) =
    first_segment (DeployIff method (a ∷ [])) (ground arith) (ground arith) (ground arith)
      (ground arith) (ground arith) (λ s. deploy_other method s (a ∷ []))
deploy_iff method (a ∷ b ∷ rest) =
    first_segment (DeployIff method (a ∷ b ∷ rest)) (ground (arith, ne_words "tokens"))
      (ground (arith, ne_words "auth")) (ground (arith, ne_words "users"))
      (ground (arith, ne_words "terminal")) (ground arith)
      (λ s. deploy_other method s (a ∷ b ∷ rest))

abbrev SensitiveIff : String → List String → String → Type 0
SensitiveIff method rest s = ((classify method (s ∷ rest)).sensitive ≡ true) ↔ Reveals (s ∷ rest)

sensitive_other : (method s : String) (rest : List String) → IsOther s → SensitiveIff method rest s
sensitive_other method s [] o = rw (classify_other method s [] o) (ground (arith, ne_words s))
sensitive_other method s (a ∷ []) o =
    rw (classify_other method s (a ∷ []) o) (ground (arith, ne_words s))
sensitive_other method s (a ∷ b ∷ rest) o =
    rw (classify_other method s (a ∷ b ∷ rest) o) (ground (arith, ne_words s))

sensitive_iff : (method : String) (rest : List String) (s : String) → SensitiveIff method rest s
unfolding classify
sensitive_iff method [] =
    first_segment (SensitiveIff method []) (ground (arith, ne_words "tokens"))
      (ground (arith, ne_words "auth")) (ground (arith, ne_words "users")) (ground arith)
      (ground (arith, ne_words "sites")) (λ s. sensitive_other method s [])
sensitive_iff method (a ∷ []) =
    first_segment (SensitiveIff method (a ∷ [])) (ground (arith, ne_words "tokens"))
      (ground (arith, ne_words "auth")) (ground (arith, ne_words "users")) (ground arith)
      (ground (arith, ne_words "sites")) (λ s. sensitive_other method s (a ∷ []))
sensitive_iff method (a ∷ b ∷ rest) =
    first_segment (SensitiveIff method (a ∷ b ∷ rest)) (ground (arith, ne_words "tokens"))
      (ground (arith, ne_words "auth")) (ground (arith, ne_words "users")) (ground arith)
      (ground (arith, ne_words "sites")) (λ s. sensitive_other method s (a ∷ b ∷ rest))

-- The three flags of a policy, for any list of segments.
pub classify_meaning :
    (method : String) (segs : List String)
    → (((classify method segs).management ≡ true) ↔ Mints method segs)
      × (((classify method segs).deploy ≡ true) ↔ ActsOnSite deploy_actions segs)
      × (((classify method segs).sensitive ≡ true) ↔ Reveals segs)
unfolding classify
classify_meaning method [] = (ground arith, ground arith, ground arith)
classify_meaning method (s ∷ rest) =
    (management_iff method rest s, deploy_iff method rest s, sensitive_iff method rest s)
