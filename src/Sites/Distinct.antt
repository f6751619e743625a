-- ===== src/Sites/Distinct.antt =====
-- No two sites share an internal name, so that no site's network, router or compose project is another's.
use apod.Base.{
  ℕ, ◌≡◌, refl, sym, subst, ◌∙◌, inl, inr, Bool, false, String, List, [], ◌∷◌, ◌++◌, Result, ok,
  Result-cases, nat_eq, string_eq, any, delete_where, update_where, arith, Bool-cases,
  any-delete_where_none,
}
use apod.Base.Effects.{Preserves}
use apod.Base.Rows.{any-append_false}
use apod.Db.{SiteStmt}
use apod.Db.Sites.{
  SiteDb, SiteRow, has_domain, create_site, update_site_status, delete_site, delete_others,
  add_other, remove_site_from_all_networks, delete_site_child_data, add_domain,
}
use apod.Sites.{State, statement, write, try_write}
use apod.Sites.Domains.{internal_id}
use apod.Sites.Creation.{collides}

-- Every site is apart from the later ones; the relation is symmetric.
abbrev pub Distinct : List SiteRow → Type 0
Distinct [] = Unit
Distinct (s ∷ ss) = (any (collides s.domain) ss ≡ false) × Distinct ss

-- No site is another one with the internal name of the domain.
abbrev pub Apart : String → List SiteRow → Type 0
Apart domain sites = (any (collides domain) sites ≡ false) × Distinct sites

collides_sym : (s t : SiteRow) → collides s.domain t ≡ false → collides t.domain s ≡ false
collides_sym s t h = ground (
  arith,
  string_eq.beq_iff t.domain s.domain,
  string_eq.beq_iff s.domain t.domain,
  string_eq.beq_iff (internal_id t.domain) (internal_id s.domain),
  string_eq.beq_iff (internal_id s.domain) (internal_id t.domain),
)

pub Distinct-append :
    (sites : List SiteRow) (r : SiteRow)
    → any (collides r.domain) sites ≡ false
    → Distinct sites
    → Distinct (sites ++ r ∷ [])
unfolding any
Distinct-append [] r h d = ground arith
Distinct-append (s ∷ sites) r h d = (
  any-append_false (collides s.domain) sites r d.0 (collides_sym r s (first h)),
  Distinct-append sites r (later h) d.1,
)
  where
    first : any (collides r.domain) (s ∷ sites) ≡ false → collides r.domain s ≡ false
    first h = ground arith

    later : any (collides r.domain) (s ∷ sites) ≡ false → any (collides r.domain) sites ≡ false
    later h = ground arith

pub Distinct-delete_where :
    (p : SiteRow → Bool) (sites : List SiteRow) → Distinct sites → Distinct (delete_where p sites)
unfolding delete_where
Distinct-delete_where p [] d = d
Distinct-delete_where p (s ∷ sites) d = elim (Bool-cases (p s)) [
  | inl gone ↦ rw gone (Distinct-delete_where p sites d.1)
  | inr stays ↦
      rw stays
        (any-delete_where_none (collides s.domain) p sites d.0, Distinct-delete_where p sites d.1)
]

-- An update that keeps the domain collides with what it collided with.
collides-update_where :
    (domain : String) (p : SiteRow → Bool) (f : SiteRow → SiteRow)
    → ((s : SiteRow) → (f s).domain ≡ s.domain)
    → (sites : List SiteRow)
    → any (collides domain) (update_where p f sites) ≡ any (collides domain) sites
unfolding any update_where
collides-update_where domain p f k [] = refl
collides-update_where domain p f k (s ∷ sites) = elim (Bool-cases (p s)) [
  | inl hit ↦ rw (hit, k s, collides-update_where domain p f k sites) refl
  | inr miss ↦ rw (miss, collides-update_where domain p f k sites) refl
]

pub Distinct-update_where :
    (p : SiteRow → Bool) (f : SiteRow → SiteRow)
    → ((s : SiteRow) → (f s).domain ≡ s.domain)
    → (sites : List SiteRow) → Distinct sites
    → Distinct (update_where p f sites)
unfolding update_where
Distinct-update_where p f k [] d = d
Distinct-update_where p f k (s ∷ sites) d = elim (Bool-cases (p s)) [
  | inl hit ↦
      rw (hit, k s)
        (collides-update_where s.domain p f k sites ∙ d.0, Distinct-update_where p f k sites d.1)
  | inr miss ↦
      rw miss
        (collides-update_where s.domain p f k sites ∙ d.0, Distinct-update_where p f k sites d.1)
]

-- The predicates on the state.
abbrev pub IsDistinct : State → Type 0
IsDistinct s = Distinct s.db.sites

abbrev pub IsApart : String → State → Type 0
IsApart domain s = Apart domain s.db.sites

-- A statement that preserves a predicate of the table of sites.
abbrev pub KeepsRows : (List SiteRow → Type 0) → (SiteDb → Result SiteDb) → Type 0
KeepsRows P w = (d d' : SiteDb) → w d ≡ ok d' → P d.sites → P d'.sites

module _ (P : List SiteRow → Type 0) (w : SiteDb → Result SiteDb) (keep : KeepsRows P w) where
  after-P : (s : State) → P s.db.sites → P (try_write w s).0.db.sites
  after-P s p = elim (Result-cases (w s.db)) [
    | inl (x, e) ↦ rw (e, statement) p
    | inr (d, e) ↦ rw (e, statement) (keep s.db d e p)
  ]

  pub write-Preserves : Preserves (λ (s : State). P s.db.sites) (write w)
  write-Preserves = record { preserved = after-P }

  pub try_write-Preserves : Preserves (λ (s : State). P s.db.sites) (try_write w)
  try_write-Preserves = record { preserved = after-P }

module _ (down : SiteStmt → Bool) (domain : String) where
  pub create_site-Apart :
      (row : SiteRow) → row.domain ≡ domain → KeepsRows (Apart domain) (create_site down row)
  unfolding create_site
  create_site-Apart row e d d' h (a, b) = subst (Apart domain) (sym (added h)) (
    any-append_false (collides domain) d.sites fresh a itself,
    Distinct-append d.sites fresh (subst (λ x. any (collides x) d.sites ≡ false) (sym e) a) b,
  )
    where
      fresh : SiteRow
      fresh = record row { id = d.next_site_id; status = "creating" }

      added : create_site down row d ≡ ok d' → d'.sites ≡ d.sites ++ fresh ∷ []
      added h = ground arith

      itself : collides domain fresh ≡ false
      itself = ground (arith, string_eq.beq_iff row.domain domain)

  pub delete_site-Apart : (other : String) → KeepsRows (Apart domain) (delete_site down other)
  unfolding delete_site
  delete_site-Apart other d d' h (a, b) = subst (Apart domain) (sym (left h)) (
    any-delete_where_none (collides domain) (has_domain other) d.sites a,
    Distinct-delete_where (has_domain other) d.sites b,
  )
    where
      left : delete_site down other d ≡ ok d' → d'.sites ≡ delete_where (has_domain other) d.sites
      left h = ground arith

  pub update_site_status-Apart :
      (other status : String) → KeepsRows (Apart domain) (update_site_status down other status)
  unfolding update_site_status
  update_site_status-Apart other status d d' h (a, b) = subst (Apart domain) (sym (set h)) (
    collides-update_where domain (has_domain other) (λ s. record s { status = status }) (λ s. refl)
          d.sites
        ∙ a,
    Distinct-update_where (has_domain other) (λ s. record s { status = status }) (λ s. refl) d.sites
        b,
  )
    where
      set :
          update_site_status down other status d ≡ ok d'
          → d'.sites ≡ update_where (has_domain other) (λ s. record s { status = status }) d.sites
      set h = ground arith

  -- The statements about other tables.
  module _ (P : List SiteRow → Type 0) where
    pub delete_others-KeepsRows :
        (s : SiteStmt) (kind : String) → KeepsRows P (delete_others down s kind domain)
    unfolding delete_others
    delete_others-KeepsRows s kind d d' h p = subst P (sym (same h)) p
      where
        same : delete_others down s kind domain d ≡ ok d' → d'.sites ≡ d.sites
        same h = ground arith

    pub add_other-KeepsRows :
        (s : SiteStmt) (kind : String) → KeepsRows P (add_other down s kind domain)
    unfolding add_other
    add_other-KeepsRows s kind d d' h p = subst P (sym (same h)) p
      where
        same : add_other down s kind domain d ≡ ok d' → d'.sites ≡ d.sites
        same h = ground arith

    pub leave-KeepsRows : KeepsRows P (remove_site_from_all_networks down domain)
    unfolding remove_site_from_all_networks
    leave-KeepsRows d d' h p = subst P (sym (same h)) p
      where
        same : remove_site_from_all_networks down domain d ≡ ok d' → d'.sites ≡ d.sites
        same h = ground arith

    pub children-KeepsRows : KeepsRows P (delete_site_child_data down domain)
    unfolding delete_site_child_data
    children-KeepsRows d d' h p = subst P (sym (same h)) p
      where
        same : delete_site_child_data down domain d ≡ ok d' → d'.sites ≡ d.sites
        same h = ground arith

    pub add_domain-KeepsRows :
        (id : ℕ) (alias : String) (primary : Bool) → KeepsRows P (add_domain down id alias primary)
    unfolding add_domain
    add_domain-KeepsRows id alias primary d d' h p = subst P (sym (same h)) p
      where
        same : add_domain down id alias primary d ≡ ok d' → d'.sites ≡ d.sites
        same h = ground arith
