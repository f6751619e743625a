-- ===== src/Sites/Frame.antt =====
-- What the operations on a site leave of the other sites, on every path.
use apod.Base.{
  ℕ, ◌≡◌, refl, sym, subst, ◌∙◌, inl, inr, Bool, true, ◌&&◌, String, Result, ok, Result-cases, ◌==◌,
  nat_eq, string_eq, delete_where, arith,
}
use apod.Base.Effects.{M, ◌>>=◌, ◌>>◌, query, attempt, after}
use apod.Base.Rows.{delete_where-append, delete_where-update_where, delete_where-delete_where}
use apod.Db.{SiteStmt}
use apod.Db.Sites.{
  SiteDb, SiteRow, ChildRow, has_domain, is_of, member_domain, create_site, update_site_status,
  delete_site, delete_site_child_data, delete_others, add_other, add_domain,
  remove_site_from_all_networks,
}
use apod.Sites.{State, of_site, statement, write, try_write, SiteEngine, with_lock}
use apod.Process.Locks.{acquire}

-- The rows about other sites are as before, in every table but `domains`.
pub record RowsKept (domain : String) (d d' : SiteDb) : Type 0 where
  pub sites : delete_where (has_domain domain) d'.sites ≡ delete_where (has_domain domain) d.sites
  pub networks : d'.networks ≡ d.networks
  pub members :
      delete_where (member_domain domain) d'.members ≡ delete_where (member_domain domain) d.members
  pub children : delete_where (is_of domain) d'.children ≡ delete_where (is_of domain) d.children
  pub others : delete_where (is_of domain) d'.others ≡ delete_where (is_of domain) d.others

pub record Kept (domain : String) (s s' : State) : Type 0 where
  pub rows : RowsKept domain s.db s'.db
  pub containers :
      delete_where (of_site domain) s'.containers ≡ delete_where (of_site domain) s.containers

pub RowsKept-refl : (domain : String) (d : SiteDb) → RowsKept domain d d
RowsKept-refl domain d = record {
  sites = refl;
  networks = refl;
  members = refl;
  children = refl;
  others = refl;
}

RowsKept-trans :
    (domain : String) (a b c : SiteDb)
    → RowsKept domain a b
    → RowsKept domain b c
    → RowsKept domain a c
RowsKept-trans domain a b c p q = record {
  sites = q.sites ∙ p.sites;
  networks = q.networks ∙ p.networks;
  members = q.members ∙ p.members;
  children = q.children ∙ p.children;
  others = q.others ∙ p.others;
}

-- A call that keeps the other sites, whatever it answers.
pub record Keeps {ℓ} {A : Type ℓ} (domain : String) (m : M State A) : Type 0 where
  pub kept : (s : State) → Kept domain s (m s).0

-- A statement that keeps the other sites.
abbrev pub IsLocal : String → (SiteDb → Result SiteDb) → Type 0
IsLocal domain w = (d d' : SiteDb) → w d ≡ ok d' → RowsKept domain d d'

pub Kept-refl : (domain : String) (s : State) → Kept domain s s
Kept-refl domain s = record { rows = RowsKept-refl domain s.db; containers = refl }

pub Kept-trans :
    (domain : String) (a b c : State) → Kept domain a b → Kept domain b c → Kept domain a c
Kept-trans domain a b c p q = record {
  rows = RowsKept-trans domain a.db b.db c.db p.rows q.rows;
  containers = q.containers ∙ p.containers;
}

module _ (domain : String) where
  -- A call that leaves the state as it is.
  pub same-Keeps {ℓ} : {A : Type ℓ} {m : M State A} → ((s : State) → (m s).0 ≡ s) → Keeps domain m
  same-Keeps e = record { kept = λ s. subst (Kept domain s) (sym (e s)) (Kept-refl domain s) }

  pub query-Keeps {ℓ} : {A : Type ℓ} (r : State → Result A) → Keeps domain (query r)
  query-Keeps r = record { kept = Kept-refl domain }

  pub bind-Keeps {ℓ κ} :
      {A : Type ℓ} {B : Type κ} {m : M State A} {f : A → M State B}
      → Keeps domain m
      → ((a : A) → Keeps domain (f a))
      → Keeps domain (m >>= f)
  bind-Keeps {m = m} {f = f} km kf = record { kept = λ s. go s }
    where
      go : (s : State) → Kept domain s ((m >>= f) s).0
      go s = elim (Result-cases (m s).1) [
        | inl (x, e) ↦ rw (e, ◌>>=◌) (km.kept s)
        | inr (a, e) ↦
            rw (e, ◌>>=◌)
              (Kept-trans domain s (m s).0 (f a (m s).0).0 (km.kept s) ((kf a).kept (m s).0))
      ]

  pub then-Keeps {ℓ} :
      {B : Type ℓ} {m : M State (Unit {0})} {k : M State B}
      → Keeps domain m
      → Keeps domain k
      → Keeps domain (m >> k)
  then-Keeps km kk = bind-Keeps km (λ u. kk)

  pub attempt-Keeps {ℓ} : {A : Type ℓ} {m : M State A} → Keeps domain m → Keeps domain (attempt m)
  attempt-Keeps k = record { kept = k.kept }

  after-Kept :
      (w : SiteDb → Result SiteDb)
      → IsLocal domain w
      → (s : State) → Kept domain s (after s (statement w s))
  after-Kept w l s = elim (Result-cases (w s.db)) [
    | inl (x, e) ↦ rw (e, statement) (Kept-refl domain s)
    | inr (d, e) ↦ rw (e, statement) (record { rows = l s.db d e; containers = refl })
  ]

  pub write-Keeps : (w : SiteDb → Result SiteDb) → IsLocal domain w → Keeps domain (write w)
  write-Keeps w l = record { kept = after-Kept w l }

  pub try_write-Keeps : (w : SiteDb → Result SiteDb) → IsLocal domain w → Keeps domain (try_write w)
  try_write-Keeps w l = record { kept = after-Kept w l }

  pub with_lock-Kept :
      {A : Type 0} (now : ℕ) (operation : String) (body : M State A) (e : SiteEngine)
      → Keeps domain body
      → Kept domain e.state (with_lock now domain operation body e).0.state
  unfolding with_lock
  with_lock-Kept now operation body e k =
      elim (Result-cases (acquire domain operation now e.locks).1) [
        | inl (x, r) ↦ rw (r, with_lock) (Kept-refl domain e.state)
        | inr (u, r) ↦ rw (r, with_lock) (k.kept e.state)
      ]

module _ (down : SiteStmt → Bool) (domain : String) where
  domain_eq : (domain == domain) ≡ true
  domain_eq = (string_eq.beq_iff domain domain).1 refl

  pub create_site-IsLocal :
      (row : SiteRow) → row.domain ≡ domain → IsLocal domain (create_site down row)
  unfolding create_site
  create_site-IsLocal row e d d' h = ground (
    arith,
    delete_where-append (has_domain domain) d.sites
        (record row { id = d.next_site_id; status = "creating" })
        ((string_eq.beq_iff row.domain domain).1 e),
  )

  pub update_site_status-IsLocal :
      (status : String) → IsLocal domain (update_site_status down domain status)
  unfolding update_site_status
  update_site_status-IsLocal status d d' h = ground (
    arith,
    delete_where-update_where (has_domain domain) (λ s. record s { status = status }) d.sites
        (λ x e. e),
  )

  pub delete_site-IsLocal : IsLocal domain (delete_site down domain)
  unfolding delete_site
  delete_site-IsLocal d d' h =
      ground (
        arith,
        delete_where-delete_where (has_domain domain) (has_domain domain) d.sites (λ x e. e),
      )

  pub delete_site_child_data-IsLocal : IsLocal domain (delete_site_child_data down domain)
  unfolding delete_site_child_data
  delete_site_child_data-IsLocal d d' h =
      ground (arith, delete_where-delete_where (is_of domain) (is_of domain) d.children (λ x e. e))

  pub delete_others-IsLocal :
      (s : SiteStmt) (kind : String) → IsLocal domain (delete_others down s kind domain)
  unfolding delete_others
  delete_others-IsLocal s kind d d' h = ground (
    arith,
    delete_where-delete_where (is_of domain) (λ r. r.kind == kind && is_of domain r) d.others
        (λ r e. both r e),
  )
    where
      both : (r : ChildRow) → (r.kind == kind && is_of domain r) ≡ true → is_of domain r ≡ true
      both r e = ground arith

  pub add_other-IsLocal :
      (s : SiteStmt) (kind : String) → IsLocal domain (add_other down s kind domain)
  unfolding add_other
  add_other-IsLocal s kind d d' h = ground (
    arith,
    delete_where-append (is_of domain) d.others (record { kind = kind; site_domain = domain })
        domain_eq,
  )

  pub remove_site_from_all_networks-IsLocal :
      IsLocal domain (remove_site_from_all_networks down domain)
  unfolding remove_site_from_all_networks
  remove_site_from_all_networks-IsLocal d d' h = ground (
    arith,
    delete_where-delete_where (member_domain domain) (member_domain domain) d.members (λ x e. e),
  )

  pub add_domain-IsLocal :
      (site_id : ℕ) (alias : String) (is_primary : Bool)
      → IsLocal domain (add_domain down site_id alias is_primary)
  unfolding add_domain
  add_domain-IsLocal site_id alias is_primary d d' h = ground arith

  pub IsLocal-ok : IsLocal domain (λ d. ok d)
  IsLocal-ok d d' h = ground arith
