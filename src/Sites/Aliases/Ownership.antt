-- ===== src/Sites/Aliases/Ownership.antt =====
-- An alias belongs to one site, and only that site gives it up.
use apod.Base.{
  ℕ, ◌≡◌, refl, sym, ap, subst, ◌∙◌, Bool, false, String, some, [], ◌∷◌, ◌++◌, Result, ok, err,
  Error, ◌==◌, nat_eq, string_eq, find, any, arith, wrapping,
}
use apod.Base.Effects.{M, ◌>>=◌, ◌>>◌, query, attempt, bind-ok}
use apod.Db.Sites.{SiteDb, SiteRow, DomainRow, has_domain, get_site, get_site_by_domain, add_domain}
use apod.Sites.{World, State, write, read, SiteEngine, with_lock}
use apod.Sites.Domains.{validate_domain}
use apod.Sites.Locking.{with_lock-ok}
use apod.Sites.Aliases.{apply_alias_routing, refuse_used, route_alias, add_alias_locked, add_alias}

abbrev pub routes : String → DomainRow → Bool
routes alias r = r.domain == alias

abbrev pub of_id : ℕ → DomainRow → Bool
of_id id r = r.site_id == id

module _ (world : World) (domain alias : String) where
  abbrev pub row : SiteRow → DomainRow
  row site = record { site_id = site.id; domain = alias; is_primary = false }

  -- The rows of `domains` before and after an alias is added.
  pub record Added (s s' : State) : Type 0 where
    pub site : SiteRow
    pub found : find (has_domain domain) s.db.sites ≡ some site
    pub free : any (routes alias) s.db.domains ≡ false
    pub domains :
        s'.db.domains
        ≡ s.db.domains ++ record { site_id = site.id; domain = alias; is_primary = false } ∷ []

  -- What the insertion answers and does.
  pub added :
      (site : SiteRow) (s : State)
      → (write (add_domain world.down site.id alias false) s).1 ≡ ok tt
      → (any (routes alias) s.db.domains ≡ false)
        × ((write (add_domain world.down site.id alias false) s).0.db.domains
            ≡ s.db.domains ++ row site ∷ [])
  unfolding add_domain
  added site s h = ground arith

  pub not_added :
      (site : SiteRow) (s : State) (x : Error)
      → (write (add_domain world.down site.id alias false) s).1 ≡ err x
      → (write (add_domain world.down site.id alias false) s).0.db.domains ≡ s.db.domains
  unfolding add_domain
  not_added site s x h = ground arith

  -- The steps of an addition after the site is known.
  abbrev pub finish : SiteRow → M State (Unit {0})
  finish site = attempt (apply_alias_routing world site) >>= route_alias world site alias

  abbrev pub insert : SiteRow → M State (Unit {0})
  insert site =
      attempt (write (add_domain world.down site.id alias false))
      >>= (λ added. query (λ s. wrapping "add domain: %w" added) >> finish site)

  abbrev pub rest : SiteRow → M State (Unit {0})
  rest site =
      attempt (read (get_site_by_domain world.down alias))
      >>= (λ existing. query (λ s. refuse_used existing) >> insert site)

  pub apply_alias_routing-state :
      (site : SiteRow) (s : State) → (apply_alias_routing world site s).0 ≡ s
  unfolding apply_alias_routing
  apply_alias_routing-state site s = ground arith

  route_alias-ok :
      (site : SiteRow) (r : Result (Unit {0})) (s : State)
      → (route_alias world site alias r s).1 ≡ ok tt
      → (route_alias world site alias r s).0 ≡ s
  unfolding route_alias
  route_alias-ok site (ok u) s h = refl
  route_alias-ok site (err x) s h = ground arith

  pub wrapping-ok :
      {A : Type 0} (msg : String) (r : Result A) (a : A) → wrapping msg r ≡ ok a → r ≡ ok a
  wrapping-ok msg (ok b) a h = cc
  wrapping-ok msg (err x) a h = ground arith

  get_site-ok :
      (d : SiteDb) (r : SiteRow)
      → get_site world.down domain d ≡ ok r
      → find (has_domain domain) d.sites ≡ some r
  unfolding get_site
  get_site-ok d r h = ground arith

  abbrev pub look : M State SiteRow
  look = query (λ s. wrapping "get site: %w" (get_site world.down domain s.db))

  abbrev pub unused : M State (Unit {0})
  unused = query (λ s. refuse_used (get_site_by_domain world.down alias s.db))

  insert-Added :
      (site : SiteRow) (s : State)
      → find (has_domain domain) s.db.sites ≡ some site
      → (insert site s).1 ≡ ok tt
      → Added s (insert site s).0
  insert-Added site s found h =
      let s1 : State = (write (add_domain world.down site.id alias false) s).0 in
      let r = (write (add_domain world.down site.id alias false) s).1 in
      let (v, h1, h2, q) =
        bind-ok (query (λ (t : State). wrapping "add domain: %w" r)) (λ u. finish site) s1 h in
      let (free, rows) = added site s (wrapping-ok "add domain: %w" r tt h1) in
      let same =
        route_alias-ok site (apply_alias_routing world site s1).1
          (apply_alias_routing world site s1).0 h2
        ∙ apply_alias_routing-state site s1 in
      record {
        site = site;
        found = found;
        free = free;
        domains =
            ap (λ (y : State × Result (Unit {0})). y.0.db.domains) q
            ∙ ap (λ (y : State). y.db.domains) same
            ∙ rows;
      }

  add_alias_locked-Added :
      (s : State)
      → (add_alias_locked world domain alias s).1 ≡ ok tt
      → Added s (add_alias_locked world domain alias s).0
  unfolding add_alias_locked
  add_alias_locked-Added s h =
      let (site, h1, h2, q) = bind-ok look rest s h in
      let (u, h3, h4, q2) = bind-ok unused (λ u. insert site) s h2 in
      subst (λ (y : State × Result (Unit {0})). Added s y.0) (sym (q ∙ q2))
        (insert-Added site s
          (get_site-ok s.db site
            (wrapping-ok "get site: %w" (get_site world.down domain s.db) site h1))
          h4)

  -- An alias that is added routes to the site, which is there, and was no row of the domains before; the
  -- rows of the other domains are as before.
  pub add_alias-Added :
      (e : SiteEngine)
      → (add_alias world domain alias e).1 ≡ ok tt
      → Added e.state (add_alias world domain alias e).0.state
  unfolding add_alias
  add_alias-Added e h =
      let locked =
        with_lock world.now domain "updating domains" (add_alias_locked world domain alias) in
      let (u, h1, h2, q) =
        bind-ok (query (λ (e : SiteEngine). validate_domain alias)) (λ u. locked) e h in
      let (h3, same) =
        with_lock-ok world.now domain "updating domains" (add_alias_locked world domain alias) e tt
          h2 in
      subst (Added e.state) (sym (ap (λ (x : SiteEngine × Result (Unit {0})). x.0.state) q ∙ same))
        (add_alias_locked-Added e.state h3)
