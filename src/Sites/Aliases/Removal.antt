-- ===== src/Sites/Aliases/Removal.antt =====
-- The removal of an alias reaches neither another site's domains nor the primary one.
use apod.Base.{
  ℕ, ◌≡◌, refl, sym, subst, Bool, true, false, ◌&&◌, String, some, ok, err, ◌==◌, nat_eq, string_eq,
  if◌then◌else◌, find, delete_where, arith, wrapping, plain, find-delete_where,
}
use apod.Base.Effects.{M, ◌>>=◌, ◌>>◌, query, attempt, bind-post}
use apod.Base.Rows.{delete_where-delete_where}
use apod.Db.Sites.{SiteDb, SiteRow, DomainRow, has_domain, get_site, remove_domain_for_site}
use apod.Sites.{World, State, write, SiteEngine}
use apod.Sites.Locking.{with_lock-post}
use apod.Sites.Aliases.{apply_alias_routing, remove_alias_locked, remove_alias}
use apod.Sites.Aliases.Ownership.{routes, of_id}

-- The rows of the other sites, and what the site's own domain routes to.
abbrev pub IsSpared : String → ℕ → SiteDb → State → Type 0
IsSpared domain id d s =
    (delete_where (of_id id) s.db.domains ≡ delete_where (of_id id) d.domains)
    × (find (routes domain) s.db.domains ≡ find (routes domain) d.domains)

module _ (world : World) (domain alias : String) where
  removed :
      (site : SiteRow) (s : State)
      → (alias == domain) ≡ false
      → IsSpared domain site.id s.db (write (remove_domain_for_site world.down site.id alias) s).0
  unfolding remove_domain_for_site
  removed site s other = (
    ground (arith, delete_where-delete_where (of_id site.id) that s.db.domains (λ r e. own r e)),
    ground (arith, find-delete_where (routes domain) that s.db.domains (λ r e. primary r e)),
  )
    where
      that : DomainRow → Bool
      that r = r.site_id == site.id && r.domain == alias

      own : (r : DomainRow) → that r ≡ true → of_id site.id r ≡ true
      own r e = ground arith

      primary : (r : DomainRow) → routes domain r ≡ true → that r ≡ false
      primary r e = ground (
        arith,
        string_eq.beq_iff r.domain domain,
        string_eq.beq_iff r.domain alias,
        string_eq.beq_iff alias domain,
      )

  get_site-found :
      (d : SiteDb) (r r' : SiteRow)
      → find (has_domain domain) d.sites ≡ some r
      → wrapping "get site: %w" (get_site world.down domain d) ≡ ok r'
      → r ≡ r'
  unfolding get_site
  get_site-found d r r' f h = ground arith

  -- What follows the site's row.
  abbrev rest : SiteRow → M State (Unit {0})
  rest site = attempt (write (remove_domain_for_site world.down site.id alias)) >>= (λ removed.
      query (λ s. wrapping "remove domain: %w" removed)
      >> (attempt (apply_alias_routing world site)
          >>= (λ routed. query (λ s. wrapping "apply alias routing: %w" routed))))

  rest-IsSpared :
      (site : SiteRow) (s : State)
      → (alias == domain) ≡ false
      → IsSpared domain site.id s.db (rest site s).0
  unfolding apply_alias_routing
  rest-IsSpared site s other =
      let s1 : State = (write (remove_domain_for_site world.down site.id alias) s).0 in
      let r = (write (remove_domain_for_site world.down site.id alias) s).1 in
      bind-post (IsSpared domain site.id s.db)
        (query (λ (t : State). wrapping "remove domain: %w" r))
        (λ u.
          attempt (apply_alias_routing world site)
          >>= (λ routed. query (λ s. wrapping "apply alias routing: %w" routed)))
        s1 (removed site s other)
        (λ u e. subst (IsSpared domain site.id s.db) (sym (routed s1)) (removed site s other))
    where
      routed : (t : State) → (apply_alias_routing world site t).0 ≡ t
      routed t = ground arith

  remove_alias_locked-IsSpared :
      (site : SiteRow) (s : State)
      → find (has_domain domain) s.db.sites ≡ some site
      → IsSpared domain site.id s.db (remove_alias_locked world domain alias s).0
  unfolding remove_alias_locked
  remove_alias_locked-IsSpared site s found =
      bind-post (IsSpared domain site.id s.db) check (λ u. look >>= rest) s (refl, refl)
        (λ u e.
          bind-post (IsSpared domain site.id s.db) look rest s (refl, refl)
            (λ site' e2.
              subst (λ (y : SiteRow). IsSpared domain site.id s.db (rest y s).0)
                (get_site-found s.db site site' found e2) (rest-IsSpared site s (apart u e))))
    where
      check : M State (Unit {0})
      check =
          query
            (λ s. if alias == domain then err (plain "cannot remove primary domain %q") else ok tt)

      look : M State SiteRow
      look = query (λ s. wrapping "get site: %w" (get_site world.down domain s.db))

      apart : (u : Unit {0}) → (check s).1 ≡ ok u → (alias == domain) ≡ false
      apart u e = ground arith

  -- Whatever a removal of an alias answers, the rows of the domains of the other sites are as before, and so is
  -- the one that the site's own domain is found by: only aliases of the site itself can be removed.
  pub remove_alias-IsSpared :
      (e : SiteEngine) (site : SiteRow)
      → find (has_domain domain) e.state.db.sites ≡ some site
      → IsSpared domain site.id e.state.db (remove_alias world domain alias e).0.state
  unfolding remove_alias
  remove_alias-IsSpared e site found =
      with_lock-post world.now domain "updating domains" (remove_alias_locked world domain alias)
        (IsSpared domain site.id e.state.db) e (refl, refl)
        (remove_alias_locked-IsSpared site e.state found)
