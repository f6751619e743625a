-- ===== src/Sites/Aliases.antt =====
-- internal/engine/domain.go: the alias domains of a site. What is written into Traefik's file is a parameter.
pub mod Ownership
pub mod Rollback
pub mod Removal
use apod.Base.{
  false, String, Result, ok, err, plain, conflict, wrapping, ◌==◌, nat_eq, string_eq, if◌then◌else◌,
}
use apod.Base.Effects.{M, ◌>>=◌, ◌>>◌, pure, fail, query, attempt}
use apod.Db.Sites.{
  SiteRow, get_site, get_site_by_domain, add_domain, remove_domain_for_site, list_domains,
}
use apod.Sites.{World, State, SiteEngine, write, try_write, read, with_lock}
use apod.Sites.Domains.{validate_domain}

-- A domain that a site already answers to; a look-up that fails refuses nothing.
abbrev pub refuse_used : Result SiteRow → Result (Unit {0})
refuse_used (err x) = ok tt
refuse_used (ok s) = err (conflict "domain %q is already in use by site %q")

module _ (world : World) where
  -- `applyAliasRouting`.
  unfoldable pub apply_alias_routing : SiteRow → M State (Unit {0})
  unfolding list_domains
  apply_alias_routing site = do
    domains ← read (list_domains world.down site.id)
    query (λ s. world.route site.domain)

  -- What follows the row of an alias: without its route the row is removed again.
  unfoldable pub route_alias : SiteRow → String → Result (Unit {0}) → M State (Unit {0})
  unfolding remove_domain_for_site
  route_alias site alias (ok u) = pure tt
  route_alias site alias (err x) = do
    try_write (remove_domain_for_site world.down site.id alias)
    query (λ s. wrapping "apply alias routing: %w" (err x))

  unfoldable pub add_alias_locked : String → String → M State (Unit {0})
  unfolding get_site get_site_by_domain add_domain apply_alias_routing route_alias
  add_alias_locked domain alias = do
    site ← query (λ s. wrapping "get site: %w" (get_site world.down domain s.db))
    existing ← attempt (read (get_site_by_domain world.down alias))
    query (λ s. refuse_used existing)
    added ← attempt (write (add_domain world.down site.id alias false))
    query (λ s. wrapping "add domain: %w" added)
    routed ← attempt (apply_alias_routing site)
    route_alias site alias routed

  -- `AddDomain`.
  unfoldable pub add_alias : String → String → M SiteEngine (Unit {0})
  unfolding validate_domain add_alias_locked with_lock
  add_alias domain alias = do
    query (λ e. validate_domain alias)
    with_lock world.now domain "updating domains" (add_alias_locked domain alias)

  unfoldable pub remove_alias_locked : String → String → M State (Unit {0})
  unfolding get_site remove_domain_for_site apply_alias_routing
  remove_alias_locked domain alias = do
    query (λ s. if alias == domain then err (plain "cannot remove primary domain %q") else ok tt)
    site ← query (λ s. wrapping "get site: %w" (get_site world.down domain s.db))
    removed ← attempt (write (remove_domain_for_site world.down site.id alias))
    query (λ s. wrapping "remove domain: %w" removed)
    routed ← attempt (apply_alias_routing site)
    query (λ s. wrapping "apply alias routing: %w" routed)

  -- `RemoveDomain`.
  unfoldable pub remove_alias : String → String → M SiteEngine (Unit {0})
  unfolding remove_alias_locked with_lock
  remove_alias domain alias =
      with_lock world.now domain "updating domains" (remove_alias_locked domain alias)
