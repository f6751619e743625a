-- ===== src/Sites/Destruction.antt =====
-- internal/engine/engine.go: `DestroySite`. Progress events, the uptime ticker, the site's network and the
-- Traefik files are left out.
pub mod Containers
pub mod Stored
pub mod Gone
pub mod Frame
use apod.Base.{
  Bool, false, String, List, [], ◌∷◌, Result, ok, err, plain, wrap, wrapping, if◌then◌else◌,
  update_where, delete_where,
}
use apod.Base.Effects.{M, ◌>>=◌, ◌>>◌, pure, fail, query, attempt, exec}
use apod.Db.{SiteStmt}
use apod.Db.Sites.{
  SiteRow, get_site, delete_site, delete_site_child_data, delete_others,
  remove_site_from_all_networks,
}
use apod.Sites.{
  World, State, SiteEngine, SiteCall, SiteContainer, of_site, site_containers, is_that,
  is_compose_site, write, try_write, read, with_lock,
}
use apod.Sites.Domains.{validate_domain}

module _ (world : World) (domain : String) (purge : Bool) where
  -- The deletions after the site's row is gone, each on its own.
  unfoldable pub forget : M State (Unit {0})
  unfolding delete_others remove_site_from_all_networks delete_site_child_data
  forget = do
    try_write (delete_others world.down SiteStmt.delete_process_scaling "process_scaling" domain)
    try_write (delete_others world.down SiteStmt.delete_site_secrets "site_secrets" domain)
    try_write (remove_site_from_all_networks world.down domain)
    try_write (delete_site_child_data world.down domain)

  -- `docker compose down`, whose failure is ignored.
  unfoldable pub compose_down : State → State
  unfolding delete_where
  compose_down s = record s {
    containers =
        if world.fails (SiteCall.compose_down domain)
        then s.containers
        else delete_where (of_site domain) s.containers;
  }

  -- The removal of the site's row, and of what is stored about the site.
  unfoldable pub delete_rows : (Result (Unit {0}) → Result (Unit {0})) → M State (Unit {0})
  unfolding delete_site forget
  delete_rows error_of = do
    deleted ← attempt (write (delete_site world.down domain))
    query (λ s. error_of deleted)
    forget

  -- The path of a compose site.
  unfoldable pub destroy_compose : M State (Unit {0})
  unfolding compose_down delete_rows
  destroy_compose = do
    exec (λ s. ok (compose_down s))
    delete_rows (wrapping "delete site record: %w")

  -- The state after a stop whose failure is ignored and a removal that succeeds.
  unfoldable pub without : SiteContainer → State → State
  unfolding delete_where
  without c s = record s { containers = delete_where (is_that c) s.containers }

  -- A container that could be stopped but not removed.
  unfoldable pub stopped : SiteContainer → State → State
  unfolding update_where
  stopped c s = record s {
    containers =
        if world.fails (SiteCall.stop_container c.id)
        then s.containers
        else update_where (is_that c) (λ x. record x { running = false }) s.containers;
  }

  -- The loop over the containers.
  unfoldable pub remove_each : List SiteContainer → M State (Unit {0})
  unfolding without stopped
  remove_each [] s = (s, ok tt)
  remove_each (c ∷ cs) s =
      let rest = remove_each cs (without c s) in
      if world.fails (SiteCall.remove_container c.id)
      then (stopped c s, err (wrap "remove container: %w" (plain "docker")))
      else rest

  unfoldable pub remove_containers : M State (Unit {0})
  unfolding remove_each
  remove_containers s =
      if world.fails (SiteCall.list_containers domain)
      then (s, err (wrap "list containers: %w" (plain "docker")))
      else remove_each (site_containers domain s) s

  -- A missing row is no error when the site was not found before.
  abbrev pub delete_error : Result SiteRow → Result (Unit {0}) → Result (Unit {0})
  delete_error (err x) deleted = ok tt
  delete_error (ok s) deleted = wrapping "delete site record: %w" deleted

  -- The path of a site of containers.
  unfoldable pub destroy_native : Result SiteRow → M State (Unit {0})
  unfolding remove_containers delete_rows
  destroy_native site = do
    remove_containers
    delete_rows (delete_error site)
    query (λ s. if purge then wrapping "remove site data: %w" (world.purge domain) else ok tt)

  unfoldable pub destroy_as : Result SiteRow → M State (Unit {0})
  unfolding destroy_compose destroy_native
  destroy_as site = if is_compose_site world site then destroy_compose else destroy_native site

  unfoldable pub destroy_locked : M State (Unit {0})
  unfolding delete_others get_site destroy_as
  destroy_locked = do
    try_write (delete_others world.down SiteStmt.delete_uptime_check "uptime_checks" domain)
    try_write (delete_others world.down SiteStmt.delete_operations "operations" domain)
    site ← attempt (read (get_site world.down domain))
    destroy_as site

  -- `DestroySite`.
  unfoldable pub destroy_site : M SiteEngine (Unit {0})
  unfolding destroy_locked with_lock validate_domain
  destroy_site = do
    query (λ e. validate_domain domain)
    with_lock world.now domain "destroying" destroy_locked
