-- ===== src/Sites/Creation.antt =====
-- internal/engine/engine.go: `CreateSite` and the rollback of a creation that fails. Progress events, the
-- file ownership and the disk quota are left out; git, files, images and containers are the provisioning.
pub mod Frame
pub mod Apart
pub mod Claims
pub mod Outcome
pub mod Cleanup
use apod.Base.{
  Bool, true, not, ◌&&◌, ◌||◌, String, List, Result, ok, err, Error, conflict, wrap, wrapping, ◌==◌,
  nat_eq, string_eq, if◌then◌else◌, any, delete_where,
}
use apod.Base.Effects.{M, ◌>>=◌, ◌>>◌, pure, fail, query, attempt, exec, best_effort}
use apod.Db.{SiteStmt}
use apod.Db.Sites.{
  SiteRow, SiteDb, create_site, get_site, list_sites, update_site_status, delete_site,
  delete_site_child_data, delete_others, add_other, add_domain, get_site_by_domain,
  remove_site_from_all_networks,
}
use apod.Sites.{
  World, Driver, State, SiteEngine, SiteCall, of_site, is_compose_site, write, try_write, read,
  with_lock,
}
use apod.Sites.Domains.{validate_opts, internal_id}
use apod.Sites.Params.{validate_driver_params}

-- `CreateSiteOpts`, as far as it decides on the claim.
pub record CreateSiteOpts : Type 0 where
  pub domain : String
  pub driver : String
  pub ram : String
  pub cpu : String
  pub storage : String
  pub repo : String
  pub branch : String
  pub owner : String
  pub params : List (String × String)

-- The new row, with the defaults for memory and processors. The table sets the key and the status.
abbrev pub row_of : CreateSiteOpts → SiteRow
row_of o = record {
  id = 0;
  domain = o.domain;
  driver = o.driver;
  status = "";
  ram = if o.ram == "" then "512M" else o.ram;
  cpu = if o.cpu == "" then "1" else o.cpu;
  storage = o.storage;
  repo = o.repo;
  branch = o.branch;
  owner = o.owner;
}

-- Another site with the same internal name.
abbrev pub collides : String → SiteRow → Bool
collides domain s = not (s.domain == domain) && internal_id s.domain == internal_id domain

-- A record of a failed creation by the same owner.
abbrev pub reclaimable : CreateSiteOpts → SiteRow → Bool
reclaimable o s = (s.status == "creating" || s.status == "error") && s.owner == o.owner

module _ (world : World) (o : CreateSiteOpts) where
  -- The domain is no alias of another site.
  unfoldable pub check_alias : M State (Unit {0})
  unfolding get_site_by_domain
  check_alias = do
    existing ← attempt (read (get_site_by_domain world.down o.domain))
    elim existing [
      | err x ↦ pure tt
      | ok s ↦
          if s.domain == o.domain
          then pure tt
          else fail (conflict "domain %q is already in use by site %q")
    ]

  -- No other site has the internal name; where the sites cannot be listed, nothing is checked.
  unfoldable pub check_collision : M State (Unit {0})
  unfolding list_sites any
  check_collision = do
    sites ← attempt (read (list_sites world.down))
    elim sites [
      | err x ↦ pure tt
      | ok rows ↦
          if any (collides o.domain) rows
          then fail (conflict "domain %q collides with existing site %q")
          else pure tt
    ]

  -- A record that is there already: a failed creation of the same owner makes room.
  unfoldable pub reclaim : Error → Result SiteRow → M State (Unit {0})
  unfolding delete_site delete_others create_site
  reclaim x (err y) = fail (wrap "create site record: %w" x)
  reclaim x (ok existing) =
      if reclaimable o existing
      then (do
        try_write (delete_site world.down o.domain)
        try_write (delete_others world.down SiteStmt.delete_operations "operations" o.domain)
        again ← attempt (write (create_site world.down (row_of o)))
        query (λ s. wrapping "create site record: %w" again))
      else fail (conflict "site %q already exists (status: %s)")

  unfoldable pub or_reclaim : Result (Unit {0}) → Result SiteRow → M State (Unit {0})
  unfolding reclaim
  or_reclaim (ok u) existing = pure tt
  or_reclaim (err x) existing = reclaim x existing

  -- `db.CreateSite` with what follows its error. The site is looked up in either case here.
  unfoldable pub claim : M State (Unit {0})
  unfolding create_site get_site or_reclaim
  claim = do
    created ← attempt (write (create_site world.down (row_of o)))
    existing ← attempt (read (get_site world.down o.domain))
    or_reclaim created existing

  -- The project of a compose site is torn down first.
  unfoldable pub tear_down : State → State
  unfolding get_site delete_where
  tear_down s = record s {
    containers =
        if is_compose_site world (get_site world.down o.domain s.db)
          && not (world.fails (SiteCall.compose_down o.domain))
        then delete_where (of_site o.domain) s.containers
        else s.containers;
  }

  -- The containers of the site are removed, each if it can be.
  unfoldable pub sweep : State → State
  unfolding delete_where
  sweep s = record s {
    containers =
        if world.fails (SiteCall.list_containers o.domain)
        then s.containers
        else delete_where
            (λ c. of_site o.domain c && not (world.fails (SiteCall.remove_container c.id)))
            s.containers;
  }

  -- The deletions of `rollbackPartialCreate` before the site's row, each on its own.
  unfoldable pub clear_rows : M State (Unit {0})
  unfolding tear_down sweep delete_others remove_site_from_all_networks delete_site_child_data
  clear_rows = do
    exec (λ s. ok (tear_down s))
    exec (λ s. ok (sweep s))
    try_write (delete_others world.down SiteStmt.delete_process_scaling "process_scaling" o.domain)
    try_write (delete_others world.down SiteStmt.delete_site_secrets "site_secrets" o.domain)
    try_write (delete_others world.down SiteStmt.delete_uptime_check "uptime_checks" o.domain)
    try_write (delete_others world.down SiteStmt.delete_operations "operations" o.domain)
    try_write (remove_site_from_all_networks world.down o.domain)
    try_write (delete_site_child_data world.down o.domain)

  -- `rollbackPartialCreate`.
  unfoldable pub rollback : M State (Unit {0})
  unfolding clear_rows delete_site
  rollback = do clear_rows; try_write (delete_site world.down o.domain)

  -- The deferred function of a creation that fails, and the error.
  unfoldable pub abort : Error → M State (Unit {0})
  unfolding rollback update_site_status add_other
  abort x = do
    try_write
        (if world.marks_error then update_site_status world.down o.domain "error" else λ d. ok d)
    rollback
    try_write (add_other world.down SiteStmt.log_operation "operations" o.domain)
    fail x

  -- What is provisioned for a claimed domain.
  unfoldable pub provision : M State (Unit {0})
  unfolding add_other
  provision = do
    query (λ s. world.prepare o.domain)
    try_write (add_other world.down SiteStmt.set_site_secret "site_secrets" o.domain)
    query (λ s. world.launch o.domain)

  -- The primary domain of a site that can be read back.
  unfoldable pub register : Result SiteRow → M State (Unit {0})
  unfolding add_domain
  register (err x) = pure tt
  register (ok s) = try_write (add_domain world.down s.id o.domain true)

  -- A site that is provisioned runs, and its domain is registered.
  unfoldable pub finish : M State (Unit {0})
  unfolding update_site_status get_site register
  finish = do
    try_write (update_site_status world.down o.domain "running")
    created ← attempt (read (get_site world.down o.domain))
    register created

  unfoldable pub conclude : Result (Unit {0}) → M State (Unit {0})
  unfolding finish abort
  conclude (ok u) = finish
  conclude (err x) = abort x

  -- What follows the checks on the domain.
  unfoldable pub install : M State (Unit {0})
  unfolding claim provision conclude
  install = do claim; done ← attempt provision; conclude done

  -- `CreateSite` under the lock.
  unfoldable pub create_locked : M State (Unit {0})
  unfolding check_alias check_collision install
  create_locked = do
    driver ← query (λ s. wrapping "load driver: %w" (world.load o.driver))
    query (λ s. validate_driver_params world.is_float driver o.params)
    check_alias
    check_collision
    install

  -- `CreateSite`.
  unfoldable pub create_hosted_site : M SiteEngine (Unit {0})
  unfolding create_locked with_lock validate_opts
  create_hosted_site = do
    query (λ e. validate_opts o.domain o.owner o.repo o.branch)
    with_lock world.now o.domain "provisioning" create_locked
