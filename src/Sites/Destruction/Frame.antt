-- ===== src/Sites/Destruction/Frame.antt =====
-- What a destruction leaves of the other sites.
use apod.Base.{inl, inr, Bool, String, Result, ok, if◌then◌else◌, arith, Bool-cases, wrapping}
use apod.Base.Effects.{exec, guard-keeps}
use apod.Base.Rows.{delete_where-delete_where}
use apod.Db.{SiteStmt}
use apod.Db.Sites.{
  SiteRow, get_site, delete_site, delete_site_child_data, delete_others,
  remove_site_from_all_networks,
}
use apod.Sites.{World, of_site, is_compose_site, try_write, SiteEngine, with_lock}
use apod.Sites.Domains.{validate_domain}
use apod.Sites.Frame.{
  Kept, Kept-refl, Keeps, RowsKept-refl, with_lock-Kept, query-Keeps, then-Keeps, bind-Keeps,
  attempt-Keeps, write-Keeps, try_write-Keeps, delete_site-IsLocal, delete_site_child_data-IsLocal,
  delete_others-IsLocal, remove_site_from_all_networks-IsLocal,
}
use apod.Sites.Destruction.Containers.{remove_containers-Keeps}
use apod.Sites.Destruction.{
  forget, delete_rows, compose_down, destroy_compose, delete_error, destroy_native, destroy_as,
  destroy_locked, destroy_site,
}

module _ (world : World) (domain : String) (purge : Bool) where
  others-Keeps :
      (s : SiteStmt) (kind : String)
      → Keeps domain (try_write (delete_others world.down s kind domain))
  others-Keeps s kind =
      try_write-Keeps domain (delete_others world.down s kind domain)
        (delete_others-IsLocal world.down domain s kind)

  delete_rows-Keeps :
      (error_of : Result (Unit {0}) → Result (Unit {0}))
      → Keeps domain (delete_rows world domain purge error_of)
  unfolding delete_rows forget
  delete_rows-Keeps error_of =
      bind-Keeps domain
        (attempt-Keeps domain (
          write-Keeps domain (delete_site world.down domain)
            (delete_site-IsLocal world.down domain)))
        (λ deleted. then-Keeps domain (query-Keeps domain (λ s. error_of deleted)) (
          then-Keeps domain (others-Keeps SiteStmt.delete_process_scaling "process_scaling") (
            then-Keeps domain (others-Keeps SiteStmt.delete_site_secrets "site_secrets") (
              then-Keeps domain
                (try_write-Keeps domain (remove_site_from_all_networks world.down domain)
                  (remove_site_from_all_networks-IsLocal world.down domain))
                (try_write-Keeps domain (delete_site_child_data world.down domain)
                  (delete_site_child_data-IsLocal world.down domain))))))

  destroy_native-Keeps :
      (site : Result SiteRow) → Keeps domain (destroy_native world domain purge site)
  unfolding destroy_native
  destroy_native-Keeps site = then-Keeps domain (remove_containers-Keeps world domain purge) (
      then-Keeps domain (delete_rows-Keeps (delete_error world domain purge site)) (
        query-Keeps domain
          (λ s. if purge then wrapping "remove site data: %w" (world.purge domain) else ok tt)))

  down-Keeps : Keeps domain (exec (λ s. ok (compose_down world domain purge s)))
  unfolding compose_down
  down-Keeps = record {
    kept = λ s. record {
      rows = RowsKept-refl domain s.db;
      containers = ground (
        arith,
        delete_where-delete_where (of_site domain) (of_site domain) s.containers (λ x e. e),
      );
    };
  }

  destroy_compose-Keeps : Keeps domain (destroy_compose world domain purge)
  unfolding destroy_compose
  destroy_compose-Keeps =
      then-Keeps domain down-Keeps (delete_rows-Keeps (wrapping "delete site record: %w"))

  destroy_as-Keeps : (site : Result SiteRow) → Keeps domain (destroy_as world domain purge site)
  unfolding destroy_as
  destroy_as-Keeps site = elim (Bool-cases (is_compose_site world site)) [
    | inl c ↦ rw c destroy_compose-Keeps
    | inr c ↦ rw c (destroy_native-Keeps site)
  ]

  destroy_locked-Keeps : Keeps domain (destroy_locked world domain purge)
  unfolding destroy_locked
  destroy_locked-Keeps =
      then-Keeps domain (others-Keeps SiteStmt.delete_uptime_check "uptime_checks") (
        then-Keeps domain (others-Keeps SiteStmt.delete_operations "operations") (
          bind-Keeps domain
            (attempt-Keeps domain (query-Keeps domain (λ s. get_site world.down domain s.db)))
            destroy_as-Keeps))

  -- Whatever a destruction answers, the rows about other sites are as before in every table but that of
  -- the domains, no shared network is removed, and the containers of other sites are as before.
  pub destroy_site-Kept :
      (e : SiteEngine) → Kept domain e.state (destroy_site world domain purge e).0.state
  unfolding destroy_site
  destroy_site-Kept e =
      guard-keeps (λ (x : SiteEngine). Kept domain e.state x.state) (λ e. validate_domain domain)
        (with_lock world.now domain "destroying" (destroy_locked world domain purge)) e
        (Kept-refl domain e.state)
        (with_lock-Kept domain world.now "destroying" (destroy_locked world domain purge) e
          destroy_locked-Keeps)
