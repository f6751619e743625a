-- ===== src/Sites/Creation/Frame.antt =====
-- What a creation leaves of the other sites, on every path.
use apod.Base.{
  ◌≡◌, refl, inl, inr, true, false, not, ◌&&◌, String, Result, ok, err, Error, if◌then◌else◌, arith,
  Bool-cases, wrapping,
}
use apod.Base.Effects.{exec, guard-keeps}
use apod.Base.Rows.{delete_where-delete_where}
use apod.Db.{SiteStmt}
use apod.Db.Sites.{
  SiteRow, create_site, get_site, update_site_status, delete_site, delete_site_child_data,
  delete_others, add_other, add_domain, remove_site_from_all_networks,
}
use apod.Sites.{
  World, State, SiteCall, SiteContainer, of_site, write, try_write, SiteEngine, with_lock,
}
use apod.Sites.Frame.{
  Kept, Kept-refl, Keeps, RowsKept-refl, with_lock-Kept, same-Keeps, query-Keeps, then-Keeps,
  bind-Keeps, attempt-Keeps, write-Keeps, try_write-Keeps, create_site-IsLocal,
  update_site_status-IsLocal, delete_site-IsLocal, delete_site_child_data-IsLocal,
  delete_others-IsLocal, add_other-IsLocal, remove_site_from_all_networks-IsLocal,
  add_domain-IsLocal, IsLocal-ok,
}
use apod.Sites.Domains.{validate_opts}
use apod.Sites.Params.{validate_driver_params}
use apod.Sites.Creation.{
  CreateSiteOpts, row_of, reclaimable, check_alias, check_collision, reclaim, claim, tear_down,
  sweep, clear_rows, rollback, abort, provision, finish, register, conclude, or_reclaim, install,
  create_locked, create_hosted_site,
}

module _ (world : World) (o : CreateSiteOpts) where
  check_alias-state : (s : State) → (check_alias world o s).0 ≡ s
  unfolding check_alias
  check_alias-state s = ground arith

  check_collision-state : (s : State) → (check_collision world o s).0 ≡ s
  unfolding check_collision
  check_collision-state s = ground arith

  create-Keeps : Keeps o.domain (write (create_site world.down (row_of o)))
  create-Keeps =
      write-Keeps o.domain (create_site world.down (row_of o))
        (create_site-IsLocal world.down o.domain (row_of o) refl)

  delete-Keeps : Keeps o.domain (try_write (delete_site world.down o.domain))
  delete-Keeps =
      try_write-Keeps o.domain (delete_site world.down o.domain)
        (delete_site-IsLocal world.down o.domain)

  others-Keeps :
      (s : SiteStmt) (kind : String)
      → Keeps o.domain (try_write (delete_others world.down s kind o.domain))
  others-Keeps s kind =
      try_write-Keeps o.domain (delete_others world.down s kind o.domain)
        (delete_others-IsLocal world.down o.domain s kind)

  make_room-Keeps :
      (x : Error) (existing : SiteRow)
      → reclaimable o existing ≡ true
      → Keeps o.domain (reclaim world o x (ok existing))
  unfolding reclaim
  make_room-Keeps x existing mine = rw mine (
      then-Keeps o.domain delete-Keeps (
        then-Keeps o.domain (others-Keeps SiteStmt.delete_operations "operations") (
          bind-Keeps o.domain (attempt-Keeps o.domain create-Keeps)
            (λ again. query-Keeps o.domain (λ s. wrapping "create site record: %w" again)))))

  reclaim-Keeps : (x : Error) (r : Result SiteRow) → Keeps o.domain (reclaim world o x r)
  unfolding reclaim
  reclaim-Keeps x (err y) = same-Keeps o.domain (λ s. refl)
  reclaim-Keeps x (ok existing) = elim (Bool-cases (reclaimable o existing)) [
    | inr other ↦ same-Keeps o.domain (refused other)
    | inl mine ↦ make_room-Keeps x existing mine
  ]
    where
      refused :
          reclaimable o existing ≡ false → (s : State) → (reclaim world o x (ok existing) s).0 ≡ s
      refused other s = ground arith

  tear_down-Keeps : Keeps o.domain (exec (λ s. ok (tear_down world o s)))
  unfolding tear_down
  tear_down-Keeps = record {
    kept = λ s. record {
      rows = RowsKept-refl o.domain s.db;
      containers = ground (
        arith,
        delete_where-delete_where (of_site o.domain) (of_site o.domain) s.containers (λ c e. e),
      );
    };
  }

  sweep-Keeps : Keeps o.domain (exec (λ s. ok (sweep world o s)))
  unfolding sweep
  sweep-Keeps = record {
    kept = λ s. record {
      rows = RowsKept-refl o.domain s.db;
      containers = ground (
        arith,
        delete_where-delete_where (of_site o.domain)
            (λ c. of_site o.domain c && not (world.fails (SiteCall.remove_container c.id)))
            s.containers (λ c e. left c e),
      );
    };
  }
    where
      left :
          (c : SiteContainer)
          → (of_site o.domain c && not (world.fails (SiteCall.remove_container c.id))) ≡ true
          → of_site o.domain c ≡ true
      left c e = ground arith

  leave-Keeps : Keeps o.domain (try_write (remove_site_from_all_networks world.down o.domain))
  leave-Keeps =
      try_write-Keeps o.domain (remove_site_from_all_networks world.down o.domain)
        (remove_site_from_all_networks-IsLocal world.down o.domain)

  children-Keeps : Keeps o.domain (try_write (delete_site_child_data world.down o.domain))
  children-Keeps =
      try_write-Keeps o.domain (delete_site_child_data world.down o.domain)
        (delete_site_child_data-IsLocal world.down o.domain)

  add-Keeps :
      (s : SiteStmt) (kind : String)
      → Keeps o.domain (try_write (add_other world.down s kind o.domain))
  add-Keeps s kind =
      try_write-Keeps o.domain (add_other world.down s kind o.domain)
        (add_other-IsLocal world.down o.domain s kind)

  status-Keeps :
      (status : String) → Keeps o.domain (try_write (update_site_status world.down o.domain status))
  status-Keeps status =
      try_write-Keeps o.domain (update_site_status world.down o.domain status)
        (update_site_status-IsLocal world.down o.domain status)

  clear_rows-Keeps : Keeps o.domain (clear_rows world o)
  unfolding clear_rows
  clear_rows-Keeps = then-Keeps o.domain (then-Keeps o.domain tear_down-Keeps sweep-Keeps) (
      then-Keeps o.domain (others-Keeps SiteStmt.delete_process_scaling "process_scaling") (
        then-Keeps o.domain (others-Keeps SiteStmt.delete_site_secrets "site_secrets") (
          then-Keeps o.domain (others-Keeps SiteStmt.delete_uptime_check "uptime_checks") (
            then-Keeps o.domain (others-Keeps SiteStmt.delete_operations "operations")
              (then-Keeps o.domain leave-Keeps children-Keeps)))))

  rollback-Keeps : Keeps o.domain (rollback world o)
  unfolding rollback
  rollback-Keeps = then-Keeps o.domain clear_rows-Keeps delete-Keeps

  mark-Keeps : Keeps o.domain (
      try_write
        (if world.marks_error then update_site_status world.down o.domain "error" else λ d. ok d))
  mark-Keeps = elim (Bool-cases world.marks_error) [
    | inl m ↦ rw m (status-Keeps "error")
    | inr m ↦ rw m (try_write-Keeps o.domain (λ d. ok d) (IsLocal-ok world.down o.domain))
  ]

  abort-Keeps : (x : Error) → Keeps o.domain (abort world o x)
  unfolding abort
  abort-Keeps x = then-Keeps o.domain mark-Keeps (
      then-Keeps o.domain rollback-Keeps (
        then-Keeps o.domain (add-Keeps SiteStmt.log_operation "operations")
          (query-Keeps o.domain (λ s. err x))))

  provision-Keeps : Keeps o.domain (provision world o)
  unfolding provision
  provision-Keeps = then-Keeps o.domain (query-Keeps o.domain (λ s. world.prepare o.domain)) (
      then-Keeps o.domain (add-Keeps SiteStmt.set_site_secret "site_secrets")
        (query-Keeps o.domain (λ s. world.launch o.domain)))

  register-Keeps : (r : Result SiteRow) → Keeps o.domain (register world o r)
  unfolding register
  register-Keeps (err x) = same-Keeps o.domain (λ s. refl)
  register-Keeps (ok r) =
      try_write-Keeps o.domain (add_domain world.down r.id o.domain true)
        (add_domain-IsLocal world.down o.domain r.id o.domain true)

  finish-Keeps : Keeps o.domain (finish world o)
  unfolding finish
  finish-Keeps = then-Keeps o.domain (status-Keeps "running") (
      bind-Keeps o.domain
        (attempt-Keeps o.domain (query-Keeps o.domain (λ s. get_site world.down o.domain s.db)))
        register-Keeps)

  conclude-Keeps : (r : Result (Unit {0})) → Keeps o.domain (conclude world o r)
  unfolding conclude
  conclude-Keeps (ok u) = finish-Keeps
  conclude-Keeps (err x) = abort-Keeps x

  or_reclaim-Keeps :
      (r : Result (Unit {0})) (existing : Result SiteRow)
      → Keeps o.domain (or_reclaim world o r existing)
  unfolding or_reclaim
  or_reclaim-Keeps (ok u) existing = same-Keeps o.domain (λ s. refl)
  or_reclaim-Keeps (err x) existing = reclaim-Keeps x existing

  claim-Keeps : Keeps o.domain (claim world o)
  unfolding claim
  claim-Keeps = bind-Keeps o.domain (attempt-Keeps o.domain create-Keeps) (λ created.
      bind-Keeps o.domain
        (attempt-Keeps o.domain (query-Keeps o.domain (λ s. get_site world.down o.domain s.db)))
        (or_reclaim-Keeps created))

  check_alias-Keeps : Keeps o.domain (check_alias world o)
  check_alias-Keeps = same-Keeps o.domain check_alias-state

  check_collision-Keeps : Keeps o.domain (check_collision world o)
  check_collision-Keeps = same-Keeps o.domain check_collision-state

  install-Keeps : Keeps o.domain (install world o)
  unfolding install
  install-Keeps =
      then-Keeps o.domain claim-Keeps
        (bind-Keeps o.domain (attempt-Keeps o.domain provision-Keeps) conclude-Keeps)

  create_locked-Keeps : Keeps o.domain (create_locked world o)
  unfolding create_locked
  create_locked-Keeps =
      bind-Keeps o.domain
        (query-Keeps o.domain (λ s. wrapping "load driver: %w" (world.load o.driver)))
        (λ driver.
          then-Keeps o.domain
            (query-Keeps o.domain (λ s. validate_driver_params world.is_float driver o.params))
            (then-Keeps o.domain check_alias-Keeps
              (then-Keeps o.domain check_collision-Keeps install-Keeps)))

  -- Whatever a creation answers, also when it is refused or rolled back, the rows about other sites are
  -- as before in every table but that of the domains, no shared network is made or removed, and the
  -- containers of other sites are as before.
  pub create_hosted_site-Kept :
      (e : SiteEngine) → Kept o.domain e.state (create_hosted_site world o e).0.state
  unfolding create_hosted_site
  create_hosted_site-Kept e =
      guard-keeps (λ (x : SiteEngine). Kept o.domain e.state x.state)
        (λ e. validate_opts o.domain o.owner o.repo o.branch)
        (with_lock world.now o.domain "provisioning" (create_locked world o)) e
        (Kept-refl o.domain e.state)
        (with_lock-Kept o.domain world.now "provisioning" (create_locked world o) e
          create_locked-Keeps)
