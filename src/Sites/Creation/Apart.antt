-- ===== src/Sites/Creation/Apart.antt =====
-- A creation never makes two sites share an internal name.
use apod.Base.{
  ◌≡◌, refl, sym, subst, ◌∙◌, inl, inr, true, false, String, List, Result, ok, err, Error,
  if◌then◌else◌, any, arith, Bool-cases, wrap, wrapping, conflict,
}
use apod.Base.Effects.{
  ◌>>◌, query, exec, guard-keeps, bind-post, Preserves, query-Preserves, bind-Preserves,
  then-Preserves, attempt-Preserves,
}
use apod.Db.{SiteStmt}
use apod.Db.Sites.{
  SiteRow, create_site, get_site, update_site_status, delete_site, list_sites,
  delete_site_child_data, delete_others, add_other, add_domain, remove_site_from_all_networks,
}
use apod.Sites.{World, Driver, State, write, try_write, SiteEngine, with_lock}
use apod.Sites.Domains.{validate_opts}
use apod.Sites.Params.{validate_driver_params}
use apod.Sites.Locking.{with_lock-post}
use apod.Sites.Distinct.{
  Apart, IsDistinct, IsApart, write-Preserves, try_write-Preserves, create_site-Apart,
  delete_site-Apart, update_site_status-Apart, delete_others-KeepsRows, add_other-KeepsRows,
  leave-KeepsRows, children-KeepsRows, add_domain-KeepsRows,
}
use apod.Sites.Creation.{
  CreateSiteOpts, row_of, collides, reclaimable, check_alias, check_collision, reclaim, claim,
  tear_down, sweep, clear_rows, rollback, abort, provision, finish, register, conclude, or_reclaim,
  install, create_locked, create_hosted_site,
}

module _ (world : World) (o : CreateSiteOpts) where
  abbrev P : State → Type 0
  P = IsApart o.domain

  abbrev Rows : List SiteRow → Type 0
  Rows = Apart o.domain

  created : Preserves P (write (create_site world.down (row_of o)))
  created =
      write-Preserves Rows (create_site world.down (row_of o))
        (create_site-Apart world.down o.domain (row_of o) refl)

  deleted : Preserves P (try_write (delete_site world.down o.domain))
  deleted =
      try_write-Preserves Rows (delete_site world.down o.domain)
        (delete_site-Apart world.down o.domain o.domain)

  others :
      (s : SiteStmt) (kind : String)
      → Preserves P (try_write (delete_others world.down s kind o.domain))
  others s kind =
      try_write-Preserves Rows (delete_others world.down s kind o.domain)
        (delete_others-KeepsRows world.down o.domain Rows s kind)

  added :
      (s : SiteStmt) (kind : String)
      → Preserves P (try_write (add_other world.down s kind o.domain))
  added s kind =
      try_write-Preserves Rows (add_other world.down s kind o.domain)
        (add_other-KeepsRows world.down o.domain Rows s kind)

  marked :
      (status : String) → Preserves P (try_write (update_site_status world.down o.domain status))
  marked status =
      try_write-Preserves Rows (update_site_status world.down o.domain status)
        (update_site_status-Apart world.down o.domain o.domain status)

  reclaim-Preserves : (x : Error) (r : Result SiteRow) → Preserves P (reclaim world o x r)
  unfolding reclaim
  reclaim-Preserves x (err y) = query-Preserves P (λ s. err (wrap "create site record: %w" x))
  reclaim-Preserves x (ok existing) = elim (Bool-cases (reclaimable o existing)) [
    | inr other ↦
        rw other (query-Preserves P (λ s. err (conflict "site %q already exists (status: %s)")))
    | inl mine ↦ rw mine (
        then-Preserves P deleted (
          then-Preserves P (others SiteStmt.delete_operations "operations") (
            bind-Preserves P (attempt-Preserves P created)
              (λ again. query-Preserves P (λ s. wrapping "create site record: %w" again)))))
  ]

  or_reclaim-Preserves :
      (r : Result (Unit {0})) (existing : Result SiteRow)
      → Preserves P (or_reclaim world o r existing)
  unfolding or_reclaim
  or_reclaim-Preserves (ok u) existing = query-Preserves P (λ s. ok tt)
  or_reclaim-Preserves (err x) existing = reclaim-Preserves x existing

  claim-Preserves : Preserves P (claim world o)
  unfolding claim
  claim-Preserves = bind-Preserves P (attempt-Preserves P created) (λ c.
      bind-Preserves P
        (attempt-Preserves P (query-Preserves P (λ s. get_site world.down o.domain s.db)))
        (or_reclaim-Preserves c))

  torn_down : Preserves P (exec (λ s. ok (tear_down world o s)))
  unfolding tear_down
  torn_down = record { preserved = λ s p. p }

  swept : Preserves P (exec (λ s. ok (sweep world o s)))
  unfolding sweep
  swept = record { preserved = λ s p. p }

  clear_rows-Preserves : Preserves P (clear_rows world o)
  unfolding clear_rows
  clear_rows-Preserves = then-Preserves P (then-Preserves P torn_down swept) (
      then-Preserves P (others SiteStmt.delete_process_scaling "process_scaling") (
        then-Preserves P (others SiteStmt.delete_site_secrets "site_secrets") (
          then-Preserves P (others SiteStmt.delete_uptime_check "uptime_checks") (
            then-Preserves P (others SiteStmt.delete_operations "operations") (
              then-Preserves P
                (try_write-Preserves Rows (remove_site_from_all_networks world.down o.domain)
                  (leave-KeepsRows world.down o.domain Rows))
                (try_write-Preserves Rows (delete_site_child_data world.down o.domain)
                  (children-KeepsRows world.down o.domain Rows)))))))

  rollback-Preserves : Preserves P (rollback world o)
  unfolding rollback
  rollback-Preserves = then-Preserves P clear_rows-Preserves deleted

  mark-Preserves : Preserves P (
      try_write
        (if world.marks_error then update_site_status world.down o.domain "error" else λ d. ok d))
  mark-Preserves = elim (Bool-cases world.marks_error) [
    | inl m ↦ rw m (marked "error")
    | inr m ↦ rw m (record { preserved = λ s p. p })
  ]

  register-Preserves : (r : Result SiteRow) → Preserves P (register world o r)
  unfolding register
  register-Preserves (err x) = query-Preserves P (λ s. ok tt)
  register-Preserves (ok r) =
      try_write-Preserves Rows (add_domain world.down r.id o.domain true)
        (add_domain-KeepsRows world.down o.domain Rows r.id o.domain true)

  conclude-Preserves : (r : Result (Unit {0})) → Preserves P (conclude world o r)
  unfolding conclude abort finish
  conclude-Preserves (ok u) = then-Preserves P (marked "running") (
      bind-Preserves P
        (attempt-Preserves P (query-Preserves P (λ s. get_site world.down o.domain s.db)))
        register-Preserves)
  conclude-Preserves (err x) = then-Preserves P mark-Preserves (
      then-Preserves P rollback-Preserves (
        then-Preserves P (added SiteStmt.log_operation "operations")
          (query-Preserves P (λ s. err x))))

  install-Preserves : Preserves P (install world o)
  unfolding install provision
  install-Preserves = then-Preserves P claim-Preserves (
      bind-Preserves P
        (attempt-Preserves P (
          then-Preserves P (query-Preserves P (λ s. world.prepare o.domain)) (
            then-Preserves P (added SiteStmt.set_site_secret "site_secrets")
              (query-Preserves P (λ s. world.launch o.domain)))))
        conclude-Preserves)

  checked :
      (s : State)
      → world.down SiteStmt.list_sites ≡ false
      → (check_collision world o s).1 ≡ ok tt
      → any (collides o.domain) s.db.sites ≡ false
  unfolding check_collision list_sites
  checked s up h = ground arith

  check_alias-state : (s : State) → (check_alias world o s).0 ≡ s
  unfolding check_alias
  check_alias-state s = ground arith

  check_collision-state : (s : State) → (check_collision world o s).0 ≡ s
  unfolding check_collision
  check_collision-state s = ground arith

  create_locked-IsDistinct :
      (s : State)
      → world.down SiteStmt.list_sites ≡ false
      → IsDistinct s
      → IsDistinct (create_locked world o s).0
  unfolding create_locked
  create_locked-IsDistinct s up d =
      let alias = check_alias world o in
      let collision = check_collision world o in
      let tail = install world o in
      let params = λ (driver : Driver).
        query (λ (s : State). validate_driver_params world.is_float driver o.params) in
      bind-post IsDistinct (query (λ s. wrapping "load driver: %w" (world.load o.driver)))
        (λ driver. params driver >> (alias >> (collision >> tail))) s d
        (λ driver e1.
          bind-post IsDistinct (params driver) (λ u. alias >> (collision >> tail)) s d
            (λ u e2.
              bind-post IsDistinct alias (λ u. collision >> tail) s
                (subst IsDistinct (sym (check_alias-state s)) d)
                (λ u e3.
                  subst (λ x. IsDistinct ((collision >> tail) x).0) (sym (check_alias-state s))
                    (bind-post IsDistinct collision (λ u. tail) s
                      (subst IsDistinct (sym (check_collision-state s)) d)
                      (λ u e4.
                        subst (λ x. IsDistinct (tail x).0) (sym (check_collision-state s))
                          (install-Preserves.preserved s (checked s up (e4 ∙ unit u), d)).1)))))
    where
      unit : (u : Unit {0}) → ◌≡◌ {A = Result (Unit {0})} (ok u) (ok tt)
      unit u = refl

  -- While the sites can be listed, a creation never makes two sites share an internal name, whatever it
  -- answers.
  pub create_hosted_site-IsDistinct :
      (e : SiteEngine)
      → world.down SiteStmt.list_sites ≡ false
      → IsDistinct e.state
      → IsDistinct (create_hosted_site world o e).0.state
  unfolding create_hosted_site with_lock
  create_hosted_site-IsDistinct e up d =
      guard-keeps (λ (x : SiteEngine). IsDistinct x.state)
        (λ e. validate_opts o.domain o.owner o.repo o.branch)
        (with_lock world.now o.domain "provisioning" (create_locked world o)) e d
        (with_lock-post world.now o.domain "provisioning" (create_locked world o) IsDistinct e d
          (create_locked-IsDistinct e.state up d))
