-- ===== src/Sites/Power/Switched.antt =====
-- What a start, a stop and a restart that succeed have done.
use apod.Base.{
  ◌≡◌, refl, sym, ap, subst, ◌∙◌, Bool, true, false, String, some, List, [], ◌∷◌, Result, ok, err,
  find, any, update_where, arith, wrap, plain, find-update_where, find_of_any,
}
use apod.Base.Effects.{M, ◌>>◌, bind-ok}
use apod.Db.Sites.{SiteRow, has_domain, get_site, update_site_status, list_site_networks}
use apod.Sites.{World, State, SiteCall, write, SiteEngine, with_lock}
use apod.Sites.Networks.{connect_site, connect_all, join_each, reconnect}
use apod.Sites.Locking.{with_lock-ok}
use apod.Sites.Power.{
  power_on, power_off, start_site_locked, stop_site_locked, start_site, stop_site, restart_site,
}
use apod.Sites.Power.Running.{astray, switch_containers-astray, switch_compose-astray}

module _ (world : World) (domain : String) where
  power_on-astray :
      (site : Result SiteRow) (s : State)
      → (power_on world site domain s).1 ≡ ok tt
      → any (astray true domain) (power_on world site domain s).0.containers ≡ false
  unfolding power_on
  power_on-astray site s h = ground (
    arith,
    switch_compose-astray world true SiteCall.compose_start domain s,
    switch_containers-astray world true SiteCall.start_container domain
        (wrap "start container: %w" (plain "docker")) s,
  )

  power_off-astray :
      (site : Result SiteRow) (s : State)
      → (power_off world site domain s).1 ≡ ok tt
      → any (astray false domain) (power_off world site domain s).0.containers ≡ false
  unfolding power_off
  power_off-astray site s h = ground (
    arith,
    switch_compose-astray world false SiteCall.compose_stop domain s,
    switch_containers-astray world false SiteCall.stop_container domain
        (wrap "stop container: %w" (plain "docker")) s,
  )

  -- Every container of the site is as wanted, and so is the status of its row.
  pub record Switched (on : Bool) (status : String) (s : State) : Type 0 where
    pub reached : any (astray on domain) s.containers ≡ false
    pub row : SiteRow
    pub found : find (has_domain domain) s.db.sites ≡ some row
    pub marked : row.status ≡ status

  status-Switched :
      (on : Bool) (status : String) (s : State)
      → any (astray on domain) s.containers ≡ false
      → (write (update_site_status world.down domain status) s).1 ≡ ok tt
      → Switched on status (write (update_site_status world.down domain status) s).0
  unfolding update_site_status
  status-Switched on status s h w =
      let (r, f) = find_of_any (has_domain domain) s.db.sites (there w) in
      record {
        reached = ap (any (astray on domain)) kept ∙ h;
        row = record r { status = status };
        found =
            ap (find (has_domain domain)) (updated w)
            ∙ find-update_where (has_domain domain) (λ s. record s { status = status }) s.db.sites r
                (λ y e. e) f;
        marked = refl;
      }
    where
      there :
          (write (update_site_status world.down domain status) s).1 ≡ ok tt
          → any (has_domain domain) s.db.sites ≡ true
      there w = ground arith

      kept : (write (update_site_status world.down domain status) s).0.containers ≡ s.containers
      kept = ground arith

      updated :
          (write (update_site_status world.down domain status) s).1 ≡ ok tt
          → (write (update_site_status world.down domain status) s).0.db.sites
            ≡ update_where (has_domain domain) (λ s. record s { status = status }) s.db.sites
      updated w = ground arith

  connect_all-containers :
      (ns : List String) (s : State) → (connect_all world domain ns s).containers ≡ s.containers
  unfolding connect_all connect_site
  connect_all-containers [] s = refl
  connect_all-containers (n ∷ ns) s =
      connect_all-containers ns (connect_site world n domain s) ∙ one
    where
      one : (connect_site world n domain s).containers ≡ s.containers
      one = ground arith

  join_each-containers :
      (r : Result (List String)) (s : State)
      → (join_each world domain r s).0.containers ≡ s.containers
  unfolding join_each
  join_each-containers (err x) s = refl
  join_each-containers (ok ns) s = connect_all-containers ns s

  reconnect-containers : (s : State) → (reconnect world domain s).0.containers ≡ s.containers
  unfolding reconnect
  reconnect-containers s = join_each-containers (list_site_networks world.down domain s.db) s

  start_site_locked-Switched :
      (s : State)
      → (start_site_locked world domain s).1 ≡ ok tt
      → Switched true "running" (start_site_locked world domain s).0
  unfolding start_site_locked
  start_site_locked-Switched s h =
      let marked : M State (Unit {0}) = write (update_site_status world.down domain "running") in
      let power = power_on world (get_site world.down domain s.db) domain in
      let (u, h1, h2, q) = bind-ok power (λ u. reconnect world domain >> marked) s h in
      let s1 : State = (power s).0 in
      let (v, h3, h4, q2) = bind-ok (reconnect world domain) (λ u. marked) s1 h2 in
      subst (λ (y : State × Result (Unit {0})). Switched true "running" y.0) (sym (q ∙ q2))
        (status-Switched true "running" (reconnect world domain s1).0
          (ap (any (astray true domain)) (reconnect-containers s1)
            ∙ power_on-astray (get_site world.down domain s.db) s h1)
          h4)

  stop_site_locked-Switched :
      (s : State)
      → (stop_site_locked world domain s).1 ≡ ok tt
      → Switched false "stopped" (stop_site_locked world domain s).0
  unfolding stop_site_locked
  stop_site_locked-Switched s h =
      let power = power_off world (get_site world.down domain s.db) domain in
      let (u, h1, h2, q) =
        bind-ok power (λ u. write (update_site_status world.down domain "stopped")) s h in
      subst (λ (y : State × Result (Unit {0})). Switched false "stopped" y.0) (sym q)
        (status-Switched false "stopped" (power s).0
          (power_off-astray (get_site world.down domain s.db) s h1) h2)

  restart-Switched :
      (s : State)
      → ((stop_site_locked world domain >> start_site_locked world domain) s).1 ≡ ok tt
      → Switched true "running"
          ((stop_site_locked world domain >> start_site_locked world domain) s).0
  restart-Switched s h =
      let (u, h1, h2, q) =
        bind-ok (stop_site_locked world domain) (λ u. start_site_locked world domain) s h in
      subst (λ (y : State × Result (Unit {0})). Switched true "running" y.0) (sym q)
        (start_site_locked-Switched (stop_site_locked world domain s).0 h2)

  locked-Switched :
      (on : Bool) (status operation : String) (body : M State (Unit {0}))
      → ((s : State) → (body s).1 ≡ ok tt → Switched on status (body s).0)
      → (e : SiteEngine) → (with_lock world.now domain operation body e).1 ≡ ok tt
      → Switched on status (with_lock world.now domain operation body e).0.state
  locked-Switched on status operation body f e h =
      let (done, same) = with_lock-ok world.now domain operation body e tt h in
      subst (Switched on status) (sym same) (f e.state done)

  -- A start or a restart that succeeds leaves every container of the site running and the status "running",
  -- and a stop that succeeds leaves none of them running and the status "stopped".
  pub power-Switched :
      (e : SiteEngine)
      → ((start_site world domain e).1 ≡ ok tt
          → Switched true "running" (start_site world domain e).0.state)
        × ((stop_site world domain e).1 ≡ ok tt
            → Switched false "stopped" (stop_site world domain e).0.state)
        × ((restart_site world domain e).1 ≡ ok tt
            → Switched true "running" (restart_site world domain e).0.state)
  unfolding start_site stop_site restart_site
  power-Switched e = (
    locked-Switched true "running" "starting" (start_site_locked world domain)
        start_site_locked-Switched e,
    locked-Switched false "stopped" "stopping" (stop_site_locked world domain)
        stop_site_locked-Switched e,
    locked-Switched true "running" "restarting"
        (stop_site_locked world domain >> start_site_locked world domain) restart-Switched e,
  )
