-- ===== src/Sites/Power.antt =====
-- internal/engine/engine.go: `StartSite`, `StopSite` and `RestartSite`. The deadlines and the rules for
-- addresses are left out.
pub mod Running
pub mod Frame
pub mod Switched
use apod.Base.{
  Bool, true, false, String, List, [], ◌∷◌, Result, ok, err, Error, plain, wrap, if◌then◌else◌,
  delete_where, update_where,
}
use apod.Base.Effects.{M, ◌>>=◌, ◌>>◌, pure, fail, query, attempt, exec}
use apod.Db.Sites.{SiteRow, get_site, update_site_status}
use apod.Sites.{
  World, State, SiteEngine, SiteCall, SiteContainer, of_site, site_containers, is_that,
  is_compose_site, write, read, with_lock,
}
use apod.Sites.Networks.{reconnect}

-- The state with a container that runs or does not.
unfoldable pub set_running : Bool → SiteContainer → State → State
unfolding update_where
set_running on c s = record s {
  containers = update_where (is_that c) (λ x. record x { running = on }) s.containers;
}

-- A compose project's containers.
unfoldable pub set_all_running : Bool → String → State → State
unfolding update_where
set_all_running on domain s = record s {
  containers = update_where (of_site domain) (λ x. record x { running = on }) s.containers;
}

module _ (world : World) where
  -- The loops over the containers.
  unfoldable pub switch_each :
      Bool → (String → SiteCall) → Error → List SiteContainer → M State (Unit {0})
  unfolding set_running
  switch_each on call x [] s = (s, ok tt)
  switch_each on call x (c ∷ cs) s =
      let rest = switch_each on call x cs (set_running on c s) in
      if world.fails (call c.id) then (s, err x) else rest

  unfoldable pub switch_containers :
      Bool → (String → SiteCall) → Error → String → M State (Unit {0})
  unfolding switch_each delete_where
  switch_containers on call x domain s =
      if world.fails (SiteCall.list_containers domain)
      then (s, err (wrap "list containers: %w" (plain "docker")))
      else switch_each on call x (site_containers domain s) s

  -- A compose project is started or stopped as a whole.
  unfoldable pub switch_compose : Bool → (String → SiteCall) → String → M State (Unit {0})
  unfolding set_all_running
  switch_compose on call domain s =
      if world.fails (call domain)
      then (s, err (plain "docker compose"))
      else (set_all_running on domain s, ok tt)

  unfoldable pub power_on : Result SiteRow → String → M State (Unit {0})
  unfolding switch_compose switch_containers
  power_on site domain =
      if is_compose_site world site
      then switch_compose true SiteCall.compose_start domain
      else switch_containers true SiteCall.start_container
          (wrap "start container: %w" (plain "docker")) domain

  -- `startSiteLocked`.
  unfoldable pub start_site_locked : String → M State (Unit {0})
  unfolding get_site power_on reconnect update_site_status
  start_site_locked domain = do
    site ← attempt (read (get_site world.down domain))
    power_on site domain
    reconnect world domain
    write (update_site_status world.down domain "running")

  unfoldable pub power_off : Result SiteRow → String → M State (Unit {0})
  unfolding switch_compose switch_containers
  power_off site domain =
      if is_compose_site world site
      then switch_compose false SiteCall.compose_stop domain
      else switch_containers false SiteCall.stop_container
          (wrap "stop container: %w" (plain "docker")) domain

  -- `stopSiteLocked`.
  unfoldable pub stop_site_locked : String → M State (Unit {0})
  unfolding get_site power_off update_site_status
  stop_site_locked domain = do
    site ← attempt (read (get_site world.down domain))
    power_off site domain
    write (update_site_status world.down domain "stopped")

  -- `StartSite`.
  unfoldable pub start_site : String → M SiteEngine (Unit {0})
  unfolding start_site_locked with_lock
  start_site domain = with_lock world.now domain "starting" (start_site_locked domain)

  -- `StopSite`.
  unfoldable pub stop_site : String → M SiteEngine (Unit {0})
  unfolding stop_site_locked with_lock
  stop_site domain = with_lock world.now domain "stopping" (stop_site_locked domain)

  -- `RestartSite`: one lock for both.
  unfoldable pub restart_site : String → M SiteEngine (Unit {0})
  unfolding stop_site_locked start_site_locked with_lock
  restart_site domain =
      with_lock world.now domain "restarting" (do stop_site_locked domain; start_site_locked domain)
